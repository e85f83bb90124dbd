-- ===== src/Client/LogUpload.antt =====
-- client/agent/main.py, _upload_log_delta: the client sends what the server has not yet acknowledged of a log.
-- A log is the list of its bytes, and a chunk is sent as the bytes that the server gets when it encodes its text.
-- Python's UTF-8 decoder is the parameter `Utf8`.
pub mod Delivery
use auto_script_hub.Prelude.{
  ℕ, String, Bool, true, false, not, ◌&&◌, Option, none, some, List, [], ◌∷◌, ltb, length, take,
  drop, if◌then◌else◌,
}
use auto_script_hub.Store.{Db}
use auto_script_hub.Auth.{Decode}
use auto_script_hub.Runs.Log.{ChunkRequest, ChunkReply, acknowledged, gap, conflict, refused}
use auto_script_hub.Runs.Log.Path.{answer}

-- bytes.decode("utf-8"): it goes through, or raises at a position, where "unexpected end of data" is one reason.
pub data Decoded : Type 0 where
  valid broken : Decoded
  cut : ℕ → Decoded

-- `replaced` is decode(errors="replace"), as the bytes that its text is encoded to.
pub record Utf8 : Type 0 where
  pub decode : List ℕ → Decoded
  pub replaced : List ℕ → List ℕ

-- What one call is about to do: nothing, as all was sent, or a request.
pub data Delta : Type 0 where
  nothing : Delta
  post : ℕ → List ℕ → Delta

-- What the server has of a log, and the offset that the client keeps of it.
pub record Upload : Type 0 where
  pub offset : ℕ
  pub file : List ℕ

-- What a request meets when it arrives: the JWT key, the run, the user and the headers that it names, the path of
-- the log, and the database. Its offset and content are those of the call.
pub record Arrival : Type 0 where
  pub decode : Decode
  pub request : ChunkRequest
  pub path : String
  pub db : Db

abbrev pub carrying : Arrival → ℕ → List ℕ → ChunkRequest
carrying a offset content = record a.request { offset = offset; payload = content }

-- append_run_log_chunk on the request: its reply, and the file after it.
unfoldable pub served : Arrival → ℕ → List ℕ → List ℕ → ChunkReply × List ℕ
served a offset content file = answer a.decode (carrying a offset content) a.path file a.db

-- What becomes of one call: the server answers, which may be a refusal, the reply is lost after the server has acted,
-- the request does not get to the handler, or the client restarts and has forgotten the offset.
pub data Fate : Type 0 where
  answered reply_lost : Arrival → Fate
  request_lost restarted : Fate

module _ (utf8 : Utf8) where
  abbrev pub content_of : Bool → List ℕ → Decoded → List ℕ
  content_of force raw valid = raw
  content_of force raw broken = utf8.replaced raw
  content_of force raw (cut start) =
      if not force && ltb 0 start then take start raw else utf8.replaced raw

  abbrev pub delta_from : Bool → ℕ → List ℕ → Delta
  delta_from force offset [] = nothing
  delta_from force offset (b ∷ raw) =
      post offset (content_of force (b ∷ raw) (utf8.decode (b ∷ raw)))

  -- `if offset > size: offset = 0`
  abbrev pub clamped : ℕ → List ℕ → ℕ
  clamped offset log = if ltb (length log) offset then 0 else offset

  -- None is a log that is not there.
  unfoldable pub delta : Bool → Option (List ℕ) → ℕ → Delta
  delta force none offset = nothing
  delta force (some log) offset =
      delta_from force (clamped offset log) (drop (clamped offset log) log)

  -- The offset after a reply, and whether the call returns True.
  abbrev pub settle : ChunkReply × List ℕ → Upload → Bool × Upload
  settle (acknowledged n, file) u = (true, record { offset = n; file = file })
  settle (gap n, file) u = (false, record { offset = n; file = file })
  settle (conflict n, file) u = (false, record { offset = n; file = file })
  settle (refused c d, file) u = (false, record { offset = u.offset; file = file })

  unfoldable pub sent : Fate → Delta → Upload → Bool × Upload
  unfolding served
  sent restarted x u = (false, record u { offset = 0 })
  sent fate nothing u = (true, u)
  sent (answered a) (post offset content) u = settle (served a offset content u.file) u
  sent request_lost (post offset content) u = (false, u)
  sent (reply_lost a) (post offset content) u =
      (false, record u { file = (served a offset content u.file).1 })

  unfoldable pub upload_log_delta : Bool → Option (List ℕ) → Fate → Upload → Bool × Upload
  unfolding delta sent
  upload_log_delta force log fate u = sent fate (delta force log u.offset) u

  unfoldable pub upload_all : Bool → Option (List ℕ) → List Fate → Upload → Upload
  unfolding upload_log_delta
  upload_all force log [] u = u
  upload_all force log (fate ∷ fates) u =
      upload_all force log fates (upload_log_delta force log fate u).1
