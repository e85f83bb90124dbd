-- ===== src/Tests/Uploads.antt =====
-- A client that sends its log.
use auto_script_hub.Prelude.{
  ℕ, suc, true, false, List, [], ◌∷◌, ◌≡◌, refl, arith, some, ltb, first, ok, if◌then◌else◌,
}
use auto_script_hub.Runs.Log.{ChunkRequest, chunk_checks}
use auto_script_hub.Tests.Data.{ada, decode, noon, office}
use auto_script_hub.Client.LogUpload.{
  Decoded, valid, broken, cut, Utf8, Upload, Arrival, Fate, answered, request_lost, reply_lost,
  restarted, upload_log_delta, upload_all,
}
use auto_script_hub.Client.LogUpload.Delivery.{
  InStep, IsDelivered, upload_all-IsDelivered, lone_tail_sent,
}

-- ASCII, and a last byte beyond it as the beginning of a character.
abbrev decode_from : ℕ → List ℕ → Decoded
decode_from n [] = valid
decode_from n (b ∷ []) = if ltb b 128 then valid else cut n
decode_from n (b ∷ c ∷ r) =
    let rest = decode_from (suc n) (c ∷ r) in if ltb b 128 then rest else broken

abbrev ascii : Utf8
ascii = record { decode = decode_from 0; replaced = λ raw. 239 ∷ 191 ∷ 189 ∷ [] }

abbrev log : List ℕ
log = 104 ∷ 105 ∷ 10 ∷ []

abbrev fresh : Upload
fresh = record { offset = 0; file = [] }

fresh-InStep : InStep ascii log fresh
fresh-InStep = record { begins = refl; within = omega arith; readable = refl; inside = omega arith }

-- The log of the run that the device executes, sent in the name of the device; and in the name of another one, which
-- is refused.
abbrev chunk : ChunkRequest
chunk = record {
  run_id = 12;
  offset = 0;
  payload = [];
  agent_id = some 3;
  user = ada;
  token = some "t";
  now = noon;
}

abbrev arrival : Arrival
arrival = record { decode = decode; request = chunk; path = "12.log"; db = office }

abbrev stranger : Arrival
stranger = record arrival { request = record chunk { agent_id = some 2 } }

checks_pass : chunk_checks decode chunk office ≡ ok tt
unfolding chunk_checks first auto_script_hub.Auth.verify_agent_token
checks_pass = refl

abbrev bad_day : List Fate
bad_day = request_lost ∷ answered stranger ∷ reply_lost arrival ∷ restarted ∷ []

upload_all-IsDelivered_example :
    let x =
      upload_log_delta ascii true
        (some log)
        (answered arrival)
        (upload_all ascii true (some log) bad_day fresh) in
    (x.0 ≡ true) × IsDelivered ascii log refl refl x.1
upload_all-IsDelivered_example =
    upload_all-IsDelivered ascii log refl refl true bad_day arrival fresh fresh-InStep checks_pass

abbrev half : List ℕ
half = 104 ∷ 195 ∷ []

abbrev behind : Upload
behind = record { offset = 1; file = 104 ∷ [] }

lone_tail_sent_example :
    (upload_log_delta ascii false (some half) (answered arrival) behind).1.file
    ≡ 104 ∷ 239 ∷ 191 ∷ 189 ∷ []
lone_tail_sent_example =
    lone_tail_sent ascii arrival behind half [] 195 checks_pass (omega arith) refl refl refl
