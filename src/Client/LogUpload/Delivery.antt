-- ===== src/Client/LogUpload/Delivery.antt =====
-- client/agent/main.py, _upload_log_delta, against backend/app/routers/runs.py, append_run_log_chunk: the log of a
-- script that has ended reaches the server.
use auto_script_hub.Prelude.{
  ◌++◌, ℕ, zero, suc, String, Bool, true, false, some, List, [], ◌∷◌, ◌≡◌, ◌⊎◌, ◌∙◌, ◌≤◌, refl, sym,
  ap, arith, subst, length, take, drop, length-take, length-drop, inl, inr, ok,
}
use auto_script_hub.Runs.Log.{ChunkReply, acknowledged, refused, write_chunk, chunk_checks}
use auto_script_hub.Runs.Log.Path.{answer-accepted, answer-cases}
use auto_script_hub.Runs.Log.Laws.{write_chunk-end}
use auto_script_hub.Runs.Log.Stream.{Begins, piece_taken, chunk_taken}
use auto_script_hub.Client.LogUpload.{
  valid, cut, Utf8, nothing, post, Upload, Arrival, carrying, served, Fate, answered, request_lost,
  reply_lost, restarted, delta_from, clamped, delta, settle, sent, upload_log_delta, upload_all,
}

take-beyond : (n : ℕ) (w : List ℕ) → length w ≤ n → take n w ≡ w
take-beyond zero [] h = refl
take-beyond zero (x ∷ w) h = absurd (omega arith)
take-beyond (suc n) [] h = refl
take-beyond (suc n) (x ∷ w) h = ap (λ (s : List ℕ). x ∷ s) (take-beyond n w (omega arith))

-- A beginning of a log that is as long as the log is the log.
Begins-whole : (f w : List ℕ) → Begins f w → length w ≤ length f → f ≡ w
Begins-whole f w b h = sym b ∙ take-beyond (length f) w h

drop-short : (n : ℕ) (w : List ℕ) → drop n w ≡ [] → length w ≤ n
drop-short n w h = let d = length-drop n w in let z = ap length h in omega arith

-- What is sent of the log from `o` on makes the server's file the whole log.
suffix_lands :
    (w : List ℕ) (o : ℕ) (f : List ℕ)
    → Begins f w
    → o ≤ length f
    → write_chunk o (drop o w) f ≡ (acknowledged (length w), w)
suffix_lands w o f b h =
    let whole : take (length w) (drop o w) ≡ drop o w =
      take-beyond (length w) (drop o w) (let d = length-drop o w in omega arith) in
    let g = (write_chunk o (drop o w) f).1 in
    let (reply, begins, grows) =
      subst
        (λ p.
          ((write_chunk o p f).0 ≡ acknowledged (length (write_chunk o p f).1))
          × Begins (write_chunk o p f).1 w
          × (length f ≤ length (write_chunk o p f).1))
        whole (piece_taken w o (length w) f b h) in
    let both : write_chunk o (drop o w) f ≡ (acknowledged (length g), g) =
      ap (λ (r : ChunkReply). let x : ChunkReply × List ℕ = (r, g) in x) reply in
    let (keeps, stands, count) = chunk_taken o (drop o w) f (length g) g both in
    let long : length w ≤ length g = reaches o w f g grows h stands in
    let same = Begins-whole g w begins long in
    both ∙ ap (λ (x : List ℕ). let y : ChunkReply × List ℕ = (acknowledged (length x), x) in y) same
  where
    reaches :
        (o : ℕ) (w f g : List ℕ)
        → length f ≤ length g
        → o ≤ length f
        → take (length (drop o w)) (drop o g) ≡ drop o w
        → length w ≤ length g
    reaches o w f g l h e =
        let a = length-drop o w in
        let b = length-drop o g in
        let c = length-take (length (drop o w)) (drop o g) in let d = ap length e in omega arith

-- A chunk whose checks pass is written.
served-accepted :
    (a : Arrival) (o : ℕ) (content file : List ℕ)
    → chunk_checks a.decode a.request a.db ≡ ok tt
    → served a o content file ≡ write_chunk o content file
unfolding served chunk_checks
served-accepted a o content file h =
    answer-accepted a.decode (carrying a o content) a.path file a.db h

served-cases :
    (a : Arrival) (o : ℕ) (content file : List ℕ)
    → (served a o content file ≡ write_chunk o content file)
      ⊎ ((c : ℕ) × (d : String) × (served a o content file ≡ (refused c d, file)))
unfolding served
served-cases a o content file = answer-cases a.decode (carrying a o content) a.path file a.db

-- Between client and server: the file is a beginning of the log, the client's offset is within it, and what is
-- left of the log from there on is valid UTF-8.
pub record InStep (utf8 : Utf8) (w : List ℕ) (u : Upload) : Type 0 where
  pub begins : Begins u.file w
  pub within : u.offset ≤ length u.file
  pub readable : utf8.decode (drop u.offset w) ≡ valid
  pub inside : u.offset ≤ length w

module _ (utf8 : Utf8) (w : List ℕ) (whole : utf8.decode w ≡ valid)
    (empty : utf8.decode [] ≡ valid) where
  -- What a call has to send: the rest of the log, if there is any.
  rest_of :
      (force : Bool) (o : ℕ)
      → o ≤ length w
      → utf8.decode (drop o w) ≡ valid
      → (delta utf8 force (some w) o ≡ post o (drop o w))
        ⊎ ((delta utf8 force (some w) o ≡ nothing) × (length w ≤ o))
  unfolding delta
  rest_of force o h v =
      let kept : clamped utf8 o w ≡ o = ground arith in rw kept (by_rest (drop o w) v refl)
    where
      by_rest :
          (raw : List ℕ)
          → utf8.decode raw ≡ valid
          → drop o w ≡ raw
          → (delta_from utf8 force o raw ≡ post o raw)
            ⊎ ((delta_from utf8 force o raw ≡ nothing) × (length w ≤ o))
      by_rest [] v e = inr (refl, drop-short o w e)
      by_rest (b ∷ raw) v e = inl (rw v)

  nothing_left : (n : ℕ) → length w ≤ n → utf8.decode (drop n w) ≡ valid
  nothing_left n h = rw (drop_beyond n w h) empty
    where
      drop_beyond : (n : ℕ) (v : List ℕ) → length v ≤ n → drop n v ≡ []
      drop_beyond zero [] h = refl
      drop_beyond zero (x ∷ v) h = absurd (omega arith)
      drop_beyond (suc n) [] h = refl
      drop_beyond (suc n) (x ∷ v) h = drop_beyond n v (omega arith)

  -- The two hold the whole log.
  pub record IsDelivered (u : Upload) : Type 0 where
    pub all : u.file ≡ w
    pub known : u.offset ≡ length w

  delivered-InStep : (u : Upload) → IsDelivered u → InStep utf8 w u
  delivered-InStep u d = record {
    begins = rw d.all (take-beyond (length w) w (omega arith));
    within = rw (d.all, d.known) (omega arith);
    readable = nothing_left u.offset (rw d.known (omega arith));
    inside = rw d.known (omega arith);
  }

  no_rest : (u : Upload) → InStep utf8 w u → length w ≤ u.offset → IsDelivered u
  no_rest u s h =
      let a = s.within in
      let b = s.inside in
      record { all = Begins-whole u.file w s.begins (omega arith); known = omega arith }

  -- A call that is answered and not refused hands over all of the log, and returns True.
  accepted-IsDelivered :
      (force : Bool) (a : Arrival) (u : Upload)
      → InStep utf8 w u
      → chunk_checks a.decode a.request a.db ≡ ok tt
      → ((upload_log_delta utf8 force (some w) (answered a) u).0 ≡ true)
        × IsDelivered (upload_log_delta utf8 force (some w) (answered a) u).1
  unfolding upload_log_delta sent
  accepted-IsDelivered force a u s g = elim (rest_of force u.offset s.inside s.readable) [
    | inl e ↦
        rw
          (
            e,
            served-accepted a u.offset (drop u.offset w) u.file g,
            suffix_lands w u.offset u.file s.begins s.within,
          )
          (refl, record { all = refl; known = refl })
    | inr (e, h) ↦ rw e (refl, no_rest u s h)
  ]

  -- A request that gets to the server leaves the two in step, accepted or refused, whether its reply comes or not.
  answered-InStep :
      (force : Bool) (a : Arrival) (u : Upload)
      → InStep utf8 w u
      → InStep utf8 w (upload_log_delta utf8 force (some w) (answered a) u).1
  unfolding upload_log_delta sent
  answered-InStep force a u s = elim (rest_of force u.offset s.inside s.readable) [
    | inl e ↦ elim (served-cases a u.offset (drop u.offset w) u.file) [
      | inl t ↦
          rw (e, t, suffix_lands w u.offset u.file s.begins s.within)
            (delivered-InStep _ (record { all = refl; known = refl }))
      | inr (c, d, t) ↦ rw (e, t) s
    ]
    | inr (e, h) ↦ rw e s
  ]

  lost-InStep :
      (force : Bool) (a : Arrival) (u : Upload)
      → InStep utf8 w u
      → InStep utf8 w (upload_log_delta utf8 force (some w) (reply_lost a) u).1
  unfolding upload_log_delta sent
  lost-InStep force a u s =
      let file_InStep = λ (x : ChunkReply × List ℕ). InStep utf8 w (record u { file = x.1 }) in
      elim (rest_of force u.offset s.inside s.readable) [
        | inl e ↦ rw e (elim (served-cases a u.offset (drop u.offset w) u.file) [
          | inl t ↦
              subst file_InStep (sym (t ∙ suffix_lands w u.offset u.file s.begins s.within))
                (record {
                  begins = take-beyond (length w) w (omega arith);
                  within = s.inside;
                  readable = s.readable;
                  inside = s.inside;
                })
          | inr (c, d, t) ↦ subst file_InStep (sym t) s
        ])
        | inr (e, h) ↦ rw e s
      ]

  unsent-InStep :
      (force : Bool) (u : Upload)
      → InStep utf8 w u
      → InStep utf8 w (upload_log_delta utf8 force (some w) request_lost u).1
  unfolding upload_log_delta sent
  unsent-InStep force u s = elim (rest_of force u.offset s.inside s.readable) [
    | inl e ↦ rw e s
    | inr (e, h) ↦ rw e s
  ]

  -- Whatever becomes of a call, client and server stay in step.
  call-InStep :
      (force : Bool) (fate : Fate) (u : Upload)
      → InStep utf8 w u
      → InStep utf8 w (upload_log_delta utf8 force (some w) fate u).1
  unfolding upload_log_delta sent
  call-InStep force (answered a) u s = answered-InStep force a u s
  call-InStep force request_lost u s = unsent-InStep force u s
  call-InStep force (reply_lost a) u s = lost-InStep force a u s
  call-InStep force restarted u s = record {
    begins = s.begins;
    within = omega arith;
    readable = whole;
    inside = omega arith;
  }

  calls-InStep :
      (force : Bool) (fates : List Fate) (u : Upload)
      → InStep utf8 w u
      → InStep utf8 w (upload_all utf8 force (some w) fates u)
  unfolding upload_all
  calls-InStep force [] u s = s
  calls-InStep force (fate ∷ fates) u s = calls-InStep force fates _ (call-InStep force fate u s)

  -- However many requests and replies are lost, however often the server refuses, and however often the client
  -- restarts: a call after that which is answered, and whose checks on the run, the user, the agent and its token
  -- pass, hands over the whole log of a script that has ended, and returns True; where client and server were in
  -- step, and the log is valid UTF-8.
  pub upload_all-IsDelivered :
      (force : Bool) (fates : List Fate) (a : Arrival) (u : Upload)
      → InStep utf8 w u
      → chunk_checks a.decode a.request a.db ≡ ok tt
      → let x =
          upload_log_delta utf8 force
            (some w)
            (answered a)
            (upload_all utf8 force (some w) fates u) in
        (x.0 ≡ true) × IsDelivered x.1
  upload_all-IsDelivered force fates a u s g =
      accepted-IsDelivered force a (upload_all utf8 force (some w) fates u)
        (calls-InStep force fates u s) g

-- A delta that is nothing but the beginning of a character, and not forced, is sent as its replacement, although the
-- rest of the character is still to come; where the server's checks pass and the client's offset is the length of
-- the server's file.
pub lone_tail_sent :
    (utf8 : Utf8) (a : Arrival) (u : Upload) (log raw : List ℕ) (b : ℕ)
    → chunk_checks a.decode a.request a.db ≡ ok tt
    → u.offset ≤ length log
    → drop u.offset log ≡ b ∷ raw
    → utf8.decode (b ∷ raw) ≡ cut 0
    → u.offset ≡ length u.file
    → (upload_log_delta utf8 false (some log) (answered a) u).1.file
      ≡ u.file ++ utf8.replaced (b ∷ raw)
unfolding upload_log_delta sent delta
lone_tail_sent utf8 a u log raw b g h e d at =
    let kept : clamped utf8 u.offset log ≡ u.offset = ground arith in
    rw (kept, e, d) (landed (utf8.replaced (b ∷ raw)))
  where
    landed : (p : List ℕ) → (settle utf8 (served a u.offset p u.file) u).1.file ≡ u.file ++ p
    landed p = rw (served-accepted a u.offset p u.file g) (
        ap (λ (x : ChunkReply × List ℕ). (settle utf8 x u).1.file)
          (subst (λ n. write_chunk n p u.file ≡ (acknowledged (length (u.file ++ p)), u.file ++ p))
            (sym at) (write_chunk-end p u.file)))
