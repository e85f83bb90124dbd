-- ===== src/Runs/Log/Stream.antt =====
-- backend/app/routers/runs.py, append_run_log_chunk, seen by a client that sends a stream in pieces:
-- what a chunk that is taken leaves behind, what a repeated one does, and what any sequence does.
use auto_script_hub.Prelude.{
  ℕ, zero, suc, Bool, true, false, List, [], ◌∷◌, ◌≤◌, ◌≡◌, refl, ap, sym, ◌∙◌, arith, length, take,
  drop, Bool-cases, inl, inr, leb, ==_refl,
}
use auto_script_hub.Runs.Log.{ChunkReply, acknowledged, gap, conflict, write_chunk}
use auto_script_hub.Runs.Log.Bytes.{
  agrees, stitch, agrees-stitch, stitch-stitch, stitch-take, stitch-keeps, drop-take-append,
  take-take-append,
}
use auto_script_hub.Runs.Log.Laws.{laid, outcome, write_chunk-within, write_chunk-beyond}

laid_keeps : (o : ℕ) (p f : List ℕ) → o ≤ length f → take (length f) (laid o p f) ≡ f
laid_keeps zero p f h = stitch-keeps f p
laid_keeps (suc o) p [] h = absurd (omega arith)
laid_keeps (suc o) p (x ∷ f) h = ap (λ (s : List ℕ). x ∷ s) (laid_keeps o p f (omega arith))

laid_at :
    (o : ℕ) (p f : List ℕ)
    → o ≤ length f
    → agrees (drop o f) p ≡ true
    → take (length p) (drop o (laid o p f)) ≡ p
laid_at o p f h a = rw (drop-take-append o f (stitch (drop o f) p) h) (stitch-take (drop o f) p a)

length-stitch-ge : (t p : List ℕ) → length t ≤ length (stitch t p)
unfolding stitch
length-stitch-ge [] p = omega arith
length-stitch-ge (x ∷ t) [] = omega arith
length-stitch-ge (x ∷ t) (y ∷ p) = omega (arith, length-stitch-ge t p)

length-laid : (o : ℕ) (p f : List ℕ) → o ≤ length f → length f ≤ length (laid o p f)
length-laid zero p f h = length-stitch-ge f p
length-laid (suc o) p [] h = absurd (omega arith)
length-laid (suc o) p (x ∷ f) h = let r = length-laid o p f (omega arith) in omega arith

laid_twice : (o : ℕ) (p f : List ℕ) → o ≤ length f → laid o p (laid o p f) ≡ laid o p f
laid_twice o p f h = rw (
  drop-take-append o f (stitch (drop o f) p) h,
  take-take-append o f (stitch (drop o f) p) h,
  stitch-stitch (drop o f) p,
)

-- A chunk that was taken: it began within the file, and agreed with what was there.
pub record Taken (o : ℕ) (p f : List ℕ) (n : ℕ) (f' : List ℕ) : Type 0 where
  pub began : o ≤ length f
  pub agreed : agrees (drop o f) p ≡ true
  pub result : f' ≡ laid o p f
  pub count : n ≡ length f'

taken_lem :
    (o : ℕ) (p f : List ℕ) {n : ℕ} {f' : List ℕ}
    → write_chunk o p f ≡ (acknowledged n, f')
    → Taken o p f n f'
taken_lem o p f {n} {f'} h = elim (Bool-cases (leb o (length f))) [
  | inl e ↦ within (ground arith) (agrees (drop o f) p) refl
  | inr e ↦
      let b : ◌≡◌ {A = ChunkReply × List ℕ} (gap (length f), f) (acknowledged n, f') =
        sym (write_chunk-beyond o p f (ground arith)) ∙ h in
      let c : gap (length f) ≡ acknowledged n = ap (λ (r : ChunkReply × List ℕ). r.0) b in cc
]
  where
    within : o ≤ length f → (b : Bool) → agrees (drop o f) p ≡ b → Taken o p f n f'
    within g true e =
        let r : outcome true o p f ≡ (acknowledged n, f') =
          sym (write_chunk-within o p f g ∙ ap (λ b. outcome b o p f) e) ∙ h in
        let c : acknowledged (length (laid o p f)) ≡ acknowledged n =
          ap (λ (r : ChunkReply × List ℕ). r.0) r in
        let file : laid o p f ≡ f' = ap (λ (r : ChunkReply × List ℕ). r.1) r in
        record { began = g; agreed = e; result = sym file; count = rw (← file) (ground arith) }
    within g false e =
        let r : outcome false o p f ≡ (acknowledged n, f') =
          sym (write_chunk-within o p f g ∙ ap (λ b. outcome b o p f) e) ∙ h in
        let c : conflict (length f) ≡ acknowledged n = ap (λ (r : ChunkReply × List ℕ). r.0) r in cc

-- A chunk that is acknowledged: what was in the file is still its beginning, the chunk now stands at
-- its offset, and the offset that comes back is the file's length.
pub chunk_taken :
    (o : ℕ) (p f : List ℕ) (n : ℕ) (f' : List ℕ)
    → write_chunk o p f ≡ (acknowledged n, f')
    → (take (length f) f' ≡ f) × (take (length p) (drop o f') ≡ p) × (n ≡ length f')
chunk_taken o p f n f' h =
    let t = taken_lem o p f h in
    (rw t.result (laid_keeps o p f t.began), rw t.result (laid_at o p f t.began t.agreed), t.count)

-- A chunk that was acknowledged may be sent again: it is acknowledged with the same offset, and the
-- file does not change.
pub chunk_again :
    (o : ℕ) (p f : List ℕ) (n : ℕ) (f' : List ℕ)
    → write_chunk o p f ≡ (acknowledged n, f')
    → write_chunk o p f' ≡ (acknowledged n, f')
chunk_again o p f n f' h =
    let t = taken_lem o p f h in
    let room : o ≤ length (laid o p f) = omega (arith, t.began, length-laid o p f t.began) in
    let same : agrees (drop o (laid o p f)) p ≡ true =
      rw (drop-take-append o f (stitch (drop o f) p) t.began)
        (agrees-stitch (drop o f) p t.agreed) in
    let count : n ≡ length (laid o p f) = t.count ∙ ap length t.result in
    rw (t.result, count)
      (write_chunk-within o p (laid o p f) room
        ∙ ap (λ b. outcome b o p (laid o p f)) same
        ∙ ap (λ (g : List ℕ). (let r : ChunkReply × List ℕ = (acknowledged (length g), g) in r))
            (laid_twice o p f t.began))

-- `f` is the beginning of the stream `w`.
abbrev pub Begins : List ℕ → List ℕ → Type 0
Begins f w = take (length f) w ≡ f

take-Begins : (k : ℕ) (w : List ℕ) → Begins (take k w) w
take-Begins zero w = refl
take-Begins (suc k) [] = refl
take-Begins (suc k) (z ∷ w) = ap (λ (s : List ℕ). z ∷ s) (take-Begins k w)

Begins-tail : (x z : ℕ) (t w : List ℕ) → Begins (x ∷ t) (z ∷ w) → (z ≡ x) × Begins t w
Begins-tail x z t w h = (cc, cc)

stitch-Begins :
    (t w : List ℕ) (k : ℕ)
    → Begins t w
    → (agrees t (take k w) ≡ true) × Begins (stitch t (take k w)) w
unfolding agrees stitch
stitch-Begins [] w k h = (refl, take-Begins k w)
stitch-Begins (x ∷ t) [] k h = absurd (cc)
stitch-Begins (x ∷ t) (z ∷ w) zero h = (refl, h)
stitch-Begins (x ∷ t) (z ∷ w) (suc k) h =
    let (e, r) = Begins-tail x z t w h in
    let (a, b) = stitch-Begins t w k r in (rw (e, ==_refl x, a), rw (e, b))

laid-Begins :
    (o k : ℕ) (f w : List ℕ)
    → o ≤ length f
    → Begins f w
    → (agrees (drop o f) (take k (drop o w)) ≡ true) × Begins (laid o (take k (drop o w)) f) w
laid-Begins zero k f w g h = stitch-Begins f w k h
laid-Begins (suc o) k [] w g h = absurd (omega arith)
laid-Begins (suc o) k (x ∷ f) [] g h = absurd (cc)
laid-Begins (suc o) k (x ∷ f) (z ∷ w) g h =
    let (e, r) = Begins-tail x z f w h in
    let (a, b) = laid-Begins o k f w (omega arith) r in (a, rw (e, b))

-- A client that reads pieces of its own log `w` and sends them: each piece is where it begins and
-- how many bytes of the log it takes. Lost replies, repeats and any order are sequences of these.
unfoldable pub send_pieces : List ℕ → List (ℕ × ℕ) → List ℕ → List ℕ
send_pieces w [] f = f
send_pieces w ((o, k) ∷ r) f = send_pieces w r (write_chunk o (take k (drop o w)) f).1

-- A piece of the client's log never conflicts, and the file stays a beginning of that log.
pub piece_taken :
    (w : List ℕ) (o k : ℕ) (f : List ℕ)
    → Begins f w
    → o ≤ length f
    → let (r, f') = write_chunk o (take k (drop o w)) f in
      (r ≡ acknowledged (length f')) × Begins f' w × (length f ≤ length f')
piece_taken w o k f h g =
    let (a, b) = laid-Begins o k f w g h in
    rw (write_chunk-within o (take k (drop o w)) f g, a)
      (refl, b, length-laid o (take k (drop o w)) f g)

piece_step :
    (w : List ℕ) (o k : ℕ) (f : List ℕ)
    → Begins f w
    → let f' = (write_chunk o (take k (drop o w)) f).1 in Begins f' w × (length f ≤ length f')
piece_step w o k f h = elim (Bool-cases (leb o (length f))) [
  | inl e ↦ let t = piece_taken w o k f h (ground arith) in (t.1, t.2)
  | inr e ↦ rw (write_chunk-beyond o (take k (drop o w)) f (ground arith)) (h, omega arith)
]

-- Whatever pieces of its log a client sends, again and in any order, the file on the server is a
-- beginning of that log, and never gets shorter.
pub send_pieces-Begins :
    (w : List ℕ) (pieces : List (ℕ × ℕ)) (f : List ℕ)
    → Begins f w
    → Begins (send_pieces w pieces f) w × (length f ≤ length (send_pieces w pieces f))
unfolding send_pieces
send_pieces-Begins w [] f h = (h, omega arith)
send_pieces-Begins w ((o, k) ∷ r) f h =
    let (b, l) = piece_step w o k f h in
    let (c, m) = send_pieces-Begins w r (write_chunk o (take k (drop o w)) f).1 b in
    (c, omega arith)
