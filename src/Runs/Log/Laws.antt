-- ===== src/Runs/Log/Laws.antt =====
-- backend/app/routers/runs.py, append_run_log_chunk: what the file and the reply are after a chunk,
-- by way of `agrees` and `stitch`.
use auto_script_hub.Prelude.{
  ℕ, zero, suc, Bool, true, false, not, ◌&&◌, List, [], ◌∷◌, ◌++◌, ◌==◌, ◌≤◌, ◌<◌, ◌≡◌, refl, ap,
  arith, ltb, length, take, drop, length-drop, Bool-cases, inl, inr, if◌then◌else◌,
}
use Prim.Native.Nat.{min}
use mathlib.Core.List.{append-nil}
use auto_script_hub.Runs.Log.{
  ChunkReply, acknowledged, gap, conflict, same_bytes, appended, write_chunk,
}
use auto_script_hub.Runs.Log.Bytes.{agrees, stitch, drop_all}

min-zero : (n : ℕ) → min n 0 ≡ 0
min-zero n = omega arith

zero-min : (n : ℕ) → min 0 n ≡ 0
zero-min n = omega arith

suc-min : (a b : ℕ) → min (suc a) (suc b) ≡ suc (min a b)
suc-min a b = omega arith

same_bytes-agrees :
    (t p : List ℕ)
    → same_bytes
        (take (min (length p) (length t)) t)
        (take (length (take (min (length p) (length t)) t)) p)
      ≡ agrees t p
unfolding same_bytes agrees
same_bytes-agrees [] p = rw (min-zero (length p))
same_bytes-agrees (x ∷ t) [] = rw (zero-min (suc (length t)))
same_bytes-agrees (x ∷ t) (y ∷ p) =
    rw (suc-min (length p) (length t)) (ap (λ b. x == y && b) (same_bytes-agrees t p))

append-stitch :
    (t p : List ℕ) → t ++ drop (length (take (min (length p) (length t)) t)) p ≡ stitch t p
unfolding stitch
append-stitch [] p = rw (min-zero (length p))
append-stitch (x ∷ t) [] = rw (zero-min (suc (length t))) (append-nil (x ∷ t))
append-stitch (x ∷ t) (y ∷ p) =
    rw (suc-min (length p) (length t)) (ap (λ (s : List ℕ). x ∷ s) (append-stitch t p))

-- The file with a chunk laid at its offset.
abbrev pub laid : ℕ → List ℕ → List ℕ → List ℕ
laid offset payload file = take offset file ++ stitch (drop offset file) payload

append-laid :
    (offset : ℕ) (payload file : List ℕ)
    → file
        ++ drop
            (length (take (min (length payload) (length (drop offset file))) (drop offset file)))
            payload
      ≡ laid offset payload file
append-laid zero payload file = append-stitch file payload
append-laid (suc n) payload [] = append-stitch [] payload
append-laid (suc n) payload (x ∷ file) = ap (λ (s : List ℕ). x ∷ s) (append-laid n payload file)

laid_end : (payload file : List ℕ) → laid (length file) payload file ≡ file ++ payload
unfolding stitch
laid_end payload [] = refl
laid_end payload (x ∷ file) = ap (λ (s : List ℕ). x ∷ s) (laid_end payload file)

abbrev pub outcome : Bool → ℕ → List ℕ → List ℕ → ChunkReply × List ℕ
outcome true offset payload file =
    (acknowledged (length (laid offset payload file)), laid offset payload file)
outcome false offset payload file = (conflict (length file), file)

module _ (offset : ℕ) (payload file : List ℕ) where
  overlapping :
      ltb offset (length file) ≡ true
      → write_chunk offset payload file
        ≡ outcome (agrees (drop offset file) payload) offset payload file
  unfolding write_chunk
  overlapping h =
      rw
        (
          not_beyond,
          h,
          ← length-drop offset file,
          same_bytes-agrees (drop offset file) payload,
          append-laid offset payload file,
        )
        (settled (agrees (drop offset file) payload))
    where
      not_beyond : ltb (length file) offset ≡ false
      not_beyond = ground arith

      settled :
          (b : Bool)
          → (if not b
              then (conflict (length file), file)
              else (acknowledged (length (laid offset payload file)), laid offset payload file))
            ≡ outcome b offset payload file
      settled true = refl
      settled false = refl

  at_the_end :
      offset ≡ length file
      → write_chunk offset payload file
        ≡ outcome (agrees (drop offset file) payload) offset payload file
  unfolding write_chunk agrees
  at_the_end e = rw (e, drop_all file, laid_end payload file, not_below (length file)) refl
    where
      not_below : (n : ℕ) → ltb n n ≡ false
      not_below n = ground arith

-- A chunk that begins within the file, or at its end, is laid over it where it agrees with what is
-- there, and refused where it does not.
pub write_chunk-within :
    (offset : ℕ) (payload file : List ℕ)
    → offset ≤ length file
    → write_chunk offset payload file
      ≡ outcome (agrees (drop offset file) payload) offset payload file
write_chunk-within offset payload file h = elim (Bool-cases (ltb offset (length file))) [
  | inl e ↦ overlapping offset payload file e
  | inr e ↦ at_the_end offset payload file (ground arith)
]

-- A chunk that begins beyond the end is refused.
pub write_chunk-beyond :
    (offset : ℕ) (payload file : List ℕ)
    → length file < offset
    → write_chunk offset payload file ≡ (gap (length file), file)
unfolding write_chunk
write_chunk-beyond offset payload file h = ground arith

-- A chunk that begins at the end of the file is appended.
pub write_chunk-end :
    (payload file : List ℕ)
    → write_chunk (length file) payload file
      ≡ (acknowledged (length (file ++ payload)), file ++ payload)
unfolding write_chunk appended
write_chunk-end payload file = rw (not_below (length file)) refl
  where
    not_below : (n : ℕ) → ltb n n ≡ false
    not_below n = ground arith
