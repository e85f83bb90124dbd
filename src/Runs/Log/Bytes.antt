-- ===== src/Runs/Log/Bytes.antt =====
-- Laying one piece of a byte stream over another that begins at the same place.
use auto_script_hub.Prelude.{
  ℕ, zero, suc, Bool, true, ◌&&◌, List, [], ◌∷◌, ◌++◌, ◌==◌, ◌≤◌, ◌≡◌, refl, ap, arith, length,
  take, drop, ==_refl,
}

-- The two agree as far as both go.
unfoldable pub agrees : List ℕ → List ℕ → Bool
agrees [] p = true
agrees (x ∷ t) [] = true
agrees (x ∷ t) (y ∷ p) = x == y && agrees t p

-- The first, and what of the second goes beyond it.
unfoldable pub stitch : List ℕ → List ℕ → List ℕ
stitch [] p = p
stitch (x ∷ t) [] = x ∷ t
stitch (x ∷ t) (y ∷ p) = x ∷ stitch t p

pub agrees-nil : (t : List ℕ) → agrees t [] ≡ true
unfolding agrees
agrees-nil [] = refl
agrees-nil (x ∷ t) = refl

pub agrees-stitch : (t p : List ℕ) → agrees t p ≡ true → agrees (stitch t p) p ≡ true
unfolding agrees stitch
agrees-stitch [] [] h = refl
agrees-stitch [] (y ∷ p) h = rw (==_refl y) (agrees-stitch [] p refl)
agrees-stitch (x ∷ t) [] h = refl
agrees-stitch (x ∷ t) (y ∷ p) h = ground (arith, agrees-stitch t p)

pub stitch-stitch : (t p : List ℕ) → stitch (stitch t p) p ≡ stitch t p
unfolding stitch
stitch-stitch [] [] = refl
stitch-stitch [] (y ∷ p) = ap (λ (s : List ℕ). y ∷ s) (stitch-stitch [] p)
stitch-stitch (x ∷ t) [] = refl
stitch-stitch (x ∷ t) (y ∷ p) = ap (λ (s : List ℕ). x ∷ s) (stitch-stitch t p)

-- What agrees stands in front of the stitched stream.
pub stitch-take : (t p : List ℕ) → agrees t p ≡ true → take (length p) (stitch t p) ≡ p
unfolding agrees stitch
stitch-take [] [] h = refl
stitch-take [] (y ∷ p) h = ap (λ (s : List ℕ). y ∷ s) (stitch-take [] p refl)
stitch-take (x ∷ t) [] h = refl
stitch-take (x ∷ t) (y ∷ p) h = ground (arith, stitch-take t p)

pub stitch-keeps : (t p : List ℕ) → take (length t) (stitch t p) ≡ t
unfolding stitch
stitch-keeps [] p = refl
stitch-keeps (x ∷ t) [] = ap (λ (s : List ℕ). x ∷ s) (take_all t)
  where
    take_all : (s : List ℕ) → take (length s) s ≡ s
    take_all [] = refl
    take_all (z ∷ s) = ap (λ (u : List ℕ). z ∷ u) (take_all s)
stitch-keeps (x ∷ t) (y ∷ p) = ap (λ (s : List ℕ). x ∷ s) (stitch-keeps t p)

-- Taking off the front that was written leaves what was laid behind it.
pub drop-take-append : (n : ℕ) (xs ys : List ℕ) → n ≤ length xs → drop n (take n xs ++ ys) ≡ ys
drop-take-append zero xs ys h = refl
drop-take-append (suc n) [] ys h = absurd (omega arith)
drop-take-append (suc n) (x ∷ xs) ys h = drop-take-append n xs ys (omega arith)

pub take-take-append :
    (n : ℕ) (xs ys : List ℕ) → n ≤ length xs → take n (take n xs ++ ys) ≡ take n xs
take-take-append zero xs ys h = refl
take-take-append (suc n) [] ys h = absurd (omega arith)
take-take-append (suc n) (x ∷ xs) ys h =
    ap (λ (s : List ℕ). x ∷ s) (take-take-append n xs ys (omega arith))

pub drop_all : (xs : List ℕ) → drop (length xs) xs ≡ []
drop_all [] = refl
drop_all (x ∷ xs) = drop_all xs
