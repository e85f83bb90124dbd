-- ===== src/Prelude/Pages.antt =====
-- What holds of every row holds of every row of a page of them: ordered, cut and mapped.
use Prim.Native.Nat.{ℕ, zero, suc}
use mathlib.Core.Path.{◌≡◌}
use mathlib.Core.Logic.{◌≢◌, inl, inr}
use mathlib.Core.Option.{none, some}
use mathlib.Core.Bool.{Bool, true, false}
use mathlib.Core.List.{List, [], ◌∷◌, map}
use auto_script_hub.Prelude.Tests.{Bool-cases}
use auto_script_hub.Prelude.Lists.{take, drop, All}
use auto_script_hub.Prelude.Rows.{first, select, insert_by, order_by}

module _ {ℓ κ} {A : Type ℓ} (P : A → Type κ) where
  pub All-take : (n : ℕ) (xs : List A) → All P xs → All P (take n xs)
  All-take zero xs h = tt
  All-take (suc n) [] h = tt
  All-take (suc n) (x ∷ xs) h = (h.0, All-take n xs h.1)

  pub All-drop : (n : ℕ) (xs : List A) → All P xs → All P (drop n xs)
  All-drop zero xs h = h
  All-drop (suc n) [] h = tt
  All-drop (suc n) (x ∷ xs) h = All-drop n xs h.1

  All-insert_by :
      (before : A → A → Bool) (x : A) (xs : List A) → P x → All P xs → All P (insert_by before x xs)
  unfolding insert_by
  All-insert_by before x [] p h = (p, tt)
  All-insert_by before x (y ∷ ys) p h = elim (Bool-cases (before y x)) [
    | inl e ↦ rw e (h.0, All-insert_by before x ys p h.1)
    | inr e ↦ rw e (p, (h.0, h.1))
  ]

  pub All-order_by : (before : A → A → Bool) (xs : List A) → All P xs → All P (order_by before xs)
  unfolding order_by
  All-order_by before [] h = tt
  All-order_by before (x ∷ xs) h =
      All-insert_by before x (order_by before xs) h.0 (All-order_by before xs h.1)

  pub All-mapped :
      {B : Type ℓ} (Q : B → Type κ) (f : B → A) (ys : List B)
      → ((y : B) → Q y → P (f y))
      → All Q ys
      → All P (map f ys)
  All-mapped Q f [] k h = tt
  All-mapped Q f (y ∷ ys) k h = (k y h.0, All-mapped Q f ys k h.1)

module _ {ℓ} {A : Type ℓ} where
  insert-first :
      (before : A → A → Bool) (x : A) (ys : List A)
      → first (λ z. true) (insert_by before x ys) ≢ none
  unfolding insert_by first
  insert-first before x [] h = cc
  insert-first before x (y ∷ ys) h = elim (Bool-cases (before y x)) [
    | inl e ↦ let q : some y ≡ none = rw e at h in cc
    | inr e ↦ let q : some x ≡ none = rw e at h in cc
  ]

  -- An ordered query that finds nothing has nothing to order.
  pub order_by-none :
      (p : A → Bool) (before : A → A → Bool) (xs : List A)
      → first (λ z. true) (order_by before (select p xs)) ≡ none
      → All (λ x. p x ≡ false) xs
  unfolding order_by select
  order_by-none p before [] h = tt
  order_by-none p before (x ∷ xs) h = elim (Bool-cases (p x)) [
    | inl e ↦
        let q : first (λ z. true) (insert_by before x (order_by before (select p xs))) ≡ none =
          rw e at h in
        absurd (insert-first before x (order_by before (select p xs)) q)
    | inr e ↦ (e, order_by-none p before xs (rw e at h))
  ]
