-- ===== src/Prelude/Keys.antt =====
-- Tables whose rows have keys of their own from a counter, under updates and insertions.
use Prim.Native.Nat.{ℕ, suc, ◌+◌, ◌≤◌, ◌<◌}
use mathlib.Core.Path.{sym, ◌≡◌, refl, subst}
use mathlib.Core.Logic.{◌≢◌, inl, inr}
use mathlib.Core.Bool.{Bool, true, false, ◌&&◌}
use mathlib.Core.Option.{Option, none, some}
use mathlib.Core.List.{List, [], ◌∷◌, ◌++◌}
use native.Mathlib.Omega.{arith}
use auto_script_hub.Prelude.Tests.{◌==◌, if◌then◌else◌, ==_iff, Bool-cases, some-inj}
use auto_script_hub.Prelude.Lists.{All, All-append, All-map}
use auto_script_hub.Prelude.Rows.{
  touch, update_where, count_where, first, IsKeyed, All-update_where, count_where-key, hits, kept,
}

module _ {ℓ} {A : Type ℓ} (key : A → ℕ) where
  -- A table and its counter: no key twice, and the counter beyond all of them.
  pub record IsFresh (next : ℕ) (xs : List A) : Type ℓ where
    pub keyed : IsKeyed key xs
    pub below : All (λ x. key x < next) xs

  touch-key : (p : A → Bool) (f : A → A) (x : A) → key (f x) ≡ key x → key (touch p f x) ≡ key x
  touch-key p f x h = elim (Bool-cases (p x)) [ inl e ↦ rw (e, h) | inr e ↦ rw e ]

  others-update_where :
      (n : ℕ) (p : A → Bool) (f : A → A) (xs : List A)
      → ((x : A) → key (f x) ≡ key x)
      → All (λ x. key x ≢ n) xs
      → All (λ x. key x ≢ n) (update_where p f xs)
  others-update_where n p f xs same =
      All-update_where (λ x. key x ≢ n) (λ x. key x ≢ n) p f xs
        (λ x h. rw (touch-key p f x (same x)) h)

  pub IsKeyed-update_where :
      (p : A → Bool) (f : A → A) (xs : List A)
      → ((x : A) → key (f x) ≡ key x)
      → IsKeyed key xs
      → IsKeyed key (update_where p f xs)
  unfolding update_where
  IsKeyed-update_where p f [] same h = tt
  IsKeyed-update_where p f (x ∷ xs) same h = (
    rw (touch-key p f x (same x)) (others-update_where (key x) p f xs same h.0),
    IsKeyed-update_where p f xs same h.1,
  )

  -- An UPDATE that leaves the keys alone keeps them.
  pub IsFresh-update_where :
      (p : A → Bool) (f : A → A) (next : ℕ) (xs : List A)
      → ((x : A) → key (f x) ≡ key x)
      → IsFresh next xs
      → IsFresh next (update_where p f xs)
  IsFresh-update_where p f next xs same s = record {
    keyed = IsKeyed-update_where p f xs same s.keyed;
    below =
        All-update_where (λ x. key x < next) (λ x. key x < next) p f xs
          (λ x h. rw (touch-key p f x (same x)) h) s.below;
  }

  IsKeyed-insert :
      (xs : List A) (x : A)
      → IsKeyed key xs
      → All (λ y. key x ≢ key y) xs
      → IsKeyed key (xs ++ x ∷ [])
  IsKeyed-insert [] x k h = (tt, tt)
  IsKeyed-insert (y ∷ xs) x k h =
      (All-append (λ z. key z ≢ key y) xs (x ∷ []) k.0 (h.0, tt), IsKeyed-insert xs x k.1 h.1)

  -- A new row has the key of the counter, which no row has.
  pub IsFresh-insert :
      (next : ℕ) (xs : List A) (x : A)
      → key x ≡ next
      → IsFresh next xs
      → IsFresh (suc next) (xs ++ x ∷ [])
  IsFresh-insert next xs x m s = record {
    keyed =
        IsKeyed-insert xs x s.keyed
          (All-map (λ y. key y < next) (λ y. key x ≢ key y) xs (λ y h e. omega arith) s.below);
    below =
        All-append (λ y. key y < suc next) xs (x ∷ [])
          (All-map (λ y. key y < next) (λ y. key y < suc next) xs (λ y h. omega arith) s.below)
          (rw m (omega arith), tt);
  }

  update-others :
      (i : ℕ) (f : A → A) (xs : List A)
      → All (λ x. key x ≢ i) xs
      → update_where (λ x. key x == i) f xs ≡ xs
  unfolding update_where
  update-others i f [] h = refl
  update-others i f (x ∷ xs) h =
      let away : (key x == i) ≡ false = ground (arith, h.0) in rw (away, update-others i f xs h.1)

  -- What an update of the row of one key makes of a count.
  pub count-update_key :
      (i : ℕ) (p : A → Bool) (f : A → A) (xs : List A) {x : A}
      → IsKeyed key xs
      → first (λ y. key y == i) xs ≡ some x
      → count_where p (update_where (λ y. key y == i) f xs) + (if p x then 1 else 0)
        ≡ count_where p xs + (if p (f x) then 1 else 0)
  unfolding update_where count_where first
  count-update_key i p f [] k h = cc
  count-update_key i p f (y ∷ ys) {x} k h = elim (Bool-cases (key y == i)) [
    | inl e ↦
        let away : All (λ z. key z ≢ i) ys =
          subst (λ n. All (λ z. key z ≢ n) ys) ((==_iff (key y) i).0 e) k.0 in
        let here : some y ≡ some x = rw e at h in
        let same : y ≡ x = some-inj here in rw (e, update-others i f ys away) (ground arith)
    | inr e ↦ let r = count-update_key i p f ys k.1 (rw e at h) in rw e (ground arith)
  ]

  -- With a key of its own, one row at most has that key and a test.
  pub count-key-le :
      (i : ℕ) (p : A → Bool) (xs : List A)
      → IsKeyed key xs
      → count_where (λ x. key x == i && p x) xs ≤ 1
  count-key-le i p xs k = rw (count_where-key key i p xs k) (bounded (first (λ x. key x == i) xs))
    where
      bounded : (o : Option A) → hits key p o ≤ 1
      bounded none = omega arith
      bounded (some x) = ground arith

  none_beyond :
      (i : ℕ) (p : A → Bool) (xs : List A)
      → All (λ y. key y ≢ i) xs
      → first (λ x. key x == i && p x) xs ≡ none
  unfolding first
  none_beyond i p [] h = refl
  none_beyond i p (x ∷ xs) h = ground (arith, h.0, none_beyond i p xs h.1)

  -- A query on a key and a test finds the row of the key, where that passes the test.
  pub first-key_and :
      (i : ℕ) (p : A → Bool) (xs : List A)
      → IsKeyed key xs
      → first (λ x. key x == i && p x) xs ≡ kept key p (first (λ x. key x == i) xs)
  unfolding first
  first-key_and i p [] k = refl
  first-key_and i p (x ∷ xs) k = elim (Bool-cases (key x == i)) [
    | inl e ↦ rw e (
        here (p x)
          (none_beyond i p xs (subst (λ n. All (λ y. key y ≢ n) xs) ((==_iff (key x) i).0 e) k.0)))
    | inr e ↦ rw e (first-key_and i p xs k.1)
  ]
    where
      here :
          (b : Bool)
          → first (λ x. key x == i && p x) xs ≡ none
          → (if b then some x else first (λ x. key x == i && p x) xs) ≡ (if b then some x else none)
      here true h = refl
      here false h = h

  -- What holds of every row holds after an update of the row of one key that makes it so.
  pub All-update_key {κ} :
      (P : A → Type κ) (i : ℕ) (f : A → A) (xs : List A) {x : A}
      → IsKeyed key xs
      → first (λ y. key y == i) xs ≡ some x
      → P (f x)
      → All P xs
      → All P (update_where (λ y. key y == i) f xs)
  unfolding update_where first
  All-update_key P i f [] k h p a = cc
  All-update_key P i f (y ∷ ys) {x} k h p a = elim (Bool-cases (key y == i)) [
    | inl e ↦
        let away : All (λ z. key z ≢ i) ys =
          subst (λ n. All (λ z. key z ≢ n) ys) ((==_iff (key y) i).0 e) k.0 in
        let here : some y ≡ some x = rw e at h in
        rw (e, update-others i f ys away) (subst (λ z. P (f z)) (sym (some-inj here)) p, a.1)
    | inr e ↦ rw e (a.0, All-update_key P i f ys k.1 (rw e at h) p a.1)
  ]
