-- ===== src/Prelude/Rows.antt =====
-- Tables: a list of rows in the order of their insertion, and the queries that the program makes.
use Prim.Native.Nat.{ℕ, suc, ◌+◌, ◌≤◌}
use mathlib.Core.Path.{◌≡◌, refl, subst, sym, ◌∙◌}
use mathlib.Core.Logic.{◌≢◌, ◌⊎◌, inl, inr}
use mathlib.Core.Bool.{Bool, true, false, ◌&&◌}
use mathlib.Core.Option
use mathlib.Core.Option.{Option, none, some}
use mathlib.Core.List.{List, [], ◌∷◌, ◌++◌, Memᴰ}
use native.Mathlib.Omega.{arith}
use auto_script_hub.Prelude.Tests.{◌==◌, if◌then◌else◌, ==_iff, ==_refl, Bool-cases, Option-cases}
use auto_script_hub.Prelude.Lists.{All, All-map, All-mem}

module _ {ℓ} {A : Type ℓ} where
  -- query.filter(p).all()
  unfoldable pub select : (A → Bool) → List A → List A
  select p [] = []
  select p (x ∷ xs) = let rest = select p xs in if p x then x ∷ rest else rest

  -- query.filter(p).first()
  unfoldable pub first : (A → Bool) → List A → Option A
  first p [] = none
  first p (x ∷ xs) = if p x then some x else first p xs

  abbrev pub touch : (A → Bool) → (A → A) → A → A
  touch p f x = if p x then f x else x

  -- query.filter(p).update(f): the table afterwards, and how many rows it wrote.
  unfoldable pub update_where : (A → Bool) → (A → A) → List A → List A
  update_where p f [] = []
  update_where p f (x ∷ xs) = touch p f x ∷ update_where p f xs

  unfoldable pub count_where : (A → Bool) → List A → ℕ
  count_where p [] = 0
  count_where p (x ∷ xs) = let n = count_where p xs in if p x then suc n else n

  -- A stable insertion by `before`, and query.order_by(...).
  unfoldable pub insert_by : (A → A → Bool) → A → List A → List A
  insert_by before x [] = x ∷ []
  insert_by before x (y ∷ ys) =
      let rest = insert_by before x ys in if before y x then y ∷ rest else x ∷ y ∷ ys

  unfoldable pub order_by : (A → A → Bool) → List A → List A
  unfolding insert_by
  order_by before [] = []
  order_by before (x ∷ xs) = insert_by before x (order_by before xs)

module _ {ℓ} {A : Type ℓ} where
  pub first-some :
      (p : A → Bool) (xs : List A) {a : A} → first p xs ≡ some a → (p a ≡ true) × Memᴰ a xs
  unfolding first
  first-some p [] h = cc
  first-some p (x ∷ xs) {a} h = elim (Bool-cases (p x)) [
    | inl e ↦ here e (rw e at h)
    | inr e ↦ let r = first-some p xs (rw e at h) in (r.0, Memᴰ.tail r.1)
  ]
    where
      here : p x ≡ true → some x ≡ some a → (p a ≡ true) × Memᴰ a (x ∷ xs)
      here e q = (cc, Memᴰ.head (cc))

  pub first-none : (p : A → Bool) (xs : List A) → first p xs ≡ none → All (λ x. p x ≡ false) xs
  unfolding first
  first-none p [] h = tt
  first-none p (x ∷ xs) h = elim (Bool-cases (p x)) [
    | inl e ↦ let q : some x ≡ none = rw e at h in cc
    | inr e ↦ (e, first-none p xs (rw e at h))
  ]

  -- A row that is found is found before any that come behind.
  pub first-append :
      (p : A → Bool) (xs ys : List A) {a : A} → first p xs ≡ some a → first p (xs ++ ys) ≡ some a
  unfolding first
  first-append p [] ys h = cc
  first-append p (x ∷ xs) ys h = elim (Bool-cases (p x)) [
    | inl e ↦ rw e (rw e at h)
    | inr e ↦ rw e (first-append p xs ys (rw e at h))
  ]

  -- An update that leaves the key of a query alone acts on the row that the query finds.
  pub first-update_where :
      (q p : A → Bool) (f : A → A) (xs : List A)
      → ((x : A) → q (f x) ≡ q x)
      → first q (update_where p f xs) ≡ Option.map (touch p f) (first q xs)
  unfolding first update_where
  first-update_where q p f [] h = refl
  first-update_where q p f (x ∷ xs) h = ground (arith, h x, first-update_where q p f xs h)

module _ {ℓ κ μ} {A : Type ℓ} (P : A → Type κ) (Q : A → Type μ) where
  pub All-update_where :
      (p : A → Bool) (f : A → A) (xs : List A)
      → ((x : A) → P x → Q (touch p f x))
      → All P xs
      → All Q (update_where p f xs)
  unfolding update_where
  All-update_where p f [] h a = tt
  All-update_where p f (x ∷ xs) h a = (h x a.0, All-update_where p f xs h a.1)

  -- What a query selects has its test, and keeps what holds of every row.
  pub All-select :
      (p : A → Bool) (xs : List A)
      → ((x : A) → P x → p x ≡ true → Q x)
      → All P xs
      → All Q (select p xs)
  unfolding select
  All-select p [] h a = tt
  All-select p (x ∷ xs) h a = elim (Bool-cases (p x)) [
    | inl e ↦ rw e (h x a.0 e, All-select p xs h a.1)
    | inr e ↦ rw e (All-select p xs h a.1)
  ]

-- Rows told apart by a key.
module _ {ℓ} {A : Type ℓ} (key : A → ℕ) where
  abbrev pub IsKeyed : List A → Type ℓ
  IsKeyed [] = Unit
  IsKeyed (x ∷ xs) = All (λ y. key y ≢ key x) xs × IsKeyed xs

  -- How many rows a query on one key counts: the row with that key, if it has the test.
  abbrev pub hits : (A → Bool) → Option A → ℕ
  hits p none = 0
  hits p (some x) = if p x then 1 else 0

  count_none :
      (i : ℕ) (p : A → Bool) (xs : List A)
      → All (λ y. key y ≢ i) xs
      → count_where (λ x. key x == i && p x) xs ≡ 0
  unfolding count_where
  count_none i p [] h = refl
  count_none i p (x ∷ xs) h = ground (arith, h.0, count_none i p xs h.1)

  pub count_where-key :
      (i : ℕ) (p : A → Bool) (xs : List A)
      → IsKeyed xs
      → count_where (λ x. key x == i && p x) xs ≡ hits p (first (λ x. key x == i) xs)
  unfolding count_where first
  count_where-key i p [] k = refl
  count_where-key i p (x ∷ xs) k = elim (Bool-cases (key x == i)) [
    | inl e ↦ rw e (only (subst (λ n. All (λ y. key y ≢ n) xs) ((==_iff (key x) i).0 e) k.0))
    | inr e ↦ rw e (count_where-key i p xs k.1)
  ]
    where
      only :
          All (λ y. key y ≢ i) xs
          → (if p x
              then suc (count_where (λ x. key x == i && p x) xs)
              else count_where (λ x. key x == i && p x) xs)
            ≡ (if p x then 1 else 0)
      only h = rw (count_none i p xs h)

  -- An UPDATE of one key that wrote one row: which row it was, and what stands there now.
  pub update_one :
      (i : ℕ) (p : A → Bool) (f : A → A) (xs : List A)
      → IsKeyed xs
      → ((x : A) → key (f x) ≡ key x)
      → count_where (λ x. key x == i && p x) xs ≡ 1
      → (x : A) × (first (λ y. key y == i) xs ≡ some x)
        × (p x ≡ true)
        × (first (λ y. key y == i) (update_where (λ y. key y == i && p y) f xs) ≡ some (f x))
  update_one i p f xs k same h = go (Option-cases (first (λ y. key y == i) xs))
    where
      counted : hits p (first (λ y. key y == i) xs) ≡ 1
      counted = sym (count_where-key i p xs k) ∙ h

      go :
          (first (λ y. key y == i) xs ≡ none) ⊎ ((x : A) × (first (λ y. key y == i) xs ≡ some x))
          → (x : A) × (first (λ y. key y == i) xs ≡ some x)
            × (p x ≡ true)
            × (first (λ y. key y == i) (update_where (λ y. key y == i && p y) f xs) ≡ some (f x))
      go (inl e) = let c : ◌≡◌ {A = ℕ} 0 1 = rw e at counted in absurd (omega arith)
      go (inr (x, e)) =
          let c : hits p (some x) ≡ 1 = rw e at counted in
          let t : p x ≡ true = ground arith in
          let k' = first-some (λ y. key y == i) xs e in
          (
            x,
            e,
            t,
            first-update_where (λ y. key y == i) (λ y. key y == i && p y) f xs (λ y. rw (same y))
                ∙ rw (e, k'.0, t),
          )

  -- A query by key within the rows that another query selects.
  abbrev pub kept : (A → Bool) → Option A → Option A
  kept p none = none
  kept p (some x) = if p x then some x else none

  select_others :
      (i : ℕ) (p : A → Bool) (xs : List A)
      → All (λ y. key y ≢ i) xs
      → All (λ y. key y ≢ i) (select p xs)
  select_others i p xs h = All-select (λ y. key y ≢ i) (λ y. key y ≢ i) p xs (λ x k e. k) h

  pub IsKeyed-select : (p : A → Bool) (xs : List A) → IsKeyed xs → IsKeyed (select p xs)
  unfolding select
  IsKeyed-select p [] k = tt
  IsKeyed-select p (x ∷ xs) k = elim (Bool-cases (p x)) [
    | inl e ↦ rw e (select_others (key x) p xs k.0, IsKeyed-select p xs k.1)
    | inr e ↦ rw e (IsKeyed-select p xs k.1)
  ]

  -- Where no row has a key, a query by it finds none.
  pub first_others :
      (i : ℕ) (xs : List A) → All (λ y. key y ≢ i) xs → first (λ x. key x == i) xs ≡ none
  unfolding first
  first_others i [] h = refl
  first_others i (x ∷ xs) h = ground (arith, h.0, first_others i xs h.1)

  -- Where a query by a key finds none, no row has it.
  pub others_first :
      (i : ℕ) (xs : List A) → first (λ x. key x == i) xs ≡ none → All (λ y. key y ≢ i) xs
  others_first i xs h =
      All-map (λ y. (key y == i) ≡ false) (λ y. key y ≢ i) xs (λ y e. ground arith)
        (first-none (λ x. key x == i) xs h)

  pub first-select :
      (i : ℕ) (p : A → Bool) (xs : List A)
      → IsKeyed xs
      → first (λ x. key x == i) (select p xs) ≡ kept p (first (λ x. key x == i) xs)
  unfolding first select
  first-select i p [] k = refl
  first-select i p (x ∷ xs) k = elim (Bool-cases (key x == i)) [
    | inl e ↦
        let away : All (λ y. key y ≢ i) xs =
          subst (λ n. All (λ y. key y ≢ n) xs) ((==_iff (key x) i).0 e) k.0 in
        let gone = first_others i (select p xs) (select_others i p xs away) in ground (arith, gone)
    | inr e ↦ ground (arith, first-select i p xs k.1)
  ]

-- Counting.
module _ {ℓ} {A : Type ℓ} (p : A → Bool) where
  pub count-insert :
      (xs : List A) (x : A)
      → count_where p (xs ++ x ∷ []) ≡ count_where p xs + (if p x then 1 else 0)
  unfolding count_where
  count-insert [] x = ground arith
  count-insert (y ∷ xs) x = ground (arith, count-insert xs x)

  pub count-first-none : (xs : List A) → first p xs ≡ none → count_where p xs ≡ 0
  unfolding count_where first
  count-first-none [] h = refl
  count-first-none (x ∷ xs) h = ground (arith, count-first-none xs)

  -- An update that no row's test sees leaves the count.
  pub count-unseen :
      (q : A → Bool) (f : A → A) (xs : List A)
      → ((x : A) → p (f x) ≡ p x)
      → count_where p (update_where q f xs) ≡ count_where p xs
  unfolding count_where update_where
  count-unseen q f [] h = refl
  count-unseen q f (x ∷ xs) h = ground (arith, h x, count-unseen q f xs h)

  -- What a test is of the rows after an update, as a test of the rows before it.
  pub count-before :
      (r q : A → Bool) (f : A → A) (xs : List A)
      → ((x : A) → p (touch q f x) ≡ r x)
      → count_where p (update_where q f xs) ≡ count_where r xs
  unfolding count_where update_where
  count-before r q f [] h = refl
  count-before r q f (x ∷ xs) h = rw (h x, count-before r q f xs h)

  -- Where a query finds a row, it counts one at least.
  pub count-first-some : (xs : List A) {x : A} → first p xs ≡ some x → 1 ≤ count_where p xs
  unfolding count_where first
  count-first-some [] h = cc
  count-first-some (y ∷ ys) h = elim (Bool-cases (p y)) [
    | inl e ↦ rw e (omega arith)
    | inr e ↦ rw e (count-first-some ys (rw e at h))
  ]

  -- An update that makes no row pass the test makes none of the count.
  pub count-update_where :
      (q : A → Bool) (f : A → A) (xs : List A)
      → ((x : A) → p (touch q f x) ≡ true → p x ≡ true)
      → count_where p (update_where q f xs) ≤ count_where p xs
  unfolding count_where update_where
  count-update_where q f [] h = omega arith
  count-update_where q f (x ∷ xs) h =
      let r = count-update_where q f xs h in
      elim (Bool-cases (p (touch q f x))) [
        | inl e ↦ rw (e, h x e) (omega arith)
        | inr e ↦ rw e (grown (p x) r)
      ]
    where
      grown :
          (b : Bool)
          → count_where p (update_where q f xs) ≤ count_where p xs
          → count_where p (update_where q f xs)
            ≤ (if b then suc (count_where p xs) else count_where p xs)
      grown true r = omega arith
      grown false r = r

module _ {ℓ} {A : Type ℓ} (key : A → ℕ) where
  mem_key : (n : ℕ) (xs : List A) {a : A} → All (λ y. key y ≢ n) xs → Memᴰ a xs → key a ≢ n
  mem_key n xs h m = All-mem (λ y. key y ≢ n) m h

  -- A row of a keyed table is what a query by its own key finds.
  pub first-own :
      (xs : List A) (a : A) → IsKeyed key xs → Memᴰ a xs → first (λ x. key x == key a) xs ≡ some a
  unfolding first
  first-own [] a k m = elim m [ ]
  first-own (x ∷ xs) a k (Memᴰ.head e) = rw (e, ==_refl (key x))
  first-own (x ∷ xs) a k (Memᴰ.tail m) =
      let other = mem_key (key x) xs k.0 m in ground (arith, other, first-own xs a k.1 m)
