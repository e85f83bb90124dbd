-- ===== src/Prelude/Replies.antt =====
-- What a request handler gives back: a value, or an HTTPException with its status and detail.
use Prim.Native.Nat.{ℕ}
use Prim.Native.String.{String}
use mathlib.Core.Path.{◌≡◌, refl}
use mathlib.Core.Bool.{Bool, true, false}
use mathlib.Core.Option.{Option, none, some}

pub data Reply {ℓ} (A : Type ℓ) : Type ℓ where
  ok : A → Reply A
  http : ℕ → String → Reply A

-- What follows a call is not run where the call raises.
module _ {ℓ κ} {X : Type ℓ} {Y : Type κ} where
  infixl 5 ◌>>=◌
  abbrev pub ◌>>=◌ : Reply X → (X → Reply Y) → Reply Y
  http status detail >>= next = http status detail
  ok x >>= next = next x

  -- A chain that returns has gone through each of its calls.
  pub >>=-eq-ok :
      (call : Reply X) (next : X → Reply Y) {y : Y}
      → (call >>= next) ≡ ok y
      → (x : X) × (call ≡ ok x) × (next x ≡ ok y)
  >>=-eq-ok (http status detail) next h = cc
  >>=-eq-ok (ok x) next h = (x, refl, h)

infixl 5 ◌>>◌
abbrev pub ◌>>◌ {ℓ} : {Y : Type ℓ} → Reply (Unit {0}) → Reply Y → Reply Y
check >> then_do = check >>= λ u. then_do

-- `if not b: raise HTTPException(c, d)`.
abbrev pub require : Bool → ℕ → String → Reply (Unit {0})
require true c d = ok tt
require false c d = http c d

-- `if value is None: raise HTTPException(c, d)`.
abbrev pub expect {ℓ} : {A : Type ℓ} → Option A → ℕ → String → Reply A
expect none c d = http c d
expect (some a) c d = ok a

abbrev pub is_ok {ℓ} : {A : Type ℓ} → Reply A → Bool
is_ok (ok a) = true
is_ok (http c d) = false

pub expect-eq-ok {ℓ} :
    {A : Type ℓ} (o : Option A) (c : ℕ) (d : String) {a : A} → expect o c d ≡ ok a → o ≡ some a
expect-eq-ok none c d h = cc
expect-eq-ok (some a) c d h = cc

-- A check that was passed.
pub require-eq-ok {ℓ} :
    {A : Type ℓ} (b : Bool) (c : ℕ) (d : String) (k : Reply A) {a : A}
    → (require b c d >> k) ≡ ok a
    → (b ≡ true) × (k ≡ ok a)
require-eq-ok true c d k h = (refl, h)
require-eq-ok false c d k h = cc

pub ok-inj {ℓ} : {A : Type ℓ} {a b : A} → ok a ≡ ok b → a ≡ b
ok-inj h = cc
