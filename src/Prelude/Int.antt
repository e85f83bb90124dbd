-- ===== src/Prelude/Int.antt =====
-- Signed integers, as far as durations need them.
use Prim.Native.Nat.{ℕ, zero, suc, ◌-◌, ◌/◌}
use auto_script_hub.Prelude.Tests.{leb, if◌then◌else◌}

-- `negsuc n` is -(n + 1).
pub data ℤ : Type 0 where
  pos : ℕ → ℤ
  negsuc : ℕ → ℤ

abbrev pub neg : ℕ → ℤ
neg zero = pos zero
neg (suc n) = negsuc n

-- int((later - earlier).total_seconds()) over microseconds: `int` rounds towards zero.
unfoldable pub seconds_between : ℕ → ℕ → ℤ
seconds_between earlier later =
    if leb earlier later
    then pos ((later - earlier) / 1_000_000)
    else neg ((earlier - later) / 1_000_000)
