-- ===== src/Store/Transitions.antt =====
-- The status of a run (`Run.status` of backend/app/models.py), its tests and its diagram.
use auto_script_hub.Prelude.{Bool, true, false, ◌≡◌, refl}

pub data Status : Type 0 where
  pending running success failed cancelled expired : Status

abbrev pub is_pending : Status → Bool
is_pending pending = true
is_pending _ = false

abbrev pub is_running : Status → Bool
is_running running = true
is_running _ = false

-- Run.status.in_(["pending", "running"])
abbrev pub is_live : Status → Bool
is_live pending = true
is_live running = true
is_live _ = false

-- One transition of a run.
infix 40 ◌⟶◌ ◌⟶*◌
pub data ◌⟶◌ : Status → Status → Type 0 where
  claim : pending ⟶ running
  expire : pending ⟶ expired
  withdraw : pending ⟶ cancelled
  stop : running ⟶ cancelled
  succeed : running ⟶ success
  fail : running ⟶ failed

pub data ◌⟶*◌ (s : Status) : Status → Type 0 where
  stay : s ⟶* s
  go : {t u : Status} → s ⟶* t → t ⟶ u → s ⟶* u

pub ⟶*-trans : {s t u : Status} → s ⟶* t → t ⟶* u → s ⟶* u
⟶*-trans p stay = p
⟶*-trans p (go q e) = go (⟶*-trans p q) e

pub ⟶-live : {s t : Status} → s ⟶ t → is_live s ≡ true
⟶-live claim = refl
⟶-live expire = refl
⟶-live withdraw = refl
⟶-live stop = refl
⟶-live succeed = refl
⟶-live fail = refl

-- What has ended stays as it ended.
pub ⟶*-ended : {s t : Status} → s ⟶* t → is_live s ≡ false → t ≡ s
⟶*-ended stay h = refl
⟶*-ended (go p e) h = let same = ⟶*-ended p h in let live = ⟶-live e in cc

pub pending-running : (s : Status) → is_pending s ≡ true → s ⟶* running
pending-running pending h = go stay claim
pending-running running h = cc
pending-running success h = cc
pending-running failed h = cc
pending-running cancelled h = cc
pending-running expired h = cc

pub pending-expired : (s : Status) → is_pending s ≡ true → s ⟶* expired
pending-expired pending h = go stay expire
pending-expired running h = cc
pending-expired success h = cc
pending-expired failed h = cc
pending-expired cancelled h = cc
pending-expired expired h = cc

pub live-cancelled : (s : Status) → is_live s ≡ true → s ⟶* cancelled
live-cancelled pending h = go stay withdraw
live-cancelled running h = go stay stop
live-cancelled success h = cc
live-cancelled failed h = cc
live-cancelled cancelled h = cc
live-cancelled expired h = cc

pub running-success : (s : Status) → is_running s ≡ true → s ⟶* success
running-success running h = go stay succeed
running-success pending h = cc
running-success success h = cc
running-success failed h = cc
running-success cancelled h = cc
running-success expired h = cc

pub running-failed : (s : Status) → is_running s ≡ true → s ⟶* failed
running-failed running h = go stay fail
running-failed pending h = cc
running-failed success h = cc
running-failed failed h = cc
running-failed cancelled h = cc
running-failed expired h = cc
