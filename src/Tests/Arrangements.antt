-- ===== src/Tests/Arrangements.antt =====
-- The boss opens a second group and makes it the default.
use auto_script_hub.Prelude.{
  ℕ, Bool, true, false, none, some, List, [], ◌∷◌, ◌≡◌, refl, arith, Reply, ok, http,
}
use auto_script_hub.Store.{Db, active}
use auto_script_hub.Groups.Admin.{GroupCreate, create_group}
use auto_script_hub.Groups.Admin.Centre.{IsCentred, untouched, creates, Arranges-IsCentred}
use auto_script_hub.Tests.Data.{noon, boss, office}

abbrev second_group : GroupCreate
second_group = record { name = " lab "; description = none; status = active; is_default = true }

abbrev outcome : Reply Db → Db
outcome (ok db) = db
outcome (http c d) = office

abbrev after_create : Db
after_create = outcome (create_group second_group boss noon office)

create_ok : create_group second_group boss noon office ≡ ok after_create
unfolding create_group auto_script_hub.Prelude.first
create_ok = refl

office-IsCentred : IsCentred office
unfolding auto_script_hub.Prelude.count_where
office-IsCentred = record {
  fresh = record { keyed = (tt, tt); below = (omega arith, tt) };
  one = refl;
  active = (λ h. refl, tt);
}

Arranges-IsCentred_example : IsCentred after_create
Arranges-IsCentred_example =
    Arranges-IsCentred office after_create office-IsCentred
      (creates {db = office} second_group boss noon untouched create_ok)
