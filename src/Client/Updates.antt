-- ===== src/Client/Updates.antt =====
-- client/update/state.py: the update of a client, one step at a time, in a file.
-- The file is what `json.loads` makes of it; the values that a state is annotated with are a parameter.
-- No caller passes a detail named `state`. The write and its os.replace are one step.
pub mod Laws
use auto_script_hub.Prelude.{
  String, Bool, true, false, Option, none, some, List, [], ◌∷◌, str_eq, if◌then◌else◌,
}

pub data UpdateState : Type 0 where
  idle checking available downloading verified waiting_for_idle installing verifying_startup
        succeeded rolled_back :
      UpdateState

-- ALLOWED_TRANSITIONS
abbrev pub is_allowed : UpdateState → UpdateState → Bool
is_allowed idle checking = true
is_allowed checking idle = true
is_allowed checking available = true
is_allowed available downloading = true
is_allowed available idle = true
is_allowed downloading verified = true
is_allowed downloading available = true
is_allowed downloading idle = true
is_allowed verified waiting_for_idle = true
is_allowed verified installing = true
is_allowed verified idle = true
is_allowed waiting_for_idle installing = true
is_allowed waiting_for_idle idle = true
is_allowed installing verifying_startup = true
is_allowed installing rolled_back = true
is_allowed verifying_startup succeeded = true
is_allowed verifying_startup rolled_back = true
is_allowed succeeded idle = true
is_allowed rolled_back idle = true
is_allowed _ _ = false

module _ (Detail : Type 0) where
  -- A dict with its state, if that is one of those above, and its other entries.
  pub record Entry : Type 0 where
    pub state : Option UpdateState
    pub details : List (String × Detail)

  pub data StateFile : Type 0 where
    absent unreadable : StateFile
    holding : Entry → StateFile

  pub record Reading : Type 0 where
    pub state : UpdateState
    pub details : List (String × Detail)

  abbrev pub at_rest : Reading
  at_rest = record { state = idle; details = [] }

  read_entry : Option UpdateState → List (String × Detail) → Reading
  read_entry none details = at_rest
  read_entry (some s) details = record { state = s; details = details }

  unfoldable pub read : StateFile → Reading
  unfolding read_entry
  read absent = at_rest
  read unreadable = at_rest
  read (holding e) = read_entry e.state e.details

  abbrev pub written : UpdateState → List (String × Detail) → StateFile
  written s details = holding (record { state = some s; details = details })

  -- None is the RuntimeError.
  unfoldable pub transition : UpdateState → List (String × Detail) → StateFile → Option StateFile
  unfolding read
  transition s details file =
      if is_allowed (read file).state s then some (written s details) else none

  -- {**current, **details}: a key that is there keeps its place and takes the new value.
  put : String → Detail → List (String × Detail) → List (String × Detail)
  put k v [] = (k, v) ∷ []
  put k v ((j, w) ∷ m) = let rest = put k v m in if str_eq j k then (j, v) ∷ m else (j, w) ∷ rest

  merge : List (String × Detail) → List (String × Detail) → List (String × Detail)
  unfolding put
  merge m [] = m
  merge m ((k, v) ∷ more) = merge (put k v m) more

  unfoldable pub set_details : List (String × Detail) → StateFile → StateFile
  unfolding read merge
  set_details details file = written (read file).state (merge (read file).details details)
