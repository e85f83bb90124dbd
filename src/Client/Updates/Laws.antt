-- ===== src/Client/Updates/Laws.antt =====
-- client/update/state.py: an installer is run only after it has been verified.
use auto_script_hub.Prelude.{
  String, Bool, true, false, Option, none, some, List, [], ◌∷◌, ◌≡◌, refl, Bool-cases, inl, inr,
  some-inj, subst, arith, sym,
}
use auto_script_hub.Client.Updates.{
  UpdateState, idle, verified, waiting_for_idle, installing, verifying_startup, succeeded,
  rolled_back, is_allowed, StateFile, absent, read, written, transition, set_details,
}

-- The states in which an installer is trusted.
abbrev pub is_trusted : UpdateState → Bool
is_trusted verified = true
is_trusted waiting_for_idle = true
is_trusted installing = true
is_trusted verifying_startup = true
is_trusted succeeded = true
is_trusted rolled_back = true
is_trusted _ = false

-- Whether a state is a verification, a return to rest, or neither.
abbrev pub after_state : Bool → UpdateState → Bool
after_state b verified = true
after_state b idle = false
after_state b _ = b

trusted_before :
    (b : Bool) (s t : UpdateState)
    → is_allowed s t ≡ true
    → (is_trusted s ≡ true → b ≡ true)
    → is_trusted t ≡ true
    → after_state b t ≡ true
trusted_before b s t h k trusted = ground arith

module _ (Detail : Type 0) where
  -- What a client does with the file.
  pub data Step : Type 0 where
    moves : UpdateState → List (String × Detail) → Step
    annotates : List (String × Detail) → Step

  -- A transition that raises ends the sequence.
  abbrev pub onward :
      Option (StateFile Detail)
      → (StateFile Detail → Option (StateFile Detail))
      → Option (StateFile Detail)
  onward none k = none
  onward (some f) k = k f

  unfoldable pub perform : List Step → StateFile Detail → Option (StateFile Detail)
  perform [] f = some f
  perform (moves s d ∷ steps) f = onward (transition Detail s d f) (perform steps)
  perform (annotates d ∷ steps) f = perform steps (set_details Detail d f)

  -- Whether the last of the steps that verified or came to rest was a verification.
  unfoldable pub is_verified_since : Bool → List Step → Bool
  is_verified_since b [] = b
  is_verified_since b (moves s d ∷ steps) = is_verified_since (after_state b s) steps
  is_verified_since b (annotates d ∷ steps) = is_verified_since b steps

  -- Where a transition goes through, the table allows it from the state that is read, and then that state is
  -- read back, with the details that were given.
  transition-read :
      (s : UpdateState) (d : List (String × Detail)) (f f' : StateFile Detail)
      → transition Detail s d f ≡ some f'
      → (is_allowed (read Detail f).state s ≡ true)
        × (read Detail f' ≡ record { state = s; details = d })
  unfolding transition read
  transition-read s d f f' h = elim (Bool-cases (is_allowed (read Detail f).state s)) [
    | inl e ↦
        let went : ◌≡◌ {A = Option (StateFile Detail)} (some (written Detail s d)) (some f') =
          rw e at h in
        (e, subst (λ x. read Detail x ≡ record { state = s; details = d }) (some-inj went) refl)
    | inr e ↦ let no : ◌≡◌ {A = Option (StateFile Detail)} none (some f') = rw e at h in cc
  ]

  set_details-read :
      (d : List (String × Detail)) (f : StateFile Detail)
      → (read Detail (set_details Detail d f)).state ≡ (read Detail f).state
  unfolding set_details read
  set_details-read d f = refl

  perform-trusted :
      (b : Bool) (steps : List Step) (f f' : StateFile Detail)
      → (is_trusted (read Detail f).state ≡ true → b ≡ true)
      → perform steps f ≡ some f'
      → is_trusted (read Detail f').state ≡ true
      → is_verified_since b steps ≡ true
  unfolding perform is_verified_since
  perform-trusted b [] f f' k h trusted =
      k (subst (λ x. is_trusted (read Detail x).state ≡ true) (sym (some-inj h)) trusted)
  perform-trusted b (annotates d ∷ steps) f f' k h trusted =
      perform-trusted b steps (set_details Detail d f) f' (rw (set_details-read d f) k) h trusted
  perform-trusted b (moves s d ∷ steps) f f' k h trusted =
      go (λ f1 k1 g. perform-trusted (after_state b s) steps f1 f' k1 g trusted)
        (transition Detail s d f) refl h
    where
      go :
          ((f1 : StateFile Detail)
            → (is_trusted (read Detail f1).state ≡ true → after_state b s ≡ true)
            → perform steps f1 ≡ some f'
            → is_verified_since (after_state b s) steps ≡ true)
          → (o : Option (StateFile Detail)) → transition Detail s d f ≡ o
          → onward o (perform steps) ≡ some f'
          → is_verified_since (after_state b s) steps ≡ true
      go rest none e g = absurd (cc)
      go rest (some f1) e g =
          let (allowed, back) = transition-read s d f f1 e in
          rest f1 (rw back (trusted_before b (read Detail f).state s allowed k)) g

  -- Whatever a client does from the first start on, it is in a state that installs, or has installed, only
  -- where it has verified the installer since it was last at rest.
  pub installs_verified :
      (steps : List Step) (f : StateFile Detail)
      → perform steps absent ≡ some f
      → is_trusted (read Detail f).state ≡ true
      → is_verified_since false steps ≡ true
  unfolding read
  installs_verified steps f h trusted = perform-trusted false steps absent f (λ e. e) h trusted
