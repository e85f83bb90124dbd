-- ===== src/Dispatch/Race.antt =====
-- backend/app/routers/runs.py, execute_script: the cancel of a stale pending run against what is committed after it was
-- read.
use auto_script_hub.Prelude.{
  ℕ, true, some, [], ◌∷◌, ◌+◌, ◌*◌, ◌<◌, ◌≡◌, ◌∙◌, refl, arith, first, first-some, first-append,
  first-update_where, ok, ltb, inl, inr,
}
use auto_script_hub.Store.{second, Db, Run, User, Script, is_pending, cancelled, run_key, run_at}
use auto_script_hub.Store.Writes.{write_runs}
use auto_script_hub.Access.{get_accessible_script_or_404}
use auto_script_hub.Contract.Params.{Values}
use auto_script_hub.Dispatch.{
  Json, Order, new_run, create_validated_run, ExecuteRequest, own_active, cancel_stale, clear_stale,
  own_order, launched, started, execute_script,
}
use auto_script_hub.Dispatch.Laws.{create_validated_run-cases, audited-fst}

module _ (V : Values) (json : Json V) where
  -- What a creation is given of a row is there after it, whether it is refused or adds a run.
  created-keeps :
      (user : User) (o : Order V json) (now : ℕ) (db : Db) (i : ℕ) {r : Run}
      → run_at i db.runs ≡ some r
      → run_at i (create_validated_run V json user o now db).1.runs ≡ some r
  created-keeps user o now db i {r} h = elim (create_validated_run-cases V json user o now db) [
    | inl (c, d, e) ↦ rw e h
    | inr (script, e) ↦
        rw e (
          first-append (run_key i) db.runs (new_run V json script user o now db.next_run_id ∷ []) h)
  ]

  cancelled_row :
      (now : ℕ) (i : ℕ) (db : Db) (r : Run)
      → run_at i db.runs ≡ some r
      → run_at i (write_runs (run_key i) (cancel_stale V json now) db).runs
        ≡ some (cancel_stale V json now r)
  cancelled_row now i db r e =
      let k = first-some (run_key i) db.runs e in
      first-update_where (run_key i) (run_key i) (cancel_stale V json now) db.runs (λ x. refl)
      ∙ rw (e, k.0)

  -- Where execute_script has read the user's open run as pending and older than 300 seconds, that row is cancelled
  -- after the request, finished now, whatever another transaction has made of it in between and whether or not a
  -- new run is created: a run that has since been claimed, or has ended, loses its status and its end.
  pub execute_script_race :
      (q : ExecuteRequest V json) (seen db : Db) (script : Script) (active r : Run)
      → get_accessible_script_or_404 seen q.user q.script_id true ≡ ok script
      → first (own_active V json q.user.id) seen.runs ≡ some active
      → is_pending active.status ≡ true
      → active.created_at + 300 * second < q.now
      → run_at active.id db.runs ≡ some r
      → run_at active.id (execute_script V json q seen db).1.runs
        ≡ some (record r { status = cancelled; finished_at = some q.now; updated_at = q.now })
  unfolding execute_script started launched clear_stale
  execute_script_race q seen db script active r open_to read waiting old there =
      let stale : ltb (active.created_at + 300 * second) q.now ≡ true = ground arith in
      let cleared = write_runs (run_key active.id) (cancel_stale V json q.now) db in
      rw
        (
          open_to,
          read,
          waiting,
          stale,
          audited-fst V json q
              (create_validated_run V json q.user (own_order V json q) q.now cleared),
        )
        (created-keeps q.user (own_order V json q) q.now cleared active.id
          (cancelled_row q.now active.id db r there))
