-- ===== src/Runs/View/Laws.antt =====
-- backend/app/routers/runs.py: what the list shows of a run is the part of what get_run shows that the
-- two replies share.
use auto_script_hub.Prelude.{
  ℕ, String, Bool, true, false, not, ◌&&◌, Option, some, List, [], ◌∷◌, ◌==◌, ◌≡◌, refl, arith, ok,
  first, first-own, select, is_some, All, All-select, All-of_mem, All-take, All-drop, All-order_by,
  All-mapped, All-any, Bool-cases, inl, inr,
}
use auto_script_hub.Store.{Db, User, Run, IsSound, run_at}
use auto_script_hub.Runs.View.{
  is_shown_to, can_view_run, is_asked_for, ListRequest, RunBrief, RunDetail, enrich_detail,
  is_managed_dispatch, enrich_brief, newest_first, list_runs, get_run,
}

-- A query with one more condition finds the row of that key, where the row meets it.
first_of_key :
    (i : ℕ) (p : Run → Bool) (rs : List Run) {r : Run}
    → run_at i rs ≡ some r
    → p r ≡ true
    → first (λ (x : Run). x.id == i && p x) rs ≡ some r
unfolding first
first_of_key i p [] h g = cc
first_of_key i p (x ∷ rs) {r} h g = elim (Bool-cases (x.id == i)) [
  | inl e ↦
      let here : some x ≡ some r = rw e at h in let same : p x ≡ true = cc in rw (e, same) here
  | inr e ↦ rw e (first_of_key i p rs (rw e at h) g)
]

module _ (has_results : Option String → Bool) where
  -- A row that the list may show.
  record IsListed (db : Db) (user : User) (r : Run) : Type 0 where
    there : run_at r.id db.runs ≡ some r
    not_deleted : not r.is_deleted ≡ true
    shown : is_shown_to db user r ≡ true

  listed-view :
      (db : Db) (user : User) (r : Run)
      → IsListed db user r
      → get_run has_results db user r.id ≡ ok (enrich_detail has_results db r)
  unfolding get_run can_view_run
  listed-view db user r h =
      rw
        (
          first_of_key r.id (λ (x : Run). not x.is_deleted) db.runs h.there h.not_deleted,
          first_of_key r.id (λ (x : Run). is_shown_to db user x) db.runs h.there h.shown,
        )
        refl

  rows-IsListed :
      (db : Db) (user : User) (q : ListRequest)
      → IsSound db
      → All (IsListed db user) (
          select
            (λ (r : Run). not r.is_deleted && (is_shown_to db user r && is_asked_for q user r))
            db.runs)
  rows-IsListed db user q s =
      All-select (λ (r : Run). run_at r.id db.runs ≡ some r) (IsListed db user) _ db.runs
        (λ r own e. record { there = own; not_deleted = ground arith; shown = ground arith })
        (All-of_mem (λ (r : Run). run_at r.id db.runs ≡ some r) db.runs
          (λ r m. first-own (λ (x : Run). x.id) db.runs r s.keyed m))

  -- What get_run replies for the run of a brief: a detail with this brief as its part, and the message and the log
  -- path of the run's row.
  pub record IsDetailed (db : Db) (user : User) (v : RunBrief) : Type 0 where
    pub row : Run
    pub stored : run_at v.id db.runs ≡ some row
    pub detail : RunDetail
    pub replied : get_run has_results db user v.id ≡ ok detail
    pub same : detail.brief ≡ v
    pub beside : (detail.error_msg ≡ row.error_msg) × (detail.log_path ≡ row.log_path)

  detailed :
      (db : Db) (user : User) (r : Run)
      → IsListed db user r
      → IsDetailed db user (enrich_brief has_results db r)
  unfolding enrich_brief enrich_detail
  detailed db user r h = record {
    row = r;
    stored = h.there;
    detail = enrich_detail has_results db r;
    replied = listed-view db user r h;
    same = refl;
    beside = (refl, refl);
  }

  -- Every run of a list is one that get_run shows to the same user: its reply has what the list shows of the run,
  -- name for name and column for column, and beside it the error message and the log path of the run's row, which
  -- the list does not show. Runs had ids of their own.
  pub list_runs-get_run :
      (db : Db) (user : User) (q : ListRequest)
      → IsSound db
      → All (IsDetailed db user) (list_runs has_results db user q)
  unfolding list_runs
  list_runs-get_run db user q s =
      All-mapped (IsDetailed db user) (IsListed db user) (enrich_brief has_results db) _
        (λ r h. detailed db user r h)
        (All-take (IsListed db user) q.limit _ (
          All-drop (IsListed db user) q.offset _ (
            All-order_by (IsListed db user) (newest_first has_results) _
              (rows-IsListed db user q s))))

  hidden :
      (db : Db) (r : Run)
      → (is_managed_dispatch (enrich_brief has_results db r).dispatch_type
          && is_some (enrich_brief has_results db r).result_files)
        ≡ false
  unfolding enrich_brief
  hidden db r = ground arith

  -- No run of a list that was sent to a managed device carries the paths of its results.
  pub list_runs-hides :
      (db : Db) (user : User) (q : ListRequest)
      → All
          (λ (v : RunBrief).
            (is_managed_dispatch v.dispatch_type && is_some v.result_files) ≡ false)
          (list_runs has_results db user q)
  unfolding list_runs
  list_runs-hides db user q =
      All-mapped
        (λ (v : RunBrief). (is_managed_dispatch v.dispatch_type && is_some v.result_files) ≡ false)
        (λ (r : Run). Unit {0}) (enrich_brief has_results db) _ (λ r u. hidden db r)
        (All-any (λ (r : Run). Unit {0}) _ (λ r. tt))
