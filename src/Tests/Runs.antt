-- ===== src/Tests/Runs.antt =====
-- backend/app/routers/runs.py: claims, reports, cancels and logs at concrete inputs.
use auto_script_hub.Prelude.{
  ℕ, Bool, true, false, some, none, List, [], ◌∷◌, ◌≡◌, ◌≢◌, ◌≤◌, refl, ok, is_ok, Reply, take,
  drop, length, ltb, arith, subst, sym, first,
}
use auto_script_hub.Store.{
  Db, Run, pending, running, success, cancelled, is_running, run_at, IsSound,
}
use auto_script_hub.Store.Evolution.{Follows-refl}
use auto_script_hub.Runs.Claim.{ClaimRequest, claim_run, assign}
use auto_script_hub.Runs.Claim.Laws.{Claimed, claim_run-ok, claim_once}
use auto_script_hub.Runs.Finish.{FinishRequest, succeeded, update_run_status}
use auto_script_hub.Runs.Finish.Laws.{update_run_status_conflict}
use auto_script_hub.Runs.Finish.Report.{Reported, update_run_status-ok}
use auto_script_hub.Runs.Cancel.{CancelRequest, cancel_run}
use auto_script_hub.Runs.Cancel.Laws.{Cancelled, cancel_run-ok}
use auto_script_hub.Runs.Log.{write_chunk, acknowledged, conflict, gap}
use auto_script_hub.Runs.Log.Bytes.{agrees}
use auto_script_hub.Runs.Log.Laws.{outcome, write_chunk-within, write_chunk-beyond}
use auto_script_hub.Runs.Log.Stream.{
  chunk_taken, chunk_again, send_pieces, send_pieces-Begins, Begins,
}
use auto_script_hub.Tests.Data.{ada, noon, decode, office, office-IsSound, run_with, db_with}

abbrev claim : ClaimRequest
claim = record { run_id = 11; agent_id = 2; user = ada; token = none; now = noon }

abbrev claimed : Run
claimed = assign 2 noon (run_with 11 none none pending)

claim_runs : (claim_run decode claim office office).0 ≡ ok claimed
unfolding claim_run first auto_script_hub.Auth.verify_agent_token
    auto_script_hub.Runs.Claim.take_run auto_script_hub.Store.Writes.guarded_update
    auto_script_hub.Prelude.count_where auto_script_hub.Prelude.update_where
claim_runs = refl

claim_run-ok_example :
    Claimed decode claim office office (claim_run decode claim office office).1 claimed
claim_run-ok_example = claim_run-ok decode claim office office claimed office-IsSound claim_runs

abbrev claim_again : ClaimRequest
claim_again = record { run_id = 11; agent_id = 3; user = ada; token = some "t"; now = noon }

abbrev after_claim : Db
after_claim = (claim_run decode claim office office).1

after_claim-is : after_claim ≡ record office {
  runs =
      assign 2 noon (run_with 11 none none pending)
      ∷ run_with 12 (some 3) (some 3) running
      ∷ run_with 13 (some 3) (some 3) success
      ∷ [];
}
unfolding claim_run first auto_script_hub.Auth.verify_agent_token
    auto_script_hub.Runs.Claim.take_run auto_script_hub.Store.Writes.guarded_update
    auto_script_hub.Prelude.count_where auto_script_hub.Prelude.update_where
after_claim-is = refl

later-IsSound : IsSound (record office {
  runs =
      assign 2 noon (run_with 11 none none pending)
      ∷ run_with 12 (some 3) (some 3) running
      ∷ run_with 13 (some 3) (some 3) success
      ∷ [];
})
later-IsSound = record { keyed = office-IsSound.keyed; below = office-IsSound.below }

claim_once_example : (claim_run decode claim_again office after_claim).0 ≢ ok claimed
claim_once_example =
    claim_once decode claim claim_again office office office after_claim claimed claimed
      office-IsSound (subst IsSound (sym after_claim-is) later-IsSound) claim_runs
      (Follows-refl after_claim.runs) refl

abbrev report : FinishRequest
report = record {
  run_id = 12;
  outcome = succeeded;
  error_msg = none;
  result_files = none;
  agent_id = some 3;
  user = ada;
  token = some "t";
  now = noon;
}

report_lands : is_ok (update_run_status decode report office office).0 ≡ true
unfolding update_run_status first auto_script_hub.Auth.verify_agent_token
    auto_script_hub.Store.Writes.guarded_update auto_script_hub.Prelude.count_where
report_lands = refl

update_run_status-ok_example :
    Reported decode report office office (update_run_status decode report office office).1
update_run_status-ok_example =
    update_run_status-ok decode report office office office-IsSound report_lands

-- The run as it was read, and as it is when the report is written.
abbrev cancelled_since : Db
cancelled_since = db_with (run_with 12 (some 3) (some 3) cancelled ∷ []) []

cancelled_since-IsSound : IsSound cancelled_since
cancelled_since-IsSound = record { keyed = (tt, tt); below = (omega arith, tt) }

row_since : run_at 12 cancelled_since.runs ≡ some (run_with 12 (some 3) (some 3) cancelled)
unfolding first
row_since = refl

update_run_status_conflict_example :
    (is_ok (update_run_status decode report office cancelled_since).0 ≡ false)
    × ((update_run_status decode report office cancelled_since).1 ≡ cancelled_since)
update_run_status_conflict_example =
    update_run_status_conflict decode report office cancelled_since
      (run_with 12 (some 3) (some 3) cancelled) cancelled_since-IsSound row_since refl

abbrev withdraw : CancelRequest
withdraw = record { run_id = 12; user = ada; now = noon }

withdraw_lands : is_ok (cancel_run withdraw office office).0 ≡ true
unfolding cancel_run first auto_script_hub.Store.Writes.guarded_update
    auto_script_hub.Prelude.count_where
withdraw_lands = refl

cancel_run-ok_example : Cancelled withdraw office office (cancel_run withdraw office office).1
cancel_run-ok_example = cancel_run-ok withdraw office office office-IsSound withdraw_lands

-- A file of three bytes, and a chunk that overlaps its last two and brings one more.
abbrev file : List ℕ
file = 1 ∷ 2 ∷ 3 ∷ []

abbrev chunk : List ℕ
chunk = 2 ∷ 3 ∷ 4 ∷ []

abbrev longer : List ℕ
longer = 1 ∷ 2 ∷ 3 ∷ 4 ∷ []

abbrev start : List ℕ
start = 1 ∷ []

abbrev pieces : List (ℕ × ℕ)
pieces = (0, 2) ∷ (3, 1) ∷ (1, 2) ∷ (0, 2) ∷ []

chunk_lands : write_chunk 1 chunk file ≡ (acknowledged 4, longer)
unfolding write_chunk auto_script_hub.Runs.Log.same_bytes
chunk_lands = refl

chunk_taken_example :
    (take (length file) longer ≡ file)
    × (take (length chunk) (drop 1 longer) ≡ chunk)
    × (4 ≡ length longer)
chunk_taken_example = chunk_taken 1 chunk file 4 longer chunk_lands

chunk_again_example : write_chunk 1 chunk longer ≡ (acknowledged 4, longer)
chunk_again_example = chunk_again 1 chunk file 4 longer chunk_lands

write_chunk-within_example :
    write_chunk 1 (9 ∷ []) file ≡ outcome (agrees (drop 1 file) (9 ∷ [])) 1 (9 ∷ []) file
write_chunk-within_example = write_chunk-within 1 (9 ∷ []) file (omega arith)

write_chunk-beyond_example : write_chunk 7 chunk file ≡ (gap 3, file)
write_chunk-beyond_example = write_chunk-beyond 7 chunk file (omega arith)

-- Pieces out of order, beyond the end and sent twice.
send_pieces-Begins_example :
    Begins (send_pieces longer pieces start) longer
    × (length start ≤ length (send_pieces longer pieces start))
send_pieces-Begins_example = send_pieces-Begins longer pieces start refl
