-- ===== src/Examples/Fencing.antt =====
-- The theorems on fencing, commits and claims at sample rows.
use mathlib.Core.Bool.{false≢true}
use agent_backend.Store.Totals.{commit_ill_formed}
use agent_backend.Examples.Codec.{in_flight-IsStorable}
use agent_backend.Store.Steps.{claim, here, next}
use agent_backend.Checkpoint.Encode.{encode_checkpoint}
use agent_backend.Store.Control.{request_run_interrupt}
use agent_backend.Checkpoint.WellFormed.{IsWellFormed}
use agent_backend.Store.Fence.{fenced_out, NotHeld}
use agent_backend.Store.Commit.{committed_rows, check_fence, commit_managed_state}
use agent_backend.Store.Handoff.{claim-commit, commit-interrupt}
use agent_backend.Checkpoint.Validate.{
  validate_step, validate_counts, validate_steps, validate_header, validate_checkpoint,
}
use agent_backend.Checkpoint.Decode.{
  check_pending_action, check_step_action, decode_step, decode_items, decode_raw, decode_checkpoint,
}
use agent_backend.Store.Rows.{encode, decode_checkpoint_row, build_run_state}
use agent_backend.Store.Claim.{
  leased, recovered, recover_stale_run, load_managed_run, start_attempt, started_rows,
  claim_managed_run,
}
use agent_backend.Prelude.{checkpoint_validation, eq_iff, ◌≢◌, ◌≡◌, refl, ok, some}
use agent_backend.Store.{interrupt_requested, Store, running}
use agent_backend.Examples.{
  completed, answered, pos, err, commit_of, none, interrupted, Run, after_step, rows_of, true,
  in_flight, Checkpoint, false, backend, started, created, park, claim_of, ready_run,
}

-- The run claimed under "t1", and the same claim after its lease ran out and it was parked.
abbrev pub claimed : Store
claimed = started_rows 100 (claim_of "k1" "t1") ready_run created

pub claim_ok :
    claim_managed_run backend 100 park (claim_of "k1" "t1") created
    ≡ ok (
      record {
        status = running;
        attempt_no = 1;
        checkpoint = some started;
        lease_token = some "t1";
        replayed = false;
      },
      claimed,
    )
unfolding claim_managed_run start_attempt build_run_state decode_checkpoint_row decode_checkpoint
    decode_raw decode_items validate_checkpoint validate_header validate_steps validate_counts
claim_ok = refl

abbrev parked : Store
parked = rows_of (load_managed_run backend 200 (some park) "u1" claimed)

abbrev reclaimed : Store
reclaimed = rows_of (claim_managed_run backend 210 park (claim_of "k2" "t2") parked)

claim_parked :
    claim_managed_run backend 210 park (claim_of "k2" "t2") parked
    ≡ ok (
      record {
        status = running;
        attempt_no = 2;
        checkpoint = some started;
        lease_token = some "t2";
        replayed = false;
      },
      reclaimed,
    )
unfolding claim_managed_run load_managed_run recover_stale_run recovered start_attempt
    build_run_state decode_checkpoint_row decode_checkpoint decode_raw decode_items
    validate_checkpoint validate_header validate_steps validate_counts
claim_parked = refl

parked_holds_none : NotHeld "t1" parked.run
unfolding load_managed_run recover_stale_run recovered build_run_state decode_checkpoint_row
    decode_checkpoint decode_raw decode_items validate_checkpoint validate_header validate_steps
    validate_counts
parked_holds_none h = cc h

other_token : (claim_of "k2" "t2").token ≢ "t1"
other_token h = false≢true ((eq_iff "t2" "t1").1 h)

-- The executor that lost its lease cannot commit any more.
fenced_out_example :
    commit_managed_state backend 220 (commit_of "t1" in_flight none none) reclaimed
    ≢ ok (
      record { status = running; revision = pos 1; checkpoint = in_flight; paused = false },
      reclaimed,
    )
fenced_out_example =
    fenced_out "t1" (next here (claim 210 (claim_of "k2" "t2") claim_parked)) (tt, other_token)
      parked_holds_none 220 (commit_of "t1" in_flight none none)
      (record { status = running; revision = pos 1; checkpoint = in_flight; paused = false })
      reclaimed refl

abbrev requested : Store
requested = rows_of (request_run_interrupt 110 "u1" (some "stop") claimed)

abbrev paused : Store
paused = rows_of (
    commit_managed_state backend 120 (commit_of "t1" answered (some completed) (some "noon"))
      requested)

request_ok :
    request_run_interrupt 110 "u1" (some "stop") claimed ≡ ok (interrupt_requested, requested)
unfolding request_run_interrupt
request_ok = refl

commit_paused :
    commit_managed_state backend 120
      (commit_of "t1" answered (some completed) (some "noon"))
      requested
    ≡ ok (
      record { status = interrupted; revision = pos 1; checkpoint = after_step; paused = true },
      paused,
    )
unfolding commit_managed_state request_run_interrupt check_fence encode encode_checkpoint
    validate_checkpoint validate_header validate_steps validate_step validate_counts
commit_paused = refl

-- A final commit after an interrupt request pauses instead.
commit-interrupt_example :
    (true ≡ true)
    × (after_step ≡ after_step)
    × ((r : Run) × (paused.run ≡ some r) × (r.status ≡ interrupted) × (r.lease_token ≡ none))
    × (paused.assistant ≡ requested.assistant)
    × (paused.message_count ≡ requested.message_count)
commit-interrupt_example =
    commit-interrupt backend 110 120 "u1" (some "stop")
      (commit_of "t1" answered (some completed) (some "noon")) claimed request_ok refl commit_paused

abbrev flown : Store
flown = rows_of (commit_managed_state backend 120 (commit_of "t1" in_flight none none) claimed)

abbrev taken_over : Store
taken_over = rows_of (claim_managed_run backend 300 park (claim_of "k2" "t2") flown)

commit_flown :
    commit_managed_state backend 120 (commit_of "t1" in_flight none none) claimed
    ≡ ok (
      record { status = running; revision = pos 1; checkpoint = in_flight; paused = false },
      flown,
    )
unfolding commit_managed_state check_fence encode encode_checkpoint validate_checkpoint
    validate_header validate_steps validate_step validate_counts
commit_flown = refl

claim_flown :
    claim_managed_run backend 300 park (claim_of "k2" "t2") flown
    ≡ ok (
      record {
        status = running;
        attempt_no = 2;
        checkpoint = some in_flight;
        lease_token = some "t2";
        replayed = false;
      },
      taken_over,
    )
unfolding commit_managed_state committed_rows check_fence encode encode_checkpoint claim_managed_run
    recover_stale_run recovered start_attempt build_run_state decode_checkpoint_row
    decode_checkpoint decode_raw decode_items decode_step check_step_action check_pending_action
    validate_checkpoint validate_header validate_steps validate_step validate_counts
claim_flown = refl

claim-commit_example : some in_flight ≡ some in_flight
claim-commit_example =
    claim-commit backend 120 300 park (commit_of "t1" in_flight none none) (claim_of "k2" "t2")
      claimed refl refl in_flight-IsStorable commit_flown claim_flown

abbrev nameless : Checkpoint
nameless = record started { run_id = "" }

nameless_ill_formed : ¬ IsWellFormed nameless
nameless_ill_formed w = w.header.named refl

claimed_fence :
    check_fence 120 (commit_of "t1" nameless none none) (leased 100 (claim_of "k1" "t1") ready_run)
    ≡ ok tt
unfolding check_fence
claimed_fence = refl

commit_ill_formed_example :
    commit_managed_state backend 120 (commit_of "t1" nameless none none) claimed
    ≡ err checkpoint_validation
commit_ill_formed_example =
    commit_ill_formed backend 120 (commit_of "t1" nameless none none) claimed
      (leased 100 (claim_of "k1" "t1") ready_run) refl refl claimed_fence nameless_ill_formed
