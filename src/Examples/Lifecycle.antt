-- ===== src/Examples/Lifecycle.antt =====
-- The invariants of the rows and the idempotence of a claim at sample rows.
use agent_backend.Checkpoint.Validate.{
  validate_step, validate_counts, validate_steps, validate_header, validate_checkpoint,
}
use agent_backend.Checkpoint.Decode.{decode_items, decode_raw, decode_checkpoint}
use mathlib.Core.Bool.{false≢true}
use agent_backend.Store.Starting.{Started}
use agent_backend.Store.Taking.{claim_again, claim_excludes}
use agent_backend.Store.Journal.Traces.{Trace-JournalFits}
use agent_backend.Checkpoint.Encode.{encode_checkpoint}
use agent_backend.Store.Journal.{JournalFits}
use agent_backend.Store.Steps.{commit, renew, claim, here, next, Trace-LeaseFits, LeaseFits, Trace}
use agent_backend.Store.Control.{renew_managed_lease}
use agent_backend.Store.Commit.{committed_rows, check_fence, commit_managed_state}
use agent_backend.Store.Claim.{claim_managed_run, leased}
use agent_backend.Store.Rows.{decoded, encode, decode_checkpoint_row}
use agent_backend.Store.Answer.{answered_once, AnsweredOnce}
use agent_backend.Store.Outcome.{HasEnded, terminal_absorbs, SameOutcome}
use agent_backend.Prelude.{
  ℕ, ◌≡◌, ◌≢◌, refl, inl, inr, ok, err, app, agent_run_state_conflict, none, some, pos, eq_iff,
  arith,
}
use agent_backend.Store.{Run, Store, running, completed}
use agent_backend.Examples.{
  true, false, backend, started, answered, created, park, claim_of, commit_of, rows_of, ready_run,
}
use agent_backend.Examples.Fencing.{claimed, claim_ok}

created_decodes : decoded backend created.checkpoint ≡ ok (some started)
unfolding decode_checkpoint_row decode_checkpoint decode_raw decode_items validate_checkpoint
    validate_header validate_steps validate_counts
created_decodes = refl

abbrev finished : Store
finished = rows_of (
    commit_managed_state backend 120 (commit_of "t1" answered (some completed) (some "noon"))
      claimed)

commit_finished :
    commit_managed_state backend 120
      (commit_of "t1" answered (some completed) (some "noon"))
      claimed
    ≡ ok (
      record { status = completed; revision = pos 1; checkpoint = answered; paused = false },
      finished,
    )
unfolding commit_managed_state check_fence encode encode_checkpoint validate_checkpoint
    validate_header validate_steps validate_step validate_counts
commit_finished = refl

-- A claim and the commit of the answer.
abbrev whole : Trace backend park created finished
whole =
    next (next here (claim 100 (claim_of "k1" "t1") claim_ok))
      (commit 120 (commit_of "t1" answered (some completed) (some "noon")) refl commit_finished)

renew_refused : (renew_managed_lease 130 "u1" "t1" 60 finished).1 ≡ finished
unfolding renew_managed_lease commit_managed_state committed_rows check_fence encode
    encode_checkpoint validate_checkpoint validate_header validate_steps validate_step
    validate_counts
renew_refused = refl

-- A renewal that comes too late.
abbrev reading : Trace backend park finished finished
reading = next here (renew 130 "u1" "t1" 60 renew_refused)

finished_LeaseFits : LeaseFits finished.run
unfolding commit_managed_state committed_rows check_fence encode encode_checkpoint
    validate_checkpoint validate_header validate_steps validate_step validate_counts
finished_LeaseFits = (refl, refl)

finished_HasEnded : HasEnded finished.run
unfolding commit_managed_state committed_rows check_fence encode encode_checkpoint
    validate_checkpoint validate_header validate_steps validate_step validate_counts
finished_HasEnded = refl

terminal_absorbs_example : SameOutcome finished finished
terminal_absorbs_example = terminal_absorbs (λ _. refl) reading finished_LeaseFits finished_HasEnded

answered_once_example : AnsweredOnce 4 finished
answered_once_example = answered_once (λ _. refl) whole (refl, refl) refl

Trace-LeaseFits_example : LeaseFits finished.run
Trace-LeaseFits_example = Trace-LeaseFits (λ _. refl) whole (refl, refl)

Trace-JournalFits_example : JournalFits finished
Trace-JournalFits_example =
    Trace-JournalFits whole ((tt, tt), (refl, tt))
      (record { revision = refl; steps = tt; attempts = tt })

claim_again_example :
    (n : ℕ) × (s' : Store) × (claim_managed_run backend 100 park (claim_of "k1" "t1") created
      ≡ ok (
        record {
          status = running;
          attempt_no = n;
          checkpoint = some started;
          lease_token = some "t1";
          replayed = false;
        },
        s',
      ))
    × Started 100 (claim_of "k1" "t1") created s' n
    × (claim_managed_run backend 130 park (claim_of "k1" "t9") s'
        ≡ ok (
          record {
            status = running;
            attempt_no = n;
            checkpoint = some started;
            lease_token = none;
            replayed = true;
          },
          s',
        ))
claim_again_example =
    claim_again backend 100 130 park (claim_of "k1" "t1") (claim_of "k1" "t9") created ready_run
      refl refl refl (inl refl) refl created_decodes refl refl refl

-- The run that the first claim left running, whose lease ran out at 160.
abbrev stale_run : Run
stale_run = leased 100 (claim_of "k1" "t1") ready_run

keys_differ : (claim_of "k2" "t2").request_key ≢ (claim_of "k3" "t3").request_key
keys_differ h = false≢true ((eq_iff "k2" "k3").1 h)

-- The stale run is taken over, and the executor that takes it shuts the next one out.
claim_excludes_example :
    (n : ℕ) × (s' : Store) × (claim_managed_run backend 200 park (claim_of "k2" "t2") claimed
      ≡ ok (
        record {
          status = running;
          attempt_no = n;
          checkpoint = some started;
          lease_token = some "t2";
          replayed = false;
        },
        s',
      ))
    × Started 200 (claim_of "k2" "t2") claimed s' n
    × (claim_managed_run backend 230 park (claim_of "k3" "t3") s'
        ≡ err (app agent_run_state_conflict))
claim_excludes_example =
    claim_excludes backend 200 230 park (claim_of "k2" "t2") (claim_of "k3" "t3") claimed stale_run
      refl refl refl (inr (refl, refl, refl)) refl created_decodes refl keys_differ refl
      (omega arith)
