-- ===== src/Creation/Invariant.antt =====
-- What `create_managed_run` of internal/services/agents/conversation.py keeps of the tables.
use agent_backend.Creation.Tally.{
  count_message-Housed, found_session, has_session-count_message, count_message-Tallied,
  count_message-DistinctSessions, more_sessions, Housed, Tallied, other_messages, unhoused,
  DistinctSessions, has_session,
}
use agent_backend.Prelude.{
  ℕ, suc, String, ◌≡◌, refl, sym, ap, ◌∙◌, inl, inr, false, Option, none, some, List, [], ◌∷◌,
  str_eq, ok, is_none, arith, eq_iff,
}
use agent_backend.Json.{Fields}
use agent_backend.Store.Rows.{Backend}
use agent_backend.Creation.{
  Tables, Session, CreateRequest, RunStart, run_by_key, session_of, is_taken, any,
  create_managed_run, new_session, user_message, new_run, created_rows,
}
use agent_backend.Creation.Once.{create_outcome}
use agent_backend.Store.{Run}

-- No two runs have the same identifier, and no two of a user have the same key.
abbrev DistinctRuns : List Run → Type 0
DistinctRuns [] = Unit
DistinctRuns (r ∷ runs) =
    (any (λ (x : Run). str_eq x.run_id r.run_id) runs ≡ false)
    × ((key : String) → r.create_request_key ≡ some key → run_by_key r.user_id key runs ≡ none)
    × DistinctRuns runs

pub record TablesFit (s : Tables) : Type 0 where
  pub distinct : DistinctSessions s.sessions
  pub tallied : Tallied s.sessions s.messages
  pub keyed : DistinctRuns s.runs
  pub housed : Housed s.sessions s.messages

not_taken :
    (q : CreateRequest) (s : Tables)
    → is_taken q none s ≡ false
    → has_session q.session_id s.sessions ≡ false
not_taken q s free = ground arith

run_not_taken :
    (q : CreateRequest) (session : Option Session) (s : Tables)
    → is_taken q session s ≡ false
    → any (λ (x : Run). str_eq x.run_id q.run_id) s.runs ≡ false
run_not_taken q none s free = ground arith
run_not_taken q (some x) s free = ground arith

new_keyed :
    (now : ℕ) (q : CreateRequest) (session : Option Session) (s : Tables)
    → is_taken q session s ≡ false
    → run_by_key q.user_id q.request_key s.runs ≡ none
    → DistinctRuns s.runs
    → DistinctRuns (new_run now q ∷ s.runs)
new_keyed now q session s free new runs = (
  run_not_taken q session s free,
  λ key e. let same : q.request_key ≡ key = cc e in rw same at new,
  runs,
)

tables_fit :
    (now : ℕ) (q : CreateRequest) (payload : Fields) (session : Option Session) (s : Tables)
    → (is_none session ≡ false → is_none (session_of q.user_id q.session_id s.sessions) ≡ false)
    → is_taken q session s ≡ false
    → run_by_key q.user_id q.request_key s.runs ≡ none
    → TablesFit s
    → TablesFit (created_rows now q payload session s)
tables_fit now q payload none s known free new fits =
    let absent = not_taken q s free in
    record {
      distinct = (absent, fits.distinct);
      tallied = (
        rw ((eq_iff q.session_id q.session_id).1 refl)
            (ap suc (sym (unhoused q.session_id s.sessions s.messages absent fits.housed))),
        other_messages s.sessions (user_message now q) s.messages absent fits.tallied,
      );
      keyed = new_keyed now q none s free new fits.keyed;
      housed = (
        rw ((eq_iff q.session_id q.session_id).1 refl) refl,
        more_sessions (new_session now q) s.sessions s.messages fits.housed,
      );
    }
tables_fit now q payload (some x) s known free new fits =
    let found = known refl in
    record {
      distinct = count_message-DistinctSessions q.user_id q.session_id now s.sessions fits.distinct;
      tallied =
          count_message-Tallied q.user_id q.session_id now s.sessions (user_message now q)
            s.messages refl found fits.distinct fits.tallied;
      keyed = new_keyed now q (some x) s free new fits.keyed;
      housed = (
        has_session-count_message q.user_id q.session_id q.session_id now s.sessions
            ∙ found_session q.user_id q.session_id s.sessions found,
        count_message-Housed q.user_id q.session_id now s.sessions s.messages fits.housed,
      );
    }

-- Every creation that goes through keeps the tables: no two sessions have the same identifier, each
-- counts exactly its messages, and each message has a session; no two runs have the same identifier,
-- and no two of a user have the same key. A session that the transaction saw still stands.
pub create-TablesFit :
    (b : Backend) (now : ℕ) (q : CreateRequest) (seen s : Tables) {start : RunStart} {s' : Tables}
    → create_managed_run b now q seen s ≡ ok (start, s')
    → (is_none (session_of q.user_id q.session_id seen.sessions) ≡ false
        → is_none (session_of q.user_id q.session_id s.sessions) ≡ false)
    → TablesFit s
    → TablesFit s'
create-TablesFit b now q seen s h known fits =
    let (payload, _, outcome) = create_outcome b now q seen s h in
    elim outcome [
      | inl same ↦ rw same fits
      | inr (free, new, rows) ↦ rw rows (
          tables_fit now q payload (session_of q.user_id q.session_id seen.sessions) s known free
            new fits)
    ]
