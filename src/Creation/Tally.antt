-- ===== src/Creation/Tally.antt =====
-- The sessions' counters: what `create_managed_run` of internal/services/agents/conversation.py keeps
-- of `message_count`.
use mathlib.Core.Bool.{false≢true}
use agent_backend.Prelude.{
  ℕ, suc, String, ◌≡◌, refl, sym, ap, ◌∙◌, Bool, Bool-cases, inl, inr, true, false, ◌||◌, List, [],
  ◌∷◌, str_eq, if◌then◌else◌, is_none, arith, eq_iff,
}
use agent_backend.Creation.{Session, Message, session_of, is_session, any, count_message}

-- How many messages a session has.
abbrev messages_in : String → List Message → ℕ
messages_in session_id [] = 0
messages_in session_id (m ∷ messages) =
    if str_eq m.session_id session_id
    then suc (messages_in session_id messages)
    else messages_in session_id messages

abbrev pub has_session : String → List Session → Bool
has_session session_id sessions = any (λ (x : Session). str_eq x.session_id session_id) sessions

-- No two sessions have the same identifier.
abbrev pub DistinctSessions : List Session → Type 0
DistinctSessions [] = Unit
DistinctSessions (s ∷ sessions) =
    (has_session s.session_id sessions ≡ false) × DistinctSessions sessions

-- Every session counts its messages.
abbrev pub Tallied : List Session → List Message → Type 0
Tallied [] messages = Unit
Tallied (s ∷ sessions) messages =
    (s.message_count ≡ messages_in s.session_id messages) × Tallied sessions messages

-- Every message has a session.
abbrev pub Housed : List Session → List Message → Type 0
Housed sessions [] = Unit
Housed sessions (m ∷ messages) =
    (has_session m.session_id sessions ≡ true) × Housed sessions messages

or_false : (a b : Bool) → (a || b) ≡ false → (a ≡ false) × (b ≡ false)
or_false a b h = ground arith

apart : (a b : String) → str_eq a b ≡ false → str_eq b a ≡ false
apart a b h = ground (arith, eq_iff a b, eq_iff b a)

-- A message of another session changes no counter that must agree.
pub other_messages :
    (sessions : List Session) (m : Message) (messages : List Message)
    → has_session m.session_id sessions ≡ false
    → Tallied sessions messages
    → Tallied sessions (m ∷ messages)
other_messages [] m messages absent t = tt
other_messages (s ∷ sessions) m messages absent (here, rest) =
    let (apart_here, apart_rest) =
      or_false (str_eq s.session_id m.session_id) (has_session m.session_id sessions) absent in
    (
      rw (apart s.session_id m.session_id apart_here) here,
      other_messages sessions m messages apart_rest rest,
    )

pub unhoused :
    (session_id : String) (sessions : List Session) (messages : List Message)
    → has_session session_id sessions ≡ false
    → Housed sessions messages
    → messages_in session_id messages ≡ 0
unhoused session_id sessions [] absent housed = refl
unhoused session_id sessions (m ∷ messages) absent (here, rest) =
    elim (Bool-cases (str_eq m.session_id session_id)) [
      | inl same ↦
          absurd (false≢true (sym absent ∙ rw ((eq_iff m.session_id session_id).0 same) at here))
      | inr other ↦ rw other (unhoused session_id sessions messages absent rest)
    ]

pub more_sessions :
    (s : Session) (sessions : List Session) (messages : List Message)
    → Housed sessions messages
    → Housed (s ∷ sessions) messages
more_sessions s sessions [] h = tt
more_sessions s sessions (m ∷ messages) (here, rest) =
    (ground (arith, here), more_sessions s sessions messages rest)

pub has_session-count_message :
    (user_id session_id other : String) (now : ℕ) (sessions : List Session)
    → has_session other (count_message user_id session_id now sessions) ≡ has_session other sessions
has_session-count_message user_id session_id other now [] = refl
has_session-count_message user_id session_id other now (s ∷ sessions) =
    elim (Bool-cases (is_session user_id session_id s)) [
      | inl same ↦ rw same refl
      | inr different ↦
          rw (different, has_session-count_message user_id session_id other now sessions) refl
    ]

pub count_message-DistinctSessions :
    (user_id session_id : String) (now : ℕ) (sessions : List Session)
    → DistinctSessions sessions
    → DistinctSessions (count_message user_id session_id now sessions)
count_message-DistinctSessions user_id session_id now [] d = tt
count_message-DistinctSessions user_id session_id now (s ∷ sessions) (first, rest) =
    elim (Bool-cases (is_session user_id session_id s)) [
      | inl same ↦ rw same (first, rest)
      | inr different ↦ rw different (
        has_session-count_message user_id session_id s.session_id now sessions ∙ first,
        count_message-DistinctSessions user_id session_id now sessions rest,
      )
    ]

pub count_message-Housed :
    (user_id session_id : String) (now : ℕ) (sessions : List Session) (messages : List Message)
    → Housed sessions messages
    → Housed (count_message user_id session_id now sessions) messages
count_message-Housed user_id session_id now sessions [] h = tt
count_message-Housed user_id session_id now sessions (m ∷ messages) (here, rest) = (
  has_session-count_message user_id session_id m.session_id now sessions ∙ here,
  count_message-Housed user_id session_id now sessions messages rest,
)

pub found_session :
    (user_id session_id : String) (sessions : List Session)
    → is_none (session_of user_id session_id sessions) ≡ false
    → has_session session_id sessions ≡ true
found_session user_id session_id [] found = cc
found_session user_id session_id (s ∷ sessions) found =
    elim (Bool-cases (is_session user_id session_id s)) [
      | inl same ↦ ground arith
      | inr different ↦
          ground (arith, found_session user_id session_id sessions (rw different at found))
    ]

named_session :
    (user_id session_id : String) (s : Session)
    → is_session user_id session_id s ≡ true
    → str_eq s.session_id session_id ≡ true
named_session user_id session_id s h = ground arith

elsewhere :
    (user_id session_id : String) (s : Session) (sessions : List Session) (m : Message)
    → m.session_id ≡ session_id
    → is_none (session_of user_id session_id sessions) ≡ false
    → has_session s.session_id sessions ≡ false
    → str_eq m.session_id s.session_id ≡ false
elsewhere user_id session_id s sessions m own found first =
    elim (Bool-cases (str_eq m.session_id s.session_id)) [
      | inl same ↦
          let e : session_id ≡ s.session_id = sym own ∙ (eq_iff m.session_id s.session_id).0 same in
          absurd
            (false≢true (sym first ∙ (rw e at (found_session user_id session_id sessions found))))
      | inr other ↦ other
    ]

-- The session that has one more message counts it.
pub count_message-Tallied :
    (user_id session_id : String) (now : ℕ) (sessions : List Session) (m : Message)
    (messages : List Message)
    → m.session_id ≡ session_id
    → is_none (session_of user_id session_id sessions) ≡ false
    → DistinctSessions sessions
    → Tallied sessions messages
    → Tallied (count_message user_id session_id now sessions) (m ∷ messages)
count_message-Tallied user_id session_id now [] m messages own found d t = tt
count_message-Tallied user_id session_id now (s ∷ sessions) m messages own found (first, distinct)
      (here, rest) =
    elim (Bool-cases (is_session user_id session_id s)) [
      | inl same ↦
          let e : s.session_id ≡ m.session_id =
            (eq_iff s.session_id session_id).0 (named_session user_id session_id s same)
            ∙ sym own in
          rw same (
            rw (sym e, (eq_iff s.session_id s.session_id).1 refl) (ap suc here),
            other_messages sessions m messages (rw e at first) rest,
          )
      | inr different ↦
          let later = rw different at found in
          rw different (
            rw (elsewhere user_id session_id s sessions m own later first) here,
            count_message-Tallied user_id session_id now sessions m messages own later distinct
                rest,
          )
    ]
