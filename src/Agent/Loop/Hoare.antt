-- ===== src/Agent/Loop/Hoare.antt =====
-- What a piece of the loop in pkg/agents/react.py does to the log: a rule for each way in which
-- pieces are put together.
use agent_backend.Prelude.{Bool, true, false, Result, ok, err, ◌∷◌, if◌then◌else◌}
use agent_backend.Agent.Loop.{Proc, Log, Effect, then_do, ◌>>=◌, give, log, act, read}

-- After a run the log fits `Q` with the value that was returned, or `E` if it raised.
abbrev pub Post :
    {W A : Type 0} → (A → Log → Type 0) → (Log → Type 0) → Result A × (W × Log) → Type 0
Post Q E (ok a, (w, l)) = Q a l
Post Q E (err e, (w, l)) = E l

-- From every world and every log that fits `P`.
pub record Runs {W A : Type 0} (P : Log → Type 0) (m : Proc W A) (Q : A → Log → Type 0)
    (E : Log → Type 0) : Type 0 where
  pub run : (w : W) (l : Log) → P l → Post Q E (m (w, l))

then_Post :
    {W A B : Type 0} (Q : A → Log → Type 0) (R : B → Log → Type 0) (E : Log → Type 0)
    (x : Result A × (W × Log)) (f : A → Proc W B)
    → ((a : A) → Runs (Q a) (f a) R E)
    → Post Q E x
    → Post R E (then_do f x)
then_Post Q R E (ok a, (w, l)) f k q = (k a).run w l q
then_Post Q R E (err e, (w, l)) f k q = q

pub >>=-Runs :
    {W A B : Type 0} {P : Log → Type 0} (Q : A → Log → Type 0) {R : B → Log → Type 0}
    {E : Log → Type 0} {m : Proc W A} {f : A → Proc W B}
    → Runs P m Q E
    → ((a : A) → Runs (Q a) (f a) R E)
    → Runs P (m >>= f) R E
unfolding ◌>>=◌
>>=-Runs Q {R} {E} {m} {f} h k = record {
  run = λ w l p. then_Post Q R E (m (w, l)) f k (h.run w l p);
}

pub if-Runs :
    {W A : Type 0} {P : Log → Type 0} {Q : A → Log → Type 0} {E : Log → Type 0} (b : Bool)
    {x y : Proc W A}
    → Runs P x Q E
    → Runs P y Q E
    → Runs P (if b then x else y) Q E
if-Runs true h k = h
if-Runs false h k = k

kept :
    {W A : Type 0} (P E : Log → Type 0) (r : Result A) (w : W) (l : Log)
    → P l
    → E l
    → Post (λ (_ : A). P) E (r, (w, l))
kept P E (ok a) w l p e = p
kept P E (err x) w l p e = e

-- A call outside leaves the log as it is, whatever it answers.
pub act-Runs :
    {W A : Type 0} {P : Log → Type 0} {E : Log → Type 0} (f : W → Result A × W)
    → ((l : Log) → P l → E l)
    → Runs P (act f) (λ _. P) E
act-Runs {P = P} {E = E} f raise = record {
  run = λ w l p. kept P E (f w).0 (f w).1 l p (raise l p);
}

pub give-Runs :
    {W A : Type 0} {P : Log → Type 0} {E : Log → Type 0} (r : Result A)
    → ((l : Log) → P l → E l)
    → Runs {W = W} P (give r) (λ _. P) E
give-Runs {P = P} {E = E} r raise = record { run = λ w l p. kept P E r w l p (raise l p) }

pub read-Runs :
    {W A : Type 0} {P : Log → Type 0} {E : Log → Type 0} (f : W → A × W)
    → Runs P (read f) (λ _. P) E
read-Runs f = record { run = λ w l p. p }

pub log-Runs :
    {W : Type 0} {P : Log → Type 0} {Q : Unit {0} → Log → Type 0} {E : Log → Type 0} (e : Effect)
    → ((l : Log) → P l → Q tt (e ∷ l))
    → Runs {W = W} P (log e) Q E
log-Runs e h = record { run = λ w l p. h l p }

-- A weaker promise is kept too.
pub weaken-Runs :
    {W A : Type 0} {P P' : Log → Type 0} {Q : A → Log → Type 0} {E : Log → Type 0} {m : Proc W A}
    → ((l : Log) → P' l → P l)
    → Runs P m Q E
    → Runs P' m Q E
weaken-Runs stronger h = record { run = λ w l p. h.run w l (stronger l p) }

pub give_ok-Runs :
    {W A : Type 0} {P : Log → Type 0} {Q : A → Log → Type 0} {E : Log → Type 0} (a : A)
    → ((l : Log) → P l → Q a l)
    → Runs {W = W} P (give (ok a)) Q E
give_ok-Runs a h = record { run = λ w l p. h l p }
