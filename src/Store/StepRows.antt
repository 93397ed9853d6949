-- ===== src/Store/StepRows.antt =====
-- The step rows of a run: `_insert_missing_steps` of internal/services/agents/conversation.py adds
-- rows and never gives an index a second one.
use agent_backend.Prelude.{
  ◌≡◌, refl, ◌∙◌, inl, inr, true, false, ◌||◌, List, [], ◌∷◌, ◌++◌, arith, Bool-cases, All, ℤ,
  eqb_ℤ→eq, eqb_ℤ_refl,
}
use agent_backend.Store.{StepRow}
use agent_backend.Store.Commit.{has_step, missing_steps, insert_missing_steps}

-- Steps: an index is held by one row at most.
abbrev pub DistinctSteps : List StepRow → Type 0
DistinctSteps [] = Unit
DistinctSteps (row ∷ rows) = (has_step row.step_index rows ≡ false) × DistinctSteps rows

has_step-append :
    (i : ℤ) (xs ys : List StepRow) → has_step i (xs ++ ys) ≡ (has_step i xs || has_step i ys)
has_step-append i [] ys = refl
has_step-append i (x ∷ xs) ys = ground (arith, has_step-append i xs ys)

has_step-missing :
    (i : ℤ) (existing steps : List StepRow)
    → has_step i steps ≡ false
    → has_step i (missing_steps existing steps) ≡ false
has_step-missing i existing [] h = refl
has_step-missing i existing (x ∷ xs) h = ground (arith, has_step-missing i existing xs)

missing-DistinctSteps :
    (existing steps : List StepRow)
    → DistinctSteps steps
    → DistinctSteps (missing_steps existing steps)
missing-DistinctSteps existing [] d = tt
missing-DistinctSteps existing (x ∷ xs) (fresh, d) =
    elim (Bool-cases (has_step x.step_index existing)) [
      | inl e ↦ rw e (missing-DistinctSteps existing xs d)
      | inr e ↦
          rw e
            (has_step-missing x.step_index existing xs fresh, missing-DistinctSteps existing xs d)
    ]

missing_fresh :
    (i : ℤ) (existing steps : List StepRow)
    → has_step i existing ≡ true
    → has_step i (missing_steps existing steps) ≡ false
missing_fresh i existing [] h = refl
missing_fresh i existing (x ∷ xs) h =
    ground (arith, missing_fresh i existing xs h, eqb_ℤ→eq x.step_index i)

append-DistinctSteps :
    (xs ys : List StepRow)
    → DistinctSteps xs
    → DistinctSteps ys
    → All (λ (row : StepRow). has_step row.step_index ys ≡ false) xs
    → DistinctSteps (xs ++ ys)
append-DistinctSteps [] ys dx dy apart = dy
append-DistinctSteps (x ∷ xs) ys (fresh, dx) dy (a, apart) = (
  rw (has_step-append x.step_index xs ys) (rw (fresh, a)),
  append-DistinctSteps xs ys dx dy apart,
)

-- Every row of `xs` is in `existing`, so none of what is missing from it shares its index.
missing_steps_fresh :
    (existing steps xs : List StepRow)
    → All (λ (row : StepRow). has_step row.step_index existing ≡ true) xs
    → All (λ (row : StepRow). has_step row.step_index (missing_steps existing steps) ≡ false) xs
missing_steps_fresh existing steps [] h = tt
missing_steps_fresh existing steps (x ∷ xs) (h, rest) =
    (missing_fresh x.step_index existing steps h, missing_steps_fresh existing steps xs rest)

held-cons :
    (y : StepRow) (xs ys : List StepRow)
    → All (λ (row : StepRow). has_step row.step_index xs ≡ true) ys
    → All (λ (row : StepRow). has_step row.step_index (y ∷ xs) ≡ true) ys
held-cons y xs [] h = tt
held-cons y xs (z ∷ zs) (h, rest) = (ground arith, held-cons y xs zs rest)

each_held : (xs : List StepRow) → All (λ (row : StepRow). has_step row.step_index xs ≡ true) xs
each_held [] = tt
each_held (x ∷ xs) = (ground (arith, eqb_ℤ_refl x.step_index), held-cons x xs xs (each_held xs))

-- If no index has two rows and none stands twice among the steps to insert, no index has two
-- rows after the insertion.
pub insert-DistinctSteps :
    (existing steps : List StepRow)
    → DistinctSteps existing
    → DistinctSteps steps
    → DistinctSteps (insert_missing_steps existing steps)
unfolding insert_missing_steps
insert-DistinctSteps existing steps d e =
    append-DistinctSteps existing (missing_steps existing steps) d
      (missing-DistinctSteps existing steps e)
      (missing_steps_fresh existing steps existing (each_held existing))

missing_or :
    (i : ℤ) (existing steps : List StepRow)
    → (has_step i existing || has_step i (missing_steps existing steps))
      ≡ (has_step i existing || has_step i steps)
missing_or i existing [] = refl
missing_or i existing (x ∷ xs) = ground (arith, missing_or i existing xs, eqb_ℤ→eq x.step_index i)

-- After the insertion an index is taken exactly if it was taken before or was asked for.
pub has_step-insert :
    (i : ℤ) (existing steps : List StepRow)
    → has_step i (insert_missing_steps existing steps) ≡ (has_step i existing || has_step i steps)
unfolding insert_missing_steps
has_step-insert i existing steps =
    has_step-append i existing (missing_steps existing steps) ∙ missing_or i existing steps
