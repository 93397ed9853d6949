-- ===== src/Guard/Requests/Decision.antt =====
-- Which requests the guard refuses, and with what.
use agent_backend.Prelude.{
  arith, ℕ, ◌≡◌, refl, sym, ap, String, AppError, ◌∙◌, ◌↔◌, ◌⊎◌, inl, inr, Bool, true, false,
  Bool-cases, none, some, List, [], ◌∷◌, ◌++◌, str_eq, if◌then◌else◌, All,
}
use agent_backend.Guard.{Rule, Web}
use agent_backend.Guard.Requests.Refusal.{Refuses, Reports, applies_iff, Reports-iff}
use agent_backend.Guard.Requests.{
  Request, passed, raised, applies, first_rule, reject_request, handle,
}

-- A request that the guard looks at: over HTTP, while the guard is enabled, and no OPTIONS request.
abbrev IsGuarded : Web → Bool → Request → Type 0
IsGuarded web enabled request =
    (request.is_http ≡ true)
    × (enabled ≡ true)
    × (str_eq (web.upper request.method) "OPTIONS" ≡ false)

-- The rule is in the list and refuses the request, and no earlier rule does.
abbrev pub IsFirst : Web → ℕ → Request → List Rule → Rule → Type 0
IsFirst web now request rules rule =
    (before : List Rule) × (after : List Rule) × (rules ≡ before ++ (rule ∷ after))
    × All (λ r. ¬ Refuses web now request r) before
    × Refuses web now request rule

module _ (web : Web) (now : ℕ) (request : Request) where
  misses : (rule : Rule) → ¬ Refuses web now request rule → applies web now request rule ≡ false
  misses rule h = elim (Bool-cases (applies web now request rule)) [
    | inl hit ↦ absurd (h ((applies_iff web now request rule).0 hit))
    | inr miss ↦ miss
  ]

  spares : (rule : Rule) → applies web now request rule ≡ false → ¬ Refuses web now request rule
  spares rule miss refused = absurd cc (miss, (applies_iff web now request rule).1 refused)

  first_rule_cases :
      (rules : List Rule)
      → ((first_rule web now request rules ≡ none) × All (λ r. ¬ Refuses web now request r) rules)
        ⊎ ((rule : Rule) × (first_rule web now request rules ≡ some rule)
            × IsFirst web now request rules rule)
  first_rule_cases [] = inl (refl, tt)
  first_rule_cases (rule ∷ rules) =
      let choose = λ (b : Bool). if b then some rule else first_rule web now request rules in
      elim (Bool-cases (applies web now request rule)) [
        | inl hit ↦
            inr
              (rule, ap choose hit, ([], rules, refl, tt, (applies_iff web now request rule).0 hit))
        | inr miss ↦ elim (first_rule_cases rules) [
          | inl (nothing, all) ↦ inl (ap choose miss ∙ nothing, (spares rule miss, all))
          | inr (found, e, (before, after, parts, spared, hit)) ↦ inr (
            found,
            ap choose miss ∙ e,
            (rule ∷ before, after, ap (λ rs. rule ∷ rs) parts, (spares rule miss, spared), hit),
          )
        ]
      ]

  first_rule-none :
      (rules : List Rule)
      → All (λ r. ¬ Refuses web now request r) rules
      → first_rule web now request rules ≡ none
  first_rule-none [] h = refl
  first_rule-none (rule ∷ rules) (here, rest) = rw (misses rule here) (first_rule-none rules rest)

  first_rule_after :
      (before : List Rule) (rule : Rule) (after : List Rule)
      → All (λ r. ¬ Refuses web now request r) before
      → Refuses web now request rule
      → first_rule web now request (before ++ (rule ∷ after)) ≡ some rule
  first_rule_after [] rule after h hit = rw ((applies_iff web now request rule).1 hit) refl
  first_rule_after (r ∷ before) rule after (here, rest) hit =
      rw (misses r here) (first_rule_after before rule after rest hit)

  first_rule-IsFirst :
      (rules : List Rule) {rule : Rule}
      → IsFirst web now request rules rule
      → first_rule web now request rules ≡ some rule
  first_rule-IsFirst rules (before, after, parts, spared, hit) =
      ap (first_rule web now request) parts ∙ first_rule_after before _ after spared hit

  handle_guarded :
      (enabled : Bool) (rules : List Rule)
      → IsGuarded web enabled request
      → handle web enabled now request (some rules)
        ≡ reject_request (first_rule web now request rules)
  unfolding handle
  handle_guarded enabled rules (http, on, asked) = ground arith

raised_parts : (e e' : AppError) (m m' : String) → raised e m ≡ raised e' m' → (e' ≡ e) × (m' ≡ m)
raised_parts e e' m m' h = (cc h, cc h)

-- What becomes of a request that the guard looks at, when the rules could be read. It goes on to the
-- application exactly when no rule refuses it. It is answered by an error with a message exactly when
-- some rule refuses it and the first one that does reports them: the error of its kind, and its own
-- message, or the text of its kind if it has none. A rule refuses a request when it is switched on, its
-- time has not run out, it is for the request's method, and its path fits.
pub handle_iff :
    (web : Web) (enabled : Bool) (now : ℕ) (request : Request) (rules : List Rule) (e : AppError)
    (message : String)
    → IsGuarded web enabled request
    → ((handle web enabled now request (some rules) ≡ passed)
        ↔ All (λ r. ¬ Refuses web now request r) rules)
      × ((handle web enabled now request (some rules) ≡ raised e message)
          ↔ ((rule : Rule) × IsFirst web now request rules rule × Reports rule e message))
handle_iff web enabled now request rules e message guarded =
    let same = handle_guarded web now request enabled rules guarded in
    (
      (
        λ passes. elim (first_rule_cases web now request rules) [
          | inl (nothing, all) ↦ all
          | inr (rule, found, first) ↦
              let refused = ap reject_request found in absurd cc (passes, same, refused)
        ],
        λ all. same ∙ ap reject_request (first_rule-none web now request rules all),
      ),
      (
        λ refuses. elim (first_rule_cases web now request rules) [
          | inl (nothing, all) ↦
              let passes = ap reject_request nothing in absurd cc (refuses, same, passes)
          | inr (rule, found, first) ↦
              let parts = sym (same ∙ ap reject_request found) ∙ refuses in
              (rule, first, (Reports-iff rule e message).1 (raised_parts _ _ _ _ parts))
        ],
        λ (rule, first, told).
            let (error, text) = (Reports-iff rule e message).0 told in
            same
            ∙ ap reject_request (first_rule-IsFirst web now request rules first)
            ∙ rw (error, text) refl,
      ),
    )
