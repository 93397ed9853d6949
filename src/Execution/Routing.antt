-- ===== src/Execution/Routing.antt =====
-- What the rules of internal/agents/router.py decide, by what a question mentions.
use agent_backend.Prelude.{
  starts_with, starts_sound, starts_complete, occurs, ◌<>◌, String, ◌≡◌, ◌≢◌, ◌↔◌, ◌⊎◌, inl, inr,
  refl, ap, Bool, Bool-cases, true, false, not, Option, none, some, List, [], ◌∷◌, ◌==◌, ltb,
  str_eq, eq_iff, arith,
}
use agent_backend.Execution.Checks.{AgentRoute, order, payment, unsupported}
use agent_backend.Execution.Router.{
  order_keywords, payment_keywords, payment_strong_keywords, non_business_keywords, score,
  contains_any, rule_route,
}

-- The keyword stands somewhere in the question.
abbrev Within : String → String → Type 0
Within keyword question =
    (before : String) × (after : String) × (question ≡ before <> (keyword <> after))

-- One of the keywords stands in the question.
abbrev pub Mentions : String → List String → Type 0
Mentions question [] = ⊥
Mentions question (k ∷ keywords) = Within k question ⊎ Mentions question keywords

occurs_sound : (keyword text : String) → occurs keyword text ≡ true → Within keyword text
occurs_sound keyword String.[] h = ("", "", rw ((eq_iff keyword "").0 h) refl)
occurs_sound keyword (String.◌∷◌ d text) h =
    elim (Bool-cases (starts_with keyword (String.◌∷◌ d text))) [
      | inl here ↦ let (after, e) = starts_sound keyword (String.◌∷◌ d text) here in ("", after, e)
      | inr later ↦
          let (before, after, e) = occurs_sound keyword text (rw later at h) in
          (String.◌∷◌ d before, after, ap (String.◌∷◌ d) e)
    ]

starts_occurs :
    (keyword text : String) → starts_with keyword text ≡ true → occurs keyword text ≡ true
starts_occurs String.[] String.[] h = refl
starts_occurs (String.◌∷◌ c keyword) String.[] h = cc
starts_occurs keyword (String.◌∷◌ d text) h = rw h refl

occurs_complete :
    (keyword before after : String) → occurs keyword (before <> (keyword <> after)) ≡ true
occurs_complete keyword String.[] after =
    starts_occurs keyword (keyword <> after) (starts_complete keyword after)
occurs_complete keyword (String.◌∷◌ d before) after =
    ground (arith, occurs_complete keyword before after)

occurs_iff :
    (keyword question : String) → (occurs keyword question ≡ true) ↔ Within keyword question
occurs_iff keyword question = (
  occurs_sound keyword question,
  λ (before, after, e). rw e (occurs_complete keyword before after),
)

contains_any_iff :
    (question : String) (keywords : List String)
    → (contains_any question keywords ≡ true) ↔ Mentions question keywords
unfolding contains_any
contains_any_iff question [] = (λ h. cc h, λ m. absurd m)
contains_any_iff question (k ∷ keywords) = (
  λ h. elim (Bool-cases (occurs k question)) [
    | inl here ↦ inl ((occurs_iff k question).0 here)
    | inr later ↦ inr ((contains_any_iff question keywords).0 (rw later at h))
  ],
  λ m. elim m [
    | inl here ↦ rw ((occurs_iff k question).1 here) refl
    | inr later ↦ ground (arith, (contains_any_iff question keywords).1 later)
  ],
)

score_zero :
    (question : String) (keywords : List String)
    → (score question keywords == 0) ≡ not (contains_any question keywords)
unfolding score contains_any
score_zero question [] = refl
score_zero question (k ∷ keywords) = elim (Bool-cases (occurs k question)) [
  | inl here ↦ rw here (ground arith)
  | inr later ↦ rw later (ground (arith, score_zero question keywords))
]

score_positive :
    (question : String) (keywords : List String)
    → ltb 0 (score question keywords) ≡ contains_any question keywords
score_positive question keywords = ground (arith, score_zero question keywords)

-- The decision by whether the question is blank and what it mentions.
abbrev decided : Bool → Bool → Bool → Bool → Bool → Option AgentRoute
decided true non_business orders payments strong = some unsupported
decided false true orders payments strong = some unsupported
decided false false false false strong = none
decided false false false true strong = some payment
decided false false true false strong = some order
decided false false true true true = some payment
decided false false true true false = none

rule_route-decided :
    (question : String)
    → rule_route question
      ≡ decided
          (str_eq question "")
          (contains_any question non_business_keywords)
          (contains_any question order_keywords)
          (contains_any question payment_keywords)
          (contains_any question payment_strong_keywords)
unfolding rule_route
rule_route-decided question =
    rw
      (
        score_positive question payment_keywords,
        score_positive question order_keywords,
        score_zero question payment_keywords,
        score_zero question order_keywords,
      )
      (ground arith)

module _ (e n o p s : Bool) {E N O P S : Type 0} (blank : (e ≡ true) ↔ E) (other : (n ≡ true) ↔ N)
    (orders : (o ≡ true) ↔ O) (payments : (p ≡ true) ↔ P) (strong : (s ≡ true) ↔ S) where
  sends_order : (decided e n o p s ≡ some order) ↔ ((¬ E) × (¬ N) × O × (¬ P))
  sends_order = ground arith

  sends_payment : (decided e n o p s ≡ some payment) ↔ ((¬ E) × (¬ N) × P × ((¬ O) ⊎ S))
  sends_payment = ground arith

  asks_model : (decided e n o p s ≡ none) ↔ ((¬ E) × (¬ N) × (((¬ O) × (¬ P)) ⊎ (O × P × (¬ S))))
  asks_model = ground arith

-- What the rules decide. A question goes to the order agent exactly when it is not blank, mentions no
-- other business and an order keyword but no payment keyword; to the payment agent exactly when it is
-- not blank, mentions no other business and a payment keyword, and no order keyword or a strong payment
-- keyword; the language model is asked exactly when it is not blank, mentions no other business, and
-- mentions neither kind of keyword, or both and no strong one.
pub rule_route_iff :
    (q : String)
    → ((rule_route q ≡ some order) ↔ (
        (q ≢ "")
        × (¬ Mentions q non_business_keywords)
        × Mentions q order_keywords
        × (¬ Mentions q payment_keywords)))
      × ((rule_route q ≡ some payment) ↔ (
          (q ≢ "")
          × (¬ Mentions q non_business_keywords)
          × Mentions q payment_keywords
          × ((¬ Mentions q order_keywords) ⊎ Mentions q payment_strong_keywords)))
      × ((rule_route q ≡ none) ↔ (
          (q ≢ "")
          × (¬ Mentions q non_business_keywords)
          × (((¬ Mentions q order_keywords) × (¬ Mentions q payment_keywords))
              ⊎ (Mentions q order_keywords
                  × Mentions q payment_keywords
                  × (¬ Mentions q payment_strong_keywords)))))
rule_route_iff q =
    let blank = eq_iff q "" in
    let other = contains_any_iff q non_business_keywords in
    let orders = contains_any_iff q order_keywords in
    let payments = contains_any_iff q payment_keywords in
    let strong = contains_any_iff q payment_strong_keywords in
    rw (rule_route-decided q) (
      sends_order _ _ _ _ _ blank other orders payments strong,
      sends_payment _ _ _ _ _ blank other orders payments strong,
      asks_model _ _ _ _ _ blank other orders payments strong,
    )
