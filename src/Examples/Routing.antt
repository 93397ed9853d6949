-- ===== src/Examples/Routing.antt =====
-- The theorem on the router's rules at a sample question.
use agent_backend.Prelude.{◌≡◌, refl, ◌≢◌, ◌↔◌, ◌⊎◌, some, none, String}
use agent_backend.Execution.Router.{
  contains_any, score, order_keywords, payment_keywords, payment_strong_keywords,
  non_business_keywords, rule_route,
}
use agent_backend.Execution.Routing.{rule_route_iff, Mentions}
use agent_backend.Execution.Checks.{order, payment}

abbrev invoice_question : String
invoice_question = "发票怎么开"

rule_route_iff_example :
    ((rule_route invoice_question ≡ some order) ↔ (
      (invoice_question ≢ "")
      × (¬ Mentions invoice_question non_business_keywords)
      × Mentions invoice_question order_keywords
      × (¬ Mentions invoice_question payment_keywords)))
    × ((rule_route invoice_question ≡ some payment) ↔ (
        (invoice_question ≢ "")
        × (¬ Mentions invoice_question non_business_keywords)
        × Mentions invoice_question payment_keywords
        × ((¬ Mentions invoice_question order_keywords)
            ⊎ Mentions invoice_question payment_strong_keywords)))
    × ((rule_route invoice_question ≡ none) ↔ (
        (invoice_question ≢ "")
        × (¬ Mentions invoice_question non_business_keywords)
        × (((¬ Mentions invoice_question order_keywords)
              × (¬ Mentions invoice_question payment_keywords))
            ⊎ (Mentions invoice_question order_keywords
                × Mentions invoice_question payment_keywords
                × (¬ Mentions invoice_question payment_strong_keywords)))))
rule_route_iff_example = rule_route_iff invoice_question

-- It goes to the order agent.
routed_to_order : rule_route invoice_question ≡ some order
unfolding rule_route score contains_any
routed_to_order = refl
