-- ===== src/Execution/Router.antt =====
-- The router of internal/agents/router.py: `RuleBasedAgentRouter` and `HybridAgentRouter`. Python's
-- `strip().lower()` is a parameter.
use agent_backend.Prelude.{
  occurs, ℕ, ◌+◌, String, Bool, true, false, ◌&&◌, ◌||◌, Option, none, some, List, [], ◌∷◌, ◌==◌,
  ltb, str_eq, if◌then◌else◌, Result, ok,
}
use agent_backend.Execution.Checks.{AgentRoute, order, payment, unsupported}

abbrev pub order_keywords : List String
order_keywords =
    "订单" ∷ "物流" ∷ "快递" ∷ "签收" ∷ "退货" ∷ "售后" ∷ "退款金额" ∷ "退多少钱" ∷ "发票" ∷ "开票" ∷ "运单" ∷ "配送" ∷ []

abbrev pub payment_keywords : List String
payment_keywords =
    "支付" ∷ "付款" ∷ "付不了" ∷ "扣款" ∷ "重复扣" ∷ "收银台" ∷ "支付方式" ∷ "银行卡" ∷ "信用卡" ∷ "微信支付" ∷ "支付宝" ∷ "余额"
    ∷ "分期" ∷ "账单" ∷ "支付状态" ∷ []

abbrev pub payment_strong_keywords : List String
payment_strong_keywords =
    "支付" ∷ "付款" ∷ "扣款" ∷ "重复扣" ∷ "收银台" ∷ "银行卡" ∷ "信用卡" ∷ "微信支付" ∷ "支付宝" ∷ "分期" ∷ []

abbrev pub non_business_keywords : List String
non_business_keywords =
    "写一首诗" ∷ "写诗" ∷ "讲个笑话" ∷ "天气" ∷ "新闻" ∷ "翻译" ∷ "代码" ∷ "编程" ∷ "数据库" ∷ "系统设计" ∷ "架构" ∷ "面试" ∷ []

abbrev pub one_if : Bool → ℕ
one_if true = 1
one_if false = 0

-- `_score`
unfoldable pub score : String → List String → ℕ
score question [] = 0
score question (k ∷ keywords) = one_if (occurs k question) + score question keywords

-- `_contains_any`
unfoldable pub contains_any : String → List String → Bool
contains_any question [] = false
contains_any question (k ∷ keywords) = occurs k question || contains_any question keywords

-- `RuleBasedAgentRouter.route`, from the normalized question.
unfoldable pub rule_route : String → Option AgentRoute
rule_route normalized =
    let order_score = score normalized order_keywords in
    let payment_score = score normalized payment_keywords in
    if str_eq normalized ""
    then some unsupported
    else if contains_any normalized non_business_keywords
    then some unsupported
    else if order_score == 0 && payment_score == 0
    then none
    else if ltb 0 payment_score && order_score == 0
    then some payment
    else if ltb 0 order_score && payment_score == 0
    then some order
    else if contains_any normalized payment_strong_keywords
    then some payment
    else none

abbrev pub ask_llm :
    {V : Type 0}
    → (String → V → Result AgentRoute × V)
    → String
    → Option AgentRoute
    → V
    → Result AgentRoute × V
ask_llm llm question none v = llm question v
ask_llm llm question (some route) v = (ok route, v)

-- `HybridAgentRouter.route`
abbrev hybrid_route :
    {V : Type 0}
    → (String → String)
    → (String → V → Result AgentRoute × V)
    → String
    → V
    → Result AgentRoute × V
hybrid_route normalize llm question v = ask_llm llm question (rule_route (normalize question)) v
