-- ===== src/Guard/Providers.antt =====
-- The providers of the rules in internal/middlewares/endpoint_guard.py. A provider's answer is
-- `none` where it raises `EndpointGuardProviderError`.
pub mod LastGood
use agent_backend.Prelude.{
  ℤ, pos_part, ℕ, ◌-◌, String, Bool, true, false, ◌&&◌, ltb, Option, none, some, List, [], ◌∷◌,
  ◌++◌, if◌then◌else◌, Result, ok, err, ◌>>=◌,
}
use agent_backend.Guard.{Rule, Web, Source, absent, text, parse_endpoint_guard_rules}

-- The state of `RedisEndpointGuardRuleProvider`; times are those of the monotonic clock.
pub record RedisProvider : Type 0 where
  pub redis_key : String
  pub cache_ttl : ℕ
  pub fail_open : Bool
  pub cached_rules : List Rule
  pub has_last_good : Bool
  pub last_loaded_at : ℕ

abbrev source_of : Option String → Source
source_of none = absent
source_of (some payload) = text payload

-- The `try` block: the payload that is read, or the error of the cache, and its parse.
abbrev pub load_rules : Web → Result (Option String) → Result (List Rule)
load_rules web read = do payload ← read; parse_endpoint_guard_rules web (source_of payload)

abbrev pub is_fresh : ℕ → RedisProvider → Bool
is_fresh now p = p.has_last_good && (ltb 0 p.cache_ttl && ltb (now - p.last_loaded_at) p.cache_ttl)

abbrev pub after_load : ℕ → Result (List Rule) → RedisProvider → Option (List Rule) × RedisProvider
after_load now (ok rules) p =
    (some rules, record p { cached_rules = rules; has_last_good = true; last_loaded_at = now })
after_load now (err _) p =
    if p.has_last_good
    then (some p.cached_rules, p)
    else if p.fail_open
    then (some [], p)
    else (none, p)

-- `RedisEndpointGuardRuleProvider.get_rules`, with what the cache answers if it is asked.
unfoldable pub redis_get_rules :
    Web → ℕ → Result (Option String) → RedisProvider → Option (List Rule) × RedisProvider
redis_get_rules web now read p =
    if is_fresh now p then (some p.cached_rules, p) else after_load now (load_rules web read) p

-- StaticEndpointGuardRuleProvider and RedisEndpointGuardRuleProvider.
pub data Provider : Type 0 where
  static : List Rule → Provider
  redis : RedisProvider → Provider

-- `StaticEndpointGuardRuleProvider(rules)`
abbrev new_static : Web → Source → Result Provider
new_static web rules = do parsed ← parse_endpoint_guard_rules web rules; ok (static parsed)

abbrev get_rules :
    Web → ℕ → (String → Result (Option String)) → Provider → Option (List Rule) × Provider
get_rules web now cache (static rules) = (some rules, static rules)
get_rules web now cache (redis p) =
    let answer = redis_get_rules web now (cache p.redis_key) p in (answer.0, redis answer.1)

abbrev add_rules : List Rule → Option (List Rule) → Option (List Rule)
add_rules rules none = none
add_rules rules (some more) = some (rules ++ more)

abbrev after_provider :
    Option (List Rule) × Provider
    → List Provider
    → Option (List Rule) × List Provider
    → Option (List Rule) × List Provider
after_provider (none, p) untouched rest = (none, p ∷ untouched)
after_provider (some rules, p) untouched rest = (add_rules rules rest.0, p ∷ rest.1)

-- `CompositeEndpointGuardRuleProvider.get_rules`: the first provider that raises ends the loop.
unfoldable composite_get_rules :
    Web → ℕ → (String → Result (Option String)) → List Provider → Option (List Rule) × List Provider
composite_get_rules web now cache [] = (some [], [])
composite_get_rules web now cache (p ∷ ps) =
    after_provider (get_rules web now cache p) ps (composite_get_rules web now cache ps)

-- EndpointGuardSource
pub data GuardSource : Type 0 where
  settings redis settings_and_redis : GuardSource

-- `RedisEndpointGuardRuleProvider(...)`, where a time to live below zero counts as zero.
abbrev new_redis : String → ℤ → Bool → RedisProvider
new_redis redis_key cache_ttl_seconds fail_open = record {
  redis_key = redis_key;
  cache_ttl = pos_part cache_ttl_seconds;
  fail_open = fail_open;
  cached_rules = [];
  has_last_good = false;
  last_loaded_at = 0;
}

-- `new_endpoint_guard_rule_provider`, as the list of the providers that are asked: the code takes one
-- provider alone, and a composite of more.
abbrev new_endpoint_guard_rule_provider :
    Web → GuardSource → Source → RedisProvider → Result (List Provider)
new_endpoint_guard_rule_provider web GuardSource.settings rules p = do
  provider ← new_static web rules
  ok (provider ∷ [])
new_endpoint_guard_rule_provider web GuardSource.redis rules p = ok (Provider.redis p ∷ [])
new_endpoint_guard_rule_provider web GuardSource.settings_and_redis rules p = do
  provider ← new_static web rules
  ok (provider ∷ Provider.redis p ∷ [])
