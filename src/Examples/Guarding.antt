-- ===== src/Examples/Guarding.antt =====
-- The theorems on the endpoint guard at two sample rules.
use agent_backend.Prelude.{
  AppError, ◌≡◌, refl, ◌↔◌, true, false, none, some, [], ◌∷◌, All, ok, err, value_error,
}
use agent_backend.Guard.{Rule, Web, template, disabled, forbidden, parse_endpoint_guard_rules}
use agent_backend.Guard.Matching.{split_path, template_matches, method_matches, rule_matches}
use agent_backend.Guard.Providers.{RedisProvider, redis_get_rules}
use agent_backend.Guard.Providers.LastGood.{after, Answers, redis_get_rules-Answers}
use agent_backend.Guard.Requests.{Request, passed, raised, handle}
use agent_backend.Guard.Requests.Refusal.{Refuses, Reports}
use agent_backend.Guard.Requests.Decision.{IsFirst, handle_iff}

abbrev web : Web
web = record {
  strip = λ s. s;
  upper = λ s. s;
  text_of = λ v. "?";
  loads = λ s. err value_error;
  read_fields = λ fields. err value_error;
  fnmatchcase = λ path pattern. false;
}

abbrev over : Rule
over = record {
  id = "over";
  enabled = true;
  methods = "*" ∷ [];
  path = "/runs/{id}";
  match_type = template;
  error = disabled;
  message = "";
  reason = "";
  expires_at = some 50;
}

abbrev no_runs : Rule
no_runs = record over { id = "no_runs"; methods = "GET" ∷ []; error = forbidden; expires_at = none }

abbrev request : Request
request = record { is_http = true; method = "HEAD"; path = "//runs/7/" }

-- Doubled and closing slashes make no difference.
matches_here : template_matches "/runs/{id}" "//runs/7/" ≡ true
unfolding template_matches split_path
matches_here = refl

handle_iff_example :
    ((handle web true 60 request (some (over ∷ no_runs ∷ [])) ≡ passed)
      ↔ All (λ r. ¬ Refuses web 60 request r) (over ∷ no_runs ∷ []))
    × ((handle web true 60 request (some (over ∷ no_runs ∷ []))
          ≡ raised AppError.forbidden "endpoint access forbidden")
        ↔ ((rule : Rule) × IsFirst web 60 request (over ∷ no_runs ∷ []) rule
            × Reports rule AppError.forbidden "endpoint access forbidden"))
handle_iff_example =
    handle_iff web true 60 request (over ∷ no_runs ∷ []) AppError.forbidden
      "endpoint access forbidden" (refl, refl, refl)

-- A rule for GET covers HEAD; the other one has run out.
second_refuses :
    handle web true 60 request (some (over ∷ no_runs ∷ []))
    ≡ raised AppError.forbidden "endpoint access forbidden"
unfolding handle rule_matches method_matches template_matches split_path
second_refuses = refl

abbrev provider : RedisProvider
provider = record {
  redis_key = "rules";
  cache_ttl = 5;
  fail_open = false;
  cached_rules = [];
  has_last_good = false;
  last_loaded_at = 0;
}

redis_get_rules-Answers_example :
    Answers web false
      ((9, err value_error) ∷ (2, ok none) ∷ [])
      (redis_get_rules web 9 (err value_error) (after web ((2, ok none) ∷ []) provider)).0
redis_get_rules-Answers_example =
    redis_get_rules-Answers web provider ((2, ok none) ∷ []) 9 (err value_error) refl

-- Without a cached payload there are no rules, and they are kept when the cache fails.
kept_rules :
    (redis_get_rules web 9 (err value_error) (after web ((2, ok none) ∷ []) provider)).0 ≡ some []
unfolding redis_get_rules parse_endpoint_guard_rules
kept_rules = refl
