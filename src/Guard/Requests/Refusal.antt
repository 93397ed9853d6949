-- ===== src/Guard/Requests/Refusal.antt =====
-- When a rule of internal/middlewares/endpoint_guard.py refuses a request, and with what, without the
-- guard's own tests and tables.
use agent_backend.Prelude.{
  arith, ℕ, ◌≡◌, ◌≢◌, ◌<◌, ◌<>◌, <>-assoc, refl, sym, ◌∙◌, ◌↔◌, ◌⊎◌, inl, inr, Bool, true, false,
  Bool-cases, Option, none, some, List, [], ◌∷◌, ◌&&◌, ◌||◌, if◌then◌else◌, String, str_eq, eq_iff,
  starts_with, ends_with, starts_iff, ends_iff, AppError,
}
use agent_backend.Guard.{
  Rule, Web, MatchType, exact, prefix, glob, template, GuardError, is_listed, is_active,
  not_expired,
}
use agent_backend.Guard.Matching.{
  split_path, prefix_matches, method_matches, type_matches, path_matches, rule_matches,
}
use agent_backend.Guard.Matching.Segments.{Fits, template_matches_iff}
use agent_backend.Guard.Requests.{
  Request, error_for_rule, default_message, message_for_rule, applies,
}

-- The name is one of the listed ones.
abbrev pub Lists : List String → String → Type 0
Lists [] name = ⊥
Lists (n ∷ names) name = (name ≡ n) ⊎ Lists names name

-- The rule is for every method, for the request's, or for GET where the request's is HEAD.
abbrev pub MethodFits : Web → List String → String → Type 0
MethodFits web methods method =
    Lists methods "*"
    ⊎ Lists methods (web.upper method)
    ⊎ ((web.upper method ≡ "HEAD") × Lists methods "GET")

-- How a path fits the rule's: it is the same; it is the same, or begins with it and a slash; it is one
-- that `fnmatchcase` accepts; or its segments fit the template's.
abbrev pub PathFits : Web → MatchType → String → String → Type 0
PathFits web exact rule_path path = path ≡ rule_path
PathFits web prefix rule_path path =
    (path ≡ rule_path)
    ⊎ (((front : String) × (rule_path ≡ front <> "/"))
        × ((rest : String) × (path ≡ rule_path <> rest)))
    ⊎ ((rest : String) × (path ≡ rule_path <> ("/" <> rest)))
PathFits web glob rule_path path = web.fnmatchcase path rule_path ≡ true
PathFits web template rule_path path = Fits (split_path rule_path) (split_path path)

-- The rule is switched on and its time has not run out.
abbrev pub InForce : ℕ → Rule → Type 0
InForce now rule =
    (rule.enabled ≡ true)
    × ((rule.expires_at ≡ none) ⊎ ((t : ℕ) × (rule.expires_at ≡ some t) × (now < t)))

abbrev pub Refuses : Web → ℕ → Request → Rule → Type 0
Refuses web now request rule =
    InForce now rule
    × MethodFits web rule.methods request.method
    × PathFits web rule.match_type rule.path request.path

-- The error that is raised for each kind of rule, and the text for a rule without one of its own.
abbrev pub Reported : GuardError → AppError → String → Type 0
Reported GuardError.disabled e text =
    (e ≡ AppError.endpoint_disabled) × (text ≡ "endpoint is disabled")
Reported GuardError.forbidden e text =
    (e ≡ AppError.forbidden) × (text ≡ "endpoint access forbidden")
Reported GuardError.not_found e text = (e ≡ AppError.not_found) × (text ≡ "endpoint not found")
Reported GuardError.unavailable e text =
    (e ≡ AppError.service_unavailable) × (text ≡ "endpoint is temporarily unavailable")

-- The rule's own message stands in place of the text, if it has one.
abbrev pub Reports : Rule → AppError → String → Type 0
Reports rule e message =
    (text : String) × Reported rule.error e text
    × (((rule.message ≡ "") × (message ≡ text)) ⊎ ((rule.message ≢ "") × (message ≡ rule.message)))

is_listed_iff :
    (name : String) (names : List String) → (is_listed name names ≡ true) ↔ Lists names name
is_listed_iff name [] = (λ h. cc h, λ m. absurd m)
is_listed_iff name (n ∷ names) =
    let more = is_listed_iff name names in let same = eq_iff name n in ground arith

method_matches_iff :
    (web : Web) (methods : List String) (method : String)
    → (method_matches web methods method ≡ true) ↔ MethodFits web methods method
unfolding method_matches
method_matches_iff web methods method =
    let all = is_listed_iff "*" methods in
    let named = is_listed_iff (web.upper method) methods in
    let get = is_listed_iff "GET" methods in
    let head = eq_iff (web.upper method) "HEAD" in ground arith

and_true : (a b : Bool) → (a && b) ≡ true → (a ≡ true) × (b ≡ true)
and_true a b h = ground arith

str_differ : (a b : String) → a ≢ b → str_eq a b ≡ false
str_differ a b h = elim (Bool-cases (str_eq a b)) [
  | inl e ↦ absurd (h ((eq_iff a b).0 e))
  | inr e ↦ e
]

any_prefix :
    (same : Bool) {closed begins below : Bool}
    → (closed ≡ true) ⊎ (below ≡ true)
    → begins ≡ true
    → (same || (if closed then begins else below)) ≡ true
any_prefix same h b = ground arith

below_iff :
    (rule_path path : String)
    → (starts_with (rule_path <> "/") path ≡ true)
      ↔ ((rest : String) × (path ≡ rule_path <> ("/" <> rest)))
below_iff rule_path path = (
  λ h.
      let (rest, e) = (starts_iff (rule_path <> "/") path).0 h in
      (rest, e ∙ <>-assoc rule_path "/" rest),
  λ (rest, e). (starts_iff (rule_path <> "/") path).1 (rest, e ∙ sym (<>-assoc rule_path "/" rest)),
)

prefix_matches_iff :
    (web : Web) (rule_path path : String)
    → (prefix_matches rule_path path ≡ true) ↔ PathFits web prefix rule_path path
prefix_matches_iff web rule_path path =
    let same = eq_iff path rule_path in
    let closed = ends_iff "/" rule_path in
    let begins = starts_iff rule_path path in
    let below = below_iff rule_path path in
    (
      λ h. elim (Bool-cases (str_eq path rule_path)) [
        | inl e ↦ inl (same.0 e)
        | inr e ↦ elim (Bool-cases (ends_with "/" rule_path)) [
          | inl f ↦ inr (inl (closed.0 f, begins.0 (rw (e, f) at h)))
          | inr f ↦ inr (inr (below.0 (rw (e, f) at h)))
        ]
      ],
      λ m. elim m [
        | inl e ↦ rw (same.1 e) refl
        | inr (inl (c, b)) ↦ any_prefix (str_eq path rule_path) (inl (closed.1 c)) (begins.1 b)
        | inr (inr (rest, e)) ↦
            any_prefix (str_eq path rule_path) (inr (below.1 (rest, e))) (begins.1 ("/" <> rest, e))
      ],
    )

by_type :
    (web : Web) (type : MatchType) (rule_path path : String)
    → (type_matches web type rule_path path ≡ true) ↔ PathFits web type rule_path path
by_type web exact rule_path path = eq_iff path rule_path
by_type web prefix rule_path path = prefix_matches_iff web rule_path path
by_type web glob rule_path path = (λ h. h, λ h. h)
by_type web template rule_path path = template_matches_iff rule_path path

path_matches_iff :
    (web : Web) (rule : Rule) (path : String)
    → (path_matches web rule path ≡ true) ↔ PathFits web rule.match_type rule.path path
path_matches_iff web rule path = by_type web rule.match_type rule.path path

expiry :
    (now : ℕ) (enabled : Bool) (expires_at : Option ℕ)
    → ((enabled && not_expired now expires_at) ≡ true)
      ↔ ((enabled ≡ true) × ((expires_at ≡ none) ⊎ ((t : ℕ) × (expires_at ≡ some t) × (now < t))))
expiry now enabled none = ground arith
expiry now enabled (some t) = (
  λ h. let (on, later) = and_true enabled _ h in (on, inr (t, refl, ground arith)),
  λ (on, left). elim left [ inl e ↦ absurd cc e | inr (u, e, later) ↦ ground arith ],
)

not_expired_iff : (now : ℕ) (rule : Rule) → (is_active now rule ≡ true) ↔ InForce now rule
not_expired_iff now rule = expiry now rule.enabled rule.expires_at

-- The guard's test of a rule says whether the rule refuses the request.
pub applies_iff :
    (web : Web) (now : ℕ) (request : Request) (rule : Rule)
    → (applies web now request rule ≡ true) ↔ Refuses web now request rule
unfolding rule_matches
applies_iff web now request rule =
    let force = not_expired_iff now rule in
    let method = method_matches_iff web rule.methods request.method in
    let path = path_matches_iff web rule request.path in
    (
      λ h.
          let (a, b) = and_true (is_active now rule) _ h in
          let (m, p) = and_true (method_matches web rule.methods request.method) _ b in
          (force.0 a, method.0 m, path.0 p),
      λ (a, m, p). rw (force.1 a, method.1 m, path.1 p) refl,
    )

error_for_rule-Reported : (k : GuardError) → Reported k (error_for_rule k) (default_message k)
error_for_rule-Reported GuardError.disabled = (refl, refl)
error_for_rule-Reported GuardError.forbidden = (refl, refl)
error_for_rule-Reported GuardError.not_found = (refl, refl)
error_for_rule-Reported GuardError.unavailable = (refl, refl)

Reported-unique :
    (k : GuardError) (e : AppError) (text : String)
    → Reported k e text
    → (e ≡ error_for_rule k) × (text ≡ default_message k)
Reported-unique GuardError.disabled e text h = h
Reported-unique GuardError.forbidden e text h = h
Reported-unique GuardError.not_found e text h = h
Reported-unique GuardError.unavailable e text h = h

-- What the guard raises for a rule is what the rule reports, and nothing else is.
pub Reports-iff :
    (rule : Rule) (e : AppError) (message : String)
    → Reports rule e message ↔ ((e ≡ error_for_rule rule.error) × (message ≡ message_for_rule rule))
Reports-iff rule e message = (
  λ (text, told, own).
      let (same, texts) = Reported-unique rule.error e text told in
      (
        same,
        elim own [
          | inl (empty, m) ↦ rw ((eq_iff rule.message "").1 empty) (m ∙ texts)
          | inr (filled, m) ↦ rw (str_differ rule.message "" filled) m
        ],
      ),
  λ (same, m). (
    default_message rule.error,
    rw same (error_for_rule-Reported rule.error),
    elim (Bool-cases (str_eq rule.message "")) [
      | inl empty ↦ inl ((eq_iff rule.message "").0 empty, rw empty at m)
      | inr filled ↦ inr (λ e. absurd cc (filled, (eq_iff rule.message "").1 e), rw filled at m)
    ],
  ),
)
