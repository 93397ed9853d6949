-- ===== src/Guard.antt =====
-- The endpoint guard of internal/middlewares/endpoint_guard.py: its rules, and how they are read.
pub mod Matching
pub mod Providers
pub mod Requests
use agent_backend.Prelude.{
  ℕ, String, Bool, true, false, not, ◌&&◌, ◌||◌, ltb, Option, none, some, List, [], ◌∷◌, map,
  str_eq, if◌then◌else◌, length, starts_with, Result, ok, err, ◌>>=◌, ◌>>◌, raise_if, value_error,
}
use agent_backend.Json.{Value, Items, Fields, nil, cons, null, str, arr, obj}

-- EndpointGuardMatchType
pub data MatchType : Type 0 where
  exact prefix glob template : MatchType

-- EndpointGuardError
pub data GuardError : Type 0 where
  disabled forbidden unavailable not_found : GuardError

-- EndpointGuardRule
pub record Rule : Type 0 where
  pub id : String
  pub enabled : Bool
  pub methods : List String
  pub path : String
  pub match_type : MatchType
  pub error : GuardError
  pub message : String
  pub reason : String
  pub expires_at : Option ℕ

-- The fields of a rule before the model's own validators: what the framework reads from a dictionary,
-- with the value that was given for the methods, if one was.
pub record RawRule : Type 0 where
  pub rule : Rule
  pub methods : Option Value

-- What the guard takes from Python and the framework: `strip`, `upper`, the text of a value, the JSON
-- parser, the reading of a dictionary into fields, and `fnmatch.fnmatchcase`.
pub record Web : Type 0 where
  pub strip : String → String
  pub upper : String → String
  pub text_of : Value → String
  pub loads : String → Result Value
  pub read_fields : Fields → Result RawRule
  pub fnmatchcase : String → String → Bool

abbrev texts_of : Web → Items → List String
texts_of web nil = []
texts_of web (cons v vs) = web.text_of v ∷ texts_of web vs

-- `_parse_methods`, which runs on a value that was given.
abbrev parse_methods : Web → Option Value → Result (List String)
parse_methods web none = ok ("*" ∷ [])
parse_methods web (some null) = ok ("*" ∷ [])
parse_methods web (some (str s)) = ok (s ∷ [])
parse_methods web (some (arr items)) = ok (texts_of web items)
parse_methods web (some _) = err value_error

abbrev pub is_listed : String → List String → Bool
is_listed name [] = false
is_listed name (n ∷ ns) = str_eq name n || is_listed name ns

abbrev trimmed : Web → List String → List String
trimmed web [] = []
trimmed web (method ∷ methods) =
    let rest = trimmed web methods in
    if str_eq (web.strip method) "" then rest else web.upper (web.strip method) ∷ rest

-- `_validate_methods`
abbrev validate_methods : Web → List String → Result (List String)
validate_methods web value =
    let methods = trimmed web value in
    do
      raise_if (ltb (length methods) 1) value_error
      raise_if (is_listed "*" methods && ltb 1 (length methods)) value_error
      ok methods

-- `_validate_path`
abbrev validate_path : Web → String → Result String
validate_path web value =
    let path = web.strip value in do raise_if (not (starts_with "/" path)) value_error; ok path

-- `EndpointGuardRule.model_validate`: the methods' default is not validated.
abbrev model_validate : Web → Fields → Result Rule
model_validate web fields = do
  raw ← web.read_fields fields
  path ← validate_path web raw.rule.path
  methods ← validated_methods web raw.methods
  ok (record raw.rule { methods = methods; path = path })
  where
    validated_methods : Web → Option Value → Result (List String)
    validated_methods web none = ok ("*" ∷ [])
    validated_methods web (some value) = do
      methods ← parse_methods web (some value)
      validate_methods web methods

-- An entry of the rules: a rule, a dictionary, or something else.
pub data Entry : Type 0 where
  ready : Rule → Entry
  raw : Value → Entry

abbrev parse_entry : Web → Entry → Result Rule
parse_entry web (ready rule) = ok rule
parse_entry web (raw (obj fields)) = model_validate web fields
parse_entry web (raw _) = err value_error

abbrev parse_entries : Web → List Entry → Result (List Rule)
parse_entries web [] = ok []
parse_entries web (entry ∷ entries) = do
  rule ← parse_entry web entry
  rules ← parse_entries web entries
  ok (rule ∷ rules)

abbrev raw_entries : Items → List Entry
raw_entries nil = []
raw_entries (cons v vs) = raw v ∷ raw_entries vs

abbrev parse_loaded : Web → Value → Result (List Rule)
parse_loaded web (arr items) = parse_entries web (raw_entries items)
parse_loaded web _ = err value_error

-- What rules are given as: nothing, a text, or a list.
pub data Source : Type 0 where
  absent : Source
  text : String → Source
  entries : List Entry → Source

-- `parse_endpoint_guard_rules`
unfoldable pub parse_endpoint_guard_rules : Web → Source → Result (List Rule)
parse_endpoint_guard_rules web absent = ok []
parse_endpoint_guard_rules web (entries given) = parse_entries web given
parse_endpoint_guard_rules web (text payload) =
    if str_eq payload "" then ok [] else do loaded ← web.loads payload; parse_loaded web loaded

abbrev pub not_expired : ℕ → Option ℕ → Bool
not_expired now none = true
not_expired now (some expires_at) = ltb now expires_at

-- `is_active`
abbrev pub is_active : ℕ → Rule → Bool
is_active now rule = rule.enabled && not_expired now rule.expires_at
