-- ===== src/Guard/Matching.antt =====
-- How a rule of internal/middlewares/endpoint_guard.py matches a request.
pub mod Segments
use Prim.Native.Char.{Char}
use agent_backend.Prelude.{
  String, Bool, true, false, ◌&&◌, ◌||◌, List, [], ◌∷◌, ◌==◌, str_eq, if◌then◌else◌, length,
  starts_with, ends_with, ◌<>◌,
}
use agent_backend.Retrieval.Paths.{split}
use agent_backend.Guard.{Rule, Web, MatchType, exact, prefix, glob, template, is_listed}

-- `_method_matches`
unfoldable pub method_matches : Web → List String → String → Bool
method_matches web rule_methods method =
    is_listed "*" rule_methods
    || is_listed (web.upper method) rule_methods
    || (str_eq (web.upper method) "HEAD" && is_listed "GET" rule_methods)

-- `_prefix_matches`
abbrev pub prefix_matches : String → String → Bool
prefix_matches rule_path path =
    str_eq path rule_path
    || (if ends_with "/" rule_path
        then starts_with rule_path path
        else starts_with (rule_path <> "/") path)

abbrev is_slash : Char → Bool
is_slash c = str_eq (String.◌∷◌ c String.[]) "/"

-- `path.strip("/")`, from the left and from the right.
abbrev pub strip_left : String → String
strip_left String.[] = ""
strip_left (String.◌∷◌ c s) = let rest = strip_left s in if is_slash c then rest else String.◌∷◌ c s

abbrev pub strip_right : String → String
strip_right String.[] = ""
strip_right (String.◌∷◌ c s) =
    let rest = strip_right s in if is_slash c && str_eq rest "" then "" else String.◌∷◌ c rest

abbrev pub non_empty_only : List String → List String
non_empty_only [] = []
non_empty_only (s ∷ ss) = let rest = non_empty_only ss in if str_eq s "" then rest else s ∷ rest

-- `_split_path`
unfoldable pub split_path : String → List String
split_path path = non_empty_only (split "/" (strip_right (strip_left path)))

abbrev pub is_placeholder : String → Bool
is_placeholder segment = starts_with "{" segment && ends_with "}" segment

-- The loop over `zip(rule_segments, request_segments, strict=True)`.
abbrev pub segments_match : List String → List String → Bool
segments_match [] _ = true
segments_match (r ∷ rs) [] = true
segments_match (r ∷ rs) (s ∷ ss) =
    let rest = segments_match rs ss in
    if is_placeholder r
    then (if str_eq s "" then false else rest)
    else if str_eq r s
    then rest
    else false

-- `_template_matches`
unfoldable pub template_matches : String → String → Bool
template_matches rule_path path =
    (length (split_path rule_path) == length (split_path path))
    && segments_match (split_path rule_path) (split_path path)

abbrev pub type_matches : Web → MatchType → String → String → Bool
type_matches web exact rule_path path = str_eq path rule_path
type_matches web prefix rule_path path = prefix_matches rule_path path
type_matches web glob rule_path path = web.fnmatchcase path rule_path
type_matches web template rule_path path = template_matches rule_path path

abbrev pub path_matches : Web → Rule → String → Bool
path_matches web rule path = type_matches web rule.match_type rule.path path

-- `_rule_matches`
unfoldable pub rule_matches : Web → Rule → String → String → Bool
rule_matches web rule method path =
    method_matches web rule.methods method && path_matches web rule path
