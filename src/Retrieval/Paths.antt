-- ===== src/Retrieval/Paths.antt =====
-- The dotted paths by which pkg/vectors reads hits: `_resolve_hit_value` and `_resolve_value` of
-- post_retrieval.py and context_assembly.py.
use Prim.Native.Char.{Char}
use agent_backend.Prelude.{ℕ, String, Option, none, some, List, [], ◌∷◌, pos, str_eq, if◌then◌else◌}
use agent_backend.Json.{Value, null, int, str, obj, float, get}
use agent_backend.Retrieval.{SearchHit, Python}

abbrev add_char : Char → List String → List String
add_char c [] = String.◌∷◌ c String.[] ∷ []
add_char c (word ∷ words) = String.◌∷◌ c word ∷ words

-- `text.split(separator)`, for a separator of one character.
abbrev pub split : String → String → List String
split separator String.[] = "" ∷ []
split separator (String.◌∷◌ c text) =
    let rest = split separator text in
    if str_eq (String.◌∷◌ c String.[]) separator then "" ∷ rest else add_char c rest

abbrev pub optional_text : Option String → Value
optional_text none = null
optional_text (some s) = str s

abbrev pub optional_float : Option ℕ → Value
optional_float none = null
optional_float (some x) = float x

-- `getattr(hit, name, None)`
abbrev hit_attribute : Python → SearchHit → String → Value
hit_attribute py h name =
    if str_eq name "id"
    then int (pos h.id)
    else if str_eq name "text"
    then optional_text h.text
    else if str_eq name "metadata"
    then obj h.metadata
    else if str_eq name "payload"
    then obj h.payload
    else if str_eq name "retrieval_mode"
    then optional_text h.retrieval_mode
    else if str_eq name "relevance_score"
    then optional_float h.relevance_score
    else if str_eq name "raw_score"
    then optional_float h.raw_score
    else py.class_attribute name

-- One step from a value that is no hit: a dictionary's entry, or an attribute.
abbrev step_into : Python → Value → String → Value
step_into py (obj fields) name = get fields name
step_into py v name = py.attribute v name

abbrev pub walk : Python → Value → List String → Value
walk py null parts = null
walk py v [] = v
walk py v (part ∷ parts) = walk py (step_into py v part) parts

abbrev walk_from : Python → SearchHit → List String → Value
walk_from py h [] = null
walk_from py h (part ∷ parts) = walk py (hit_attribute py h part) parts

-- `_resolve_hit_value`
unfoldable pub resolve_hit_value : Python → SearchHit → String → Value
resolve_hit_value py h field_path = walk_from py h (split "." field_path)
