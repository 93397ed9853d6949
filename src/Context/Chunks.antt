-- ===== src/Context/Chunks.antt =====
-- The chunks of a document in their order: `_resolve_chunks` of pkg/vectors/context_assembly.py and
-- what it calls.
use mathlib.Core.Option.{map as map_option}
use agent_backend.Prelude.{
  ℕ, suc, String, Bool, true, false, ◌&&◌, ◌||◌, ◌==◌, ltb, Option, none, some, List, [], ◌∷◌,
  str_eq, if◌then◌else◌, Result, ok, ◌>>=◌, ◌>>◌, raise_if, type_error,
}
use agent_backend.Json.{Value, bool, int, float, str}
use agent_backend.Retrieval.{SearchHit}
use agent_backend.Retrieval.Sorting.{sort}
use agent_backend.Retrieval.Collapse.{is_scalar}
use agent_backend.Context.{Texts, AssemblyConfig}
use agent_backend.Context.Values.{normalize_text, resolve_chunk_value}

-- The second entry of a sort key; an integer is kept as the float that it is compared as.
pub data SortValue : Type 0 where
  number : ℕ → SortValue
  text : String → SortValue

pub record ResolvedChunk : Type 0 where
  pub hit : SearchHit
  pub normalized_text : String
  pub order_field : Option String
  pub order_value : Option Value
  pub sort_group : ℕ
  pub sort_value : SortValue
  pub original_index : ℕ

abbrev first_scalar : Texts → SearchHit → List String → Option (String × Value)
first_scalar py hit [] = none
first_scalar py hit (path ∷ paths) =
    if is_scalar (resolve_chunk_value py hit path)
    then some (path, resolve_chunk_value py hit path)
    else first_scalar py hit paths

-- `_resolve_order_value`: the field and its value, which are both there or both `None`.
unfoldable pub resolve_order_value : AssemblyConfig → Texts → SearchHit → Option (String × Value)
resolve_order_value config py hit = first_scalar py hit config.window.order_fields

abbrev one_of : Bool → ℕ
one_of true = 1
one_of false = 0

-- `_try_parse_number`
abbrev try_parse_number : Texts → String → Option ℕ
try_parse_number py value =
    if str_eq (py.strip value) "" then none else py.parse_float (py.strip value)

abbrev text_key : Option ℕ → String → ℕ × SortValue
text_key none value = (1, text value)
text_key (some x) value = (0, number x)

abbrev float_key : ℕ → ℕ × SortValue
float_key x = (0, number x)

abbrev key_of_value : Texts → Value → Result (ℕ × SortValue)
key_of_value py (bool b) = ok (1, number (py.small (one_of b)))
key_of_value py (int n) = do x ← py.float_of n; ok (float_key x)
key_of_value py (float x) = ok (float_key x)
key_of_value py (str value) = ok (text_key (try_parse_number py value) value)
key_of_value py _ = ok (2, number (py.small 0))

-- `_build_sort_key`
unfoldable pub build_sort_key : Texts → Option (String × Value) → Result (ℕ × SortValue)
build_sort_key py none = ok (2, number (py.small 0))
build_sort_key py (some (order_field, order_value)) = key_of_value py order_value

abbrev pub resolve_chunk : AssemblyConfig → Texts → ℕ → SearchHit → Result ResolvedChunk
resolve_chunk config py index hit =
    let order = resolve_order_value config py hit in
    do
      key ← build_sort_key py order
      ok (record {
        hit = hit;
        normalized_text = normalize_text config py hit.text;
        order_field = map_option (λ o. o.0) order;
        order_value = map_option (λ o. o.1) order;
        sort_group = key.0;
        sort_value = key.1;
        original_index = index;
      })

-- `self._config.drop_empty_chunks and not text`
abbrev pub is_dropped : AssemblyConfig → Texts → SearchHit → Bool
is_dropped config py hit = config.drop_empty_chunks && str_eq (normalize_text config py hit.text) ""

abbrev pub resolve_hits : AssemblyConfig → Texts → ℕ → List SearchHit → Result (List ResolvedChunk)
resolve_hits config py index [] = ok []
resolve_hits config py index (hit ∷ hits) =
    let rest = resolve_hits config py (suc index) hits in
    if is_dropped config py hit
    then rest
    else do chunk ← resolve_chunk config py index hit; chunks ← rest; ok (chunk ∷ chunks)

abbrev value_less : Texts → SortValue → SortValue → Bool
value_less py (number x) (number y) = py.python.less x y
value_less py (text s) (text t) = py.text_less s t
value_less py _ _ = false

abbrev value_same : Texts → SortValue → SortValue → Bool
value_same py (number x) (number y) = py.python.same x y
value_same py (text s) (text t) = str_eq s t
value_same py _ _ = false

-- `<` of the tuples (sort_group, sort_value, original_index).
unfoldable pub chunk_less : Texts → ResolvedChunk → ResolvedChunk → Bool
chunk_less py a b =
    if a.sort_group == b.sort_group
    then (if value_same py a.sort_value b.sort_value
        then ltb a.original_index b.original_index
        else value_less py a.sort_value b.sort_value)
    else ltb a.sort_group b.sort_group

-- Whether a value is there in a group that Python cannot compare with `v`.
abbrev clashes : ℕ → SortValue → List ResolvedChunk → Bool
clashes group v [] = false
clashes group v (c ∷ cs) = ((c.sort_group == group) && differs v c.sort_value) || clashes group v cs
  where
    differs : SortValue → SortValue → Bool
    differs (number _) (text _) = true
    differs (text _) (number _) = true
    differs _ _ = false

abbrev pub is_mixed : List ResolvedChunk → Bool
is_mixed [] = false
is_mixed (c ∷ cs) = clashes c.sort_group c.sort_value cs || is_mixed cs

-- `sorted(...)`, least first. The comparisons that any sort makes connect all items of one group, so a
-- group that mixes numbers and texts raises a type error.
abbrev sort_chunks : Texts → List ResolvedChunk → Result (List ResolvedChunk)
sort_chunks py chunks = do
  raise_if (is_mixed chunks) type_error
  ok (sort (λ a b. chunk_less py b a) chunks)

-- `_resolve_chunks`
unfoldable pub resolve_chunks :
    AssemblyConfig → Texts → List SearchHit → Result (List ResolvedChunk)
resolve_chunks config py hits = do
  resolved_chunks ← resolve_hits config py 0 hits
  sort_chunks py resolved_chunks
