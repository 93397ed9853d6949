-- ===== src/Context/Values.antt =====
-- The texts and values of pkg/vectors/context_assembly.py that headers show.
use agent_backend.Prelude.{
  ℕ, String, Bool, true, false, ◌&&◌, pos, Option, none, some, List, [], ◌∷◌, str_eq, if◌then◌else◌,
  ◌<>◌, Result, ok, err, type_error,
}
use agent_backend.Json.{Value, Items, nil, cons, null, int, float, str, arr, obj}
use agent_backend.Retrieval.{SearchHit, CollapsedSearchHit}
use agent_backend.Retrieval.Paths.{split, optional_text, optional_float, walk, resolve_hit_value}
use agent_backend.Context.{Texts, AssemblyConfig}

-- `_normalize_text`
unfoldable pub normalize_text : AssemblyConfig → Texts → Option String → String
normalize_text config py none = ""
normalize_text config py (some text) =
    if str_eq text ""
    then ""
    else if config.normalize_whitespace
    then py.squeeze_newlines (py.strip text)
    else py.strip text

abbrev non_empty : String → Option String
non_empty text = if str_eq text "" then none else some text

-- `_coerce_text`
unfoldable pub coerce_text : AssemblyConfig → Texts → Value → Option String
coerce_text config py null = none
coerce_text config py v = non_empty (normalize_text config py (some (py.python.text_of v)))

abbrev ids_value : List ℕ → Items
ids_value [] = nil
ids_value (id ∷ ids) = cons (int (pos id)) (ids_value ids)

-- `getattr(document, name, None)`
abbrev document_attribute : Texts → CollapsedSearchHit → String → Value
document_attribute py d name =
    if str_eq name "document_key"
    then d.document_key
    else if str_eq name "primary_hit_id"
    then int (pos d.primary_hit_id)
    else if str_eq name "hit_count"
    then int (pos d.hit_count)
    else if str_eq name "chunk_ids"
    then arr (ids_value d.chunk_ids)
    else if str_eq name "text"
    then optional_text d.text
    else if str_eq name "metadata"
    then obj d.metadata
    else if str_eq name "payload"
    then obj d.payload
    else if str_eq name "retrieval_mode"
    then optional_text d.retrieval_mode
    else if str_eq name "relevance_score"
    then optional_float d.relevance_score
    else if str_eq name "raw_score"
    then optional_float d.raw_score
    else if str_eq name "chunks"
    then py.list_value d.chunks
    else py.python.class_attribute name

abbrev walk_document : Texts → CollapsedSearchHit → List String → Value
walk_document py d [] = null
walk_document py d (part ∷ parts) = walk py.python (document_attribute py d part) parts

-- `_resolve_value` of a hit, and of a document.
unfoldable pub resolve_chunk_value : Texts → SearchHit → String → Value
resolve_chunk_value py hit field_path = resolve_hit_value py.python hit field_path

abbrev value_or : Value → Value → Value
value_or null next = next
value_or v next = v

abbrev first_in_document : Texts → CollapsedSearchHit → List String → Value → Value
first_in_document py d [] next = next
first_in_document py d (path ∷ paths) next =
    value_or (walk_document py d (split "." path)) (first_in_document py d paths next)

abbrev first_in_chunks : Texts → String → List SearchHit → Value → Value
first_in_chunks py path [] next = next
first_in_chunks py path (chunk ∷ chunks) next =
    value_or (resolve_chunk_value py chunk path) (first_in_chunks py path chunks next)

abbrev first_of_paths : Texts → List SearchHit → List String → Value
first_of_paths py chunks [] = null
first_of_paths py chunks (path ∷ paths) =
    first_in_chunks py path chunks (first_of_paths py chunks paths)

-- `_resolve_document_value`
unfoldable pub resolve_document_value : Texts → CollapsedSearchHit → List String → Value
resolve_document_value py d field_paths =
    first_in_document py d field_paths (first_of_paths py d.chunks field_paths)

abbrev is_number : Value → Bool
is_number (int _) = true
is_number (float _) = true
is_number _ = false

abbrev all_of {ℓ} : {A : Type ℓ} → (A → Bool) → List A → Bool
all_of test [] = true
all_of test (x ∷ xs) = test x && all_of test xs

-- `min` and `max`, which keep the first of equals.
abbrev least_value : Texts → Value → List Value → Value
least_value py best [] = best
least_value py best (v ∷ vs) = least_value py (if py.number_less v best then v else best) vs

abbrev greatest_value : Texts → Value → List Value → Value
greatest_value py best [] = best
greatest_value py best (v ∷ vs) = greatest_value py (if py.number_less best v then v else best) vs

-- `_format_range`, of a value and those after it.
abbrev format_range : Texts → Value → List Value → Value
format_range py v vs =
    if all_of is_number (v ∷ vs)
    then (let start = least_value py v vs in
        let last = greatest_value py v vs in
        if py.python.equal start last
        then start
        else str (py.python.text_of start <> ("-" <> py.python.text_of last)))
    else str (py.python.text_of v)

abbrev add_present : Value → List Value → List Value
add_present null vs = vs
add_present v vs = v ∷ vs

abbrev present : Texts → String → List SearchHit → List Value
present py path [] = []
present py path (hit ∷ hits) = add_present (resolve_chunk_value py hit path) (present py path hits)

-- One path's values: a set takes only hashable values, and has one element where all are equal.
abbrev common_value : Texts → Value → List Value → Result Value
common_value py v vs =
    if all_of py.is_hashable (v ∷ vs)
    then ok (if all_of (py.python.equal v) vs then v else format_range py v vs)
    else err type_error

abbrev value_or_next : Texts → List Value → Result Value → Result Value
value_or_next py [] next = next
value_or_next py (v ∷ vs) next = common_value py v vs

-- `_resolve_window_value`
unfoldable pub resolve_window_value : Texts → List SearchHit → List String → Result Value
resolve_window_value py hits [] = ok null
resolve_window_value py hits (path ∷ paths) =
    value_or_next py (present py path hits) (resolve_window_value py hits paths)
