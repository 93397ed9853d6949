-- ===== src/Context/Windows.antt =====
-- The windows of adjacent chunks: `_should_merge_chunks` and `_build_windows` of
-- pkg/vectors/context_assembly.py.
mod Grouping
pub mod Partition
pub mod Cited
use agent_backend.Prelude.{
  occurs, ℕ, suc, String, Bool, true, false, not, ◌&&◌, ◌||◌, ltb, leb, pos, Option, none, some,
  List, [], ◌∷◌, ◌++◌, map, str_eq, if◌then◌else◌, length, ◌<>◌, is_none, Result, ok, err, ◌>>=◌,
  ◌>>◌, raise_if, value_error,
}
use agent_backend.Json.{Value, null, int, float}
use agent_backend.Retrieval.{SearchHit, CollapsedSearchHit}
use agent_backend.Retrieval.Collapse.{is_scalar}
use agent_backend.Context.{Texts, AssemblyConfig, AssembledContextChunk, AssembledContextWindow}
use agent_backend.Context.Values.{coerce_text, resolve_window_value}
use agent_backend.Context.Chunks.{ResolvedChunk, resolve_chunks}

-- `_supports_adjacency`
unfoldable pub supports_adjacency : Texts → String → Bool
supports_adjacency py order_field =
    occurs "chunk_index" (py.lower order_field)
    || occurs "position" (py.lower order_field)
    || occurs "order" (py.lower order_field)
    || occurs "seq" (py.lower order_field)
    || occurs "sequence" (py.lower order_field)

-- `float(value)` of an order value that is a number and no `bool`.
abbrev order_number : Texts → Option Value → Option (Result ℕ)
order_number py (some (int n)) = some (py.float_of n)
order_number py (some (float x)) = some (ok x)
order_number py _ = none

-- `0 <= gap <= adjacent_order_gap`
abbrev is_adjacent : AssemblyConfig → Texts → ℕ → ℕ → Bool
is_adjacent config py previous current =
    let gap = py.minus current previous in
    (py.python.less (py.small 0) gap || py.python.same (py.small 0) gap)
    && (py.python.less gap (py.small config.window.adjacent_order_gap)
        || py.python.same gap (py.small config.window.adjacent_order_gap))

abbrev by_gap : AssemblyConfig → Texts → Option (Result ℕ) → Option (Result ℕ) → Result Bool
by_gap config py none current = ok false
by_gap config py (some previous) none = ok false
by_gap config py (some previous) (some current) = do
  upper ← current
  lower ← previous
  ok (is_adjacent config py lower upper)

abbrev same_field : Texts → Option String → Option String → Bool
same_field py none current = false
same_field py (some previous) none = false
same_field py (some previous) (some current) =
    str_eq previous current && supports_adjacency py previous

-- `_should_merge_chunks`
unfoldable pub should_merge_chunks :
    AssemblyConfig → Texts → ResolvedChunk → ResolvedChunk → List ResolvedChunk → Result Bool
should_merge_chunks config py previous current current_window =
    if not config.window.merge_adjacent_chunks
    then ok false
    else if leb config.window.max_chunks_per_window (length current_window)
    then ok false
    else if same_field py previous.order_field current.order_field
    then by_gap config py (order_number py previous.order_value)
        (order_number py current.order_value)
    else ok false

-- The loop, where the current window is `before` and then `previous`, its last chunk.
abbrev pub group_chunks :
    AssemblyConfig
    → Texts
    → List ResolvedChunk
    → ResolvedChunk
    → List ResolvedChunk
    → Result (List (List ResolvedChunk))
group_chunks config py before previous [] = ok ((before ++ (previous ∷ [])) ∷ [])
group_chunks config py before previous (chunk ∷ chunks) = do
  merge ← should_merge_chunks config py previous chunk (before ++ (previous ∷ []))
  elim merge [
    | true ↦ group_chunks config py (before ++ (previous ∷ [])) chunk chunks
    | false ↦ do
      windows ← group_chunks config py [] chunk chunks
      ok ((before ++ (previous ∷ [])) ∷ windows)
  ]

abbrev pub group_windows :
    AssemblyConfig → Texts → List ResolvedChunk → Result (List (List ResolvedChunk))
group_windows config py [] = ok []
group_windows config py (chunk ∷ chunks) = group_chunks config py [] chunk chunks

-- `separator.join(parts)`
abbrev pub join : String → List String → String
join separator [] = ""
join separator (part ∷ parts) = join_more separator part parts
  where
    join_more : String → String → List String → String
    join_more separator part [] = part
    join_more separator part (next ∷ parts) = part <> (separator <> join_more separator next parts)

abbrev pub shown : Texts → ℕ → String
shown py n = py.python.text_of (int (pos n))

abbrev pub labelled : String → Option String → List String → List String
labelled label none parts = parts
labelled label (some s) parts = (label <> s) ∷ parts

abbrev shown_page : Texts → Value → List String
shown_page py null = []
shown_page py page = ("page=" <> py.python.text_of page) ∷ []

-- `_build_window_header`
unfoldable pub build_window_header :
    AssemblyConfig → Texts → ℕ → List ℕ → Option String → Value → Option String
build_window_header config py window_index chunk_ids section page =
    if not config.window.include_headers
    then none
    else some (
        "["
        <> (join " | " (
              ("Window " <> shown py window_index)
              ∷ ("chunks=" <> join "," (map (shown py) chunk_ids))
              ∷ labelled "section=" section (shown_page py page))
            <> "]"))

abbrev assembled_chunk : ResolvedChunk → AssembledContextChunk
assembled_chunk c = record {
  chunk_id = c.hit.id;
  text = c.normalized_text;
  metadata = c.hit.metadata;
  payload = c.hit.payload;
  order_field = c.order_field;
  order_value = c.order_value;
}

abbrev with_header : AssemblyConfig → Option String → String → String
with_header config none body = body
with_header config (some header) body = header <> (config.header_body_separator <> body)

-- The model's own check of `page`: a scalar or `None`.
abbrev pub is_page : Value → Bool
is_page null = true
is_page v = is_scalar v

abbrev pub assemble_window :
    AssemblyConfig → Texts → ℕ → List ResolvedChunk → Result AssembledContextWindow
assemble_window config py window_index grouped_chunks =
    let hits = map (λ c. c.hit) grouped_chunks in
    do
      section_value ← resolve_window_value py hits config.header.section_fields
      page ← resolve_window_value py hits config.header.page_fields
      let section = coerce_text config py section_value
      let header = build_window_header config py window_index (map (λ h. h.id) hits) section page
      raise_if (not (is_page page)) value_error
      ok (record {
        window_index = window_index;
        chunk_ids = map (λ h. h.id) hits;
        text =
            with_header config header
              (join config.window.chunk_separator (map (λ c. c.normalized_text) grouped_chunks));
        header = header;
        section = section;
        page = page;
        truncated = false;
        chunks = map assembled_chunk grouped_chunks;
      })

abbrev pub assemble_windows :
    AssemblyConfig → Texts → ℕ → List (List ResolvedChunk) → Result (List AssembledContextWindow)
assemble_windows config py window_index [] = ok []
assemble_windows config py window_index (window ∷ windows) = do
  first ← assemble_window config py window_index window
  rest ← assemble_windows config py (suc window_index) windows
  ok (first ∷ rest)

-- `_build_windows`
unfoldable pub build_windows :
    AssemblyConfig → Texts → CollapsedSearchHit → Result (List AssembledContextWindow)
build_windows config py document = do
  ordered_chunks ← resolve_chunks config py document.chunks
  windows ← group_windows config py ordered_chunks
  assemble_windows config py 1 windows
