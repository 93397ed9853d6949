-- ===== src/Context/Assembly.antt =====
-- `DocumentContextAssembler.assemble` of pkg/vectors/context_assembly.py.
pub mod Budget
pub mod Cited
use agent_backend.Prelude.{
  ℕ, suc, ◌+◌, ◌-◌, String, Bool, true, false, not, ◌&&◌, Option, none, some, List, [], ◌∷◌, ◌++◌,
  map, ltb, leb, str_eq, if◌then◌else◌, length, take, ◌<>◌, text_length, Result, ok, err, ◌>>=◌,
  value_error,
}
use agent_backend.Json.{Value}
use agent_backend.Retrieval.{CollapsedSearchHit, RetrievalResult}
use agent_backend.Retrieval.Sorting.{total, count}
use agent_backend.Retrieval.Pipeline.{limit_documents}
use agent_backend.Context.{
  Texts, AssemblyConfig, AssembledContextWindow, AssembledDocumentContext, ContextAssemblyStats,
  ContextAssemblyResult,
}
use agent_backend.Context.Values.{coerce_text, resolve_document_value}
use agent_backend.Context.Windows.{build_windows, join, labelled, shown}
use agent_backend.Context.Fitting.{Fitted, fit_document_text}

abbrev shown_key : AssemblyConfig → Texts → Value → List String → List String
shown_key config py key parts =
    if config.header.include_document_key then ("key=" <> py.python.text_of key) ∷ parts else parts

abbrev shown_mode : AssemblyConfig → Option String → List String
shown_mode config mode =
    if config.header.include_retrieval_mode then labelled "mode=" mode [] else []

-- `_build_document_header`
unfoldable pub build_document_header :
    AssemblyConfig → Texts → CollapsedSearchHit → ℕ → Option String → Option String → Option String
build_document_header config py document document_index title source =
    if not config.header.enabled
    then none
    else some (
        "["
        <> (join " | " (
              ("Document " <> shown py document_index)
              ∷ shown_key config py document.document_key (
                  labelled "title=" title
                    (labelled "source=" source (shown_mode config document.retrieval_mode))))
            <> "]"))

-- The ids of the chunks of all windows.
abbrev pub chunk_ids_of : List AssembledContextWindow → List ℕ
chunk_ids_of [] = []
chunk_ids_of (w ∷ ws) = map (λ c. c.chunk_id) w.chunks ++ chunk_ids_of ws

abbrev pub document_context :
    CollapsedSearchHit
    → Option String
    → Option String
    → Option String
    → Fitted
    → AssembledDocumentContext
document_context document header title source fitted = record {
  document_key = document.document_key;
  text = fitted.text;
  header = header;
  title = title;
  source = source;
  retrieval_mode = document.retrieval_mode;
  relevance_score = document.relevance_score;
  raw_score = document.raw_score;
  chunk_ids = chunk_ids_of fitted.windows;
  windows = fitted.windows;
  metadata = document.metadata;
  payload = document.payload;
  truncated = fitted.truncated;
}

-- `not header and not windows`
abbrev pub is_nothing : Option String → List AssembledContextWindow → Bool
is_nothing header (w ∷ ws) = false
is_nothing none [] = true
is_nothing (some header) [] = str_eq header ""

-- A document without a header and windows, or without text, is left out.
abbrev pub unless_empty :
    Option String
    → List AssembledContextWindow
    → AssembledDocumentContext
    → Option AssembledDocumentContext
unless_empty header windows d =
    if is_nothing header windows then none else if str_eq d.text "" then none else some d

-- `_assemble_document`
unfoldable pub assemble_document :
    AssemblyConfig
    → Texts
    → CollapsedSearchHit
    → ℕ
    → Option ℕ
    → Result (Option AssembledDocumentContext)
assemble_document config py document document_index char_budget = do
  windows ← build_windows config py document
  let title = coerce_text config py (resolve_document_value py document config.header.title_fields)
  let source =
      coerce_text config py (resolve_document_value py document config.header.source_fields)
  let header = build_document_header config py document document_index title source
  let fitted = fit_document_text config py header windows char_budget
  ok (unless_empty header windows (document_context document header title source fitted))

abbrev lesser : ℕ → ℕ → ℕ
lesser a b = if ltb b a then b else a

abbrev pub tighter : Option ℕ → ℕ → ℕ
tighter none available = available
tighter (some budget) available = lesser budget available

-- `_resolve_document_budget`
abbrev pub resolve_document_budget : AssemblyConfig → Option ℕ → String → Option ℕ
resolve_document_budget config none separator = config.budget.max_document_chars
resolve_document_budget config (some remaining) separator =
    some (tighter config.budget.max_document_chars (remaining - text_length separator))

-- `budget is not None and budget <= 0`
abbrev pub is_spent : Option ℕ → Bool
is_spent none = false
is_spent (some chars) = leb chars 0

abbrev pub spend : Option ℕ → ℕ → Option ℕ
spend none chars = none
spend (some remaining) chars = some (remaining - chars)

-- What the loop has made: `assembled_documents`, and `context_parts` joined.
pub record Assembled : Type 0 where
  pub documents : List AssembledDocumentContext
  pub text : String

abbrev add_document : String → AssembledDocumentContext → Assembled → Assembled
add_document separator d rest = record {
  documents = d ∷ rest.documents;
  text = (separator <> d.text) <> rest.text;
}

abbrev pub separator_after : AssemblyConfig → Bool → String
separator_after config is_first = if is_first then "" else config.document_separator

-- A turn of the loop after `_assemble_document` has returned, where `later` is the rest of the loop.
abbrev pub after_document :
    (Bool → Option ℕ → Result Assembled)
    → Bool
    → Option ℕ
    → String
    → Option AssembledDocumentContext
    → Result Assembled
after_document later is_first remaining separator none = later is_first remaining
after_document later is_first remaining separator (some d) =
    let left = spend remaining (text_length separator + text_length d.text) in
    if is_spent left
    then ok (add_document separator d (record { documents = []; text = "" }))
    else do rest ← later false left; ok (add_document separator d rest)

-- The loop, where `is_first` says that `context_parts` is empty.
abbrev pub assemble_documents :
    AssemblyConfig → Texts → ℕ → Bool → Option ℕ → List CollapsedSearchHit → Result Assembled
assemble_documents config py index is_first remaining [] = ok (record { documents = []; text = "" })
assemble_documents config py index is_first remaining (document ∷ documents) =
    let separator = separator_after config is_first in
    let available_chars = resolve_document_budget config remaining separator in
    if is_spent available_chars then ok (record { documents = []; text = "" }) else do
      assembled ← assemble_document config py document index available_chars
      after_document (λ first left. assemble_documents config py (suc index) first left documents)
          is_first remaining separator assembled

-- `result.documents if result is not None else documents or []`, of arguments of which one is given.
abbrev pub source_documents :
    Option RetrievalResult → Option (List CollapsedSearchHit) → Result (List CollapsedSearchHit)
source_documents none none = err value_error
source_documents (some result) (some documents) = err value_error
source_documents (some result) none = ok result.documents
source_documents none (some documents) = ok documents

-- `assemble`
unfoldable pub assemble :
    AssemblyConfig
    → Texts
    → Option RetrievalResult
    → Option (List CollapsedSearchHit)
    → Result ContextAssemblyResult
assemble config py result documents = do
  given ← source_documents result documents
  let kept = limit_documents config.budget.max_documents given
  assembled ← assemble_documents config py 1 true config.budget.max_total_chars kept
  ok (record {
    documents = assembled.documents;
    context_text = assembled.text;
    stats = record {
      input_document_count = length given;
      returned_document_count = length assembled.documents;
      input_chunk_count = total (λ d. length d.chunks) given;
      returned_chunk_count = total (λ d. length d.chunk_ids) assembled.documents;
      window_count = total (λ d. length d.windows) assembled.documents;
      truncated_document_count = count (λ d. d.truncated) assembled.documents;
      truncated_window_count = total (λ d. count (λ w. w.truncated) d.windows) assembled.documents;
    };
  })
