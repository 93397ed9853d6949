-- ===== src/Examples/Assembling.antt =====
-- The theorems on the context assembly at a document of three chunks, two of them adjacent.
use agent_backend.Prelude.{
  map, ◌≤◌, type_error, ℕ, ◌-◌, ◌≡◌, refl, String, true, false, ◌==◌, ℤ, pos, negsuc, none, some,
  List, [], ◌∷◌, All, Result, ok, err, arith,
}
use agent_backend.Json.{Value, bool, null, int, str, end, field}
use agent_backend.Retrieval.{SearchHit, CollapsedSearchHit}
use agent_backend.Retrieval.Paths.{resolve_hit_value}
use agent_backend.Retrieval.Sorting.{sort, count}
use agent_backend.Context.{Texts, AssemblyConfig, AssembledContextWindow, ContextAssemblyResult}
use agent_backend.Context.Values.{
  normalize_text, coerce_text, resolve_chunk_value, resolve_document_value, resolve_window_value,
}
use agent_backend.Context.Chunks.{resolve_order_value, build_sort_key, chunk_less, resolve_chunks}
use agent_backend.Context.Windows.{
  supports_adjacency, should_merge_chunks, build_window_header, build_windows,
}
use agent_backend.Context.Windows.Partition.{
  IsSized, all_chunk_ids, counts_as, build_windows-partition,
}
use agent_backend.Context.Fitting.{truncate_text, Fitted, fit_document_text}
use agent_backend.Context.Fitting.Bounds.{RstripShrinks, fit_document_text_complete}
use agent_backend.Context.Assembly.{build_document_header, assemble_document, assemble}
use agent_backend.Context.Assembly.Budget.{WithinChars, assemble-bounded}
use agent_backend.Context.Assembly.Cited.{run-assemble}
use agent_backend.Retrieval.{RetrievalConfig, RetrievalResult, best_score, max}
use agent_backend.Retrieval.Dedup.{deduplicate_hits}
use agent_backend.Retrieval.Collapse.{resolve_document_key, collapse_hits}
use agent_backend.Retrieval.Ranking.{hit_less, document_less, sort_hits, sort_documents}
use agent_backend.Retrieval.Pipeline.{Query, run}
use agent_backend.Retrieval.Pipeline.Laws.{without_rerankers}
use agent_backend.Examples.Retrieving.{python}

abbrev natural_float : ℤ → Result ℕ
natural_float (pos n) = ok n
natural_float (negsuc n) = ok 0

abbrev texts : Texts
texts = record {
  python = python;
  strip = λ s. s;
  rstrip = λ s. s;
  lower = λ s. s;
  squeeze_newlines = λ s. s;
  text_less = λ s t. false;
  parse_float = λ s. none;
  float_of = natural_float;
  minus = λ x y. x - y;
  small = λ n. n;
  number_less = λ v w. false;
  is_hashable = λ v. true;
  list_value = λ hits. null;
}

abbrev config : AssemblyConfig
config = record {
  header = record {
    enabled = true;
    include_document_key = true;
    include_retrieval_mode = false;
    title_fields = "metadata.title" ∷ [];
    source_fields = [];
    section_fields = [];
    page_fields = [];
  };
  window = record {
    order_fields = "metadata.chunk_index" ∷ [];
    merge_adjacent_chunks = true;
    adjacent_order_gap = 1;
    max_chunks_per_window = 2;
    chunk_separator = " ";
    window_separator = "|";
    include_headers = false;
  };
  budget = record { max_documents = none; max_total_chars = some 34; max_document_chars = none };
  document_separator = "--";
  header_body_separator = ":";
  normalize_whitespace = true;
  drop_empty_chunks = true;
  ellipsis = "...";
}

abbrev chunk_at : ℕ → ℕ → String → SearchHit
chunk_at id place content = record {
  id = id;
  text = some content;
  metadata = field "chunk_index" (int (pos place)) end;
  payload = end;
  retrieval_mode = none;
  relevance_score = some 9;
  raw_score = none;
}

abbrev document : CollapsedSearchHit
document = record {
  document_key = str "a";
  primary_hit_id = 1;
  hit_count = 3;
  chunk_ids = 1 ∷ 2 ∷ 3 ∷ [];
  text = some "alpha";
  metadata = end;
  payload = end;
  retrieval_mode = none;
  relevance_score = some 9;
  raw_score = none;
  chunks = chunk_at 1 8 "alpha" ∷ chunk_at 2 1 "beta" ∷ chunk_at 3 2 "gamma" ∷ [];
}

abbrev nothing : ContextAssemblyResult
nothing = record {
  documents = [];
  context_text = "";
  stats = record {
    input_document_count = 0;
    returned_document_count = 0;
    input_chunk_count = 0;
    returned_chunk_count = 0;
    window_count = 0;
    truncated_document_count = 0;
    truncated_window_count = 0;
  };
}

abbrev returned {ℓ} : {A : Type ℓ} → A → Result A → A
returned otherwise (ok a) = a
returned otherwise (err _) = otherwise

abbrev sample_windows : List AssembledContextWindow
sample_windows = returned [] (build_windows config texts document)

sample_built : build_windows config texts document ≡ ok sample_windows
unfolding normalize_text coerce_text resolve_hit_value resolve_chunk_value resolve_window_value
    resolve_order_value build_sort_key chunk_less sort resolve_chunks supports_adjacency
    should_merge_chunks build_window_header build_windows
sample_built = refl

-- Adjacent chunks share a window.
windows_of_document : all_chunk_ids sample_windows ≡ 2 ∷ 3 ∷ 1 ∷ []
unfolding normalize_text coerce_text resolve_hit_value resolve_chunk_value resolve_window_value
    resolve_order_value build_sort_key chunk_less sort resolve_chunks supports_adjacency
    should_merge_chunks build_window_header build_windows
windows_of_document = refl

build_windows-partition_example :
    All (IsSized config) sample_windows
    × (count (λ id. id == 2) (all_chunk_ids sample_windows)
        ≡ count (counts_as config texts (λ id. id == 2)) document.chunks)
build_windows-partition_example =
    build_windows-partition config texts document (λ id. id == 2) (omega arith) sample_built

abbrev sample_context : ContextAssemblyResult
sample_context = returned nothing (assemble config texts none (some (document ∷ [])))

sample_assembled : assemble config texts none (some (document ∷ [])) ≡ ok sample_context
unfolding normalize_text coerce_text resolve_hit_value resolve_chunk_value resolve_document_value
    resolve_window_value resolve_order_value build_sort_key chunk_less sort resolve_chunks
    supports_adjacency should_merge_chunks build_window_header build_windows build_document_header
    truncate_text fit_document_text assemble_document assemble
sample_assembled = refl

-- The second window is cut to what the budget leaves.
text_of_context : sample_context.context_text ≡ "[Document ? | key=a]:beta gamma|al"
unfolding normalize_text coerce_text resolve_hit_value resolve_chunk_value resolve_document_value
    resolve_window_value resolve_order_value build_sort_key chunk_less sort resolve_chunks
    supports_adjacency should_merge_chunks build_window_header build_windows build_document_header
    truncate_text fit_document_text assemble_document assemble
text_of_context = refl

rstrip_shrinks : RstripShrinks texts
rstrip_shrinks s = omega arith

assemble-bounded_example :
    WithinChars config.budget.max_total_chars sample_context.context_text
    × All (λ d. WithinChars config.budget.max_document_chars d.text) sample_context.documents
assemble-bounded_example =
    assemble-bounded config texts rstrip_shrinks none (some (document ∷ [])) sample_assembled

abbrev fitted : Fitted
fitted = fit_document_text config texts (some "[a]") sample_windows (some 40)

fitted_whole : fitted.truncated ≡ false
unfolding normalize_text coerce_text resolve_hit_value resolve_chunk_value resolve_window_value
    resolve_order_value build_sort_key chunk_less sort resolve_chunks supports_adjacency
    should_merge_chunks build_window_header build_windows truncate_text fit_document_text
fitted_whole = refl

fit_document_text_complete_example : fitted.windows ≡ sample_windows
fit_document_text_complete_example =
    fit_document_text_complete config texts (some "[a]") sample_windows (some 40) (omega arith)
      fitted_whole

abbrev with_order : Value → SearchHit
with_order v = record (chunk_at 4 0 "delta") { metadata = field "chunk_index" v end }

-- Chunks whose orders are a Boolean and a text that is no number cannot be sorted.
mixed_orders :
    resolve_chunks config texts (with_order (bool true) ∷ with_order (str "x") ∷ [])
    ≡ err type_error
unfolding normalize_text resolve_hit_value resolve_chunk_value resolve_order_value build_sort_key
    resolve_chunks
mixed_orders = refl

abbrev gathering : RetrievalConfig
gathering = record {
  dedup = record { enabled = false; key_fields = []; keep_strategy = best_score };
  collapse = record {
    enabled = false;
    key_fields = [];
    max_chunks_per_document = 2;
    max_documents = none;
    score_aggregation = max;
    fallback_to_chunk_id = true;
  };
}

abbrev asked : Query
asked = record { text = none; vector = none }

abbrev nothing_found : RetrievalResult
nothing_found = record {
  hits = [];
  documents = [];
  stats = record {
    input_hit_count = 0;
    deduped_hit_count = 0;
    document_count = 0;
    returned_document_count = 0;
  };
}

abbrev found : RetrievalResult
found = returned nothing_found (run gathering without_rerankers python document.chunks asked)

abbrev cited_context : ContextAssemblyResult
cited_context = returned nothing (assemble config texts (some found) none)

run_found : run gathering without_rerankers python document.chunks asked ≡ ok found
unfolding run sort_hits sort_documents deduplicate_hits hit_less document_less sort collapse_hits
    resolve_document_key resolve_hit_value
run_found = refl

run_assembled : assemble config texts (some found) none ≡ ok cited_context
unfolding run sort_hits sort_documents deduplicate_hits hit_less document_less collapse_hits
    resolve_document_key normalize_text coerce_text resolve_hit_value resolve_chunk_value
    resolve_document_value resolve_window_value resolve_order_value build_sort_key chunk_less sort
    resolve_chunks supports_adjacency should_merge_chunks build_window_header build_windows
    build_document_header truncate_text fit_document_text assemble_document assemble
run_assembled = refl

run-assemble_example : All (λ d. All (λ id. id ≤ 3) d.chunk_ids) cited_context.documents
run-assemble_example =
    run-assemble (λ id. id ≤ 3) gathering config texts document.chunks asked (omega arith)
      (omega arith, (omega arith, (omega arith, tt))) run_found run_assembled

-- It cites the two hits that the document keeps, in their order.
cites_first : map (λ d. d.chunk_ids) cited_context.documents ≡ (2 ∷ 1 ∷ []) ∷ []
unfolding run sort_hits sort_documents deduplicate_hits hit_less document_less collapse_hits
    resolve_document_key normalize_text coerce_text resolve_hit_value resolve_chunk_value
    resolve_document_value resolve_window_value resolve_order_value build_sort_key chunk_less sort
    resolve_chunks supports_adjacency should_merge_chunks build_window_header build_windows
    build_document_header truncate_text fit_document_text assemble_document assemble
cites_first = refl
