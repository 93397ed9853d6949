-- ===== src/Retrieval/Collapse.antt =====
-- The collapse of hits into documents of post_retrieval.py.
pub mod Groups
pub mod Counts
use agent_backend.Prelude.{
  ℕ, String, Bool, true, false, pos, Option, none, some, List, [], ◌∷◌, ◌++◌, map, if◌then◌else◌,
  length, take, ◌<>◌, Result, ok, err, ◌>>=◌, value_error, index_error,
}
use agent_backend.Json.{Value, int, float, bool, str}
use agent_backend.Retrieval.{
  SearchHit, Python, CollapseConfig, CollapsedSearchHit, ScoreAggregation, max, sum, mean,
}
use agent_backend.Retrieval.Paths.{resolve_hit_value}
use agent_backend.Retrieval.Ranking.{sort_hits, sort_documents}

-- `isinstance(value, (str, int, float, bool))`
abbrev pub is_scalar : Value → Bool
is_scalar (bool _) = true
is_scalar (int _) = true
is_scalar (float _) = true
is_scalar (str _) = true
is_scalar _ = false

abbrev pub chunk_key : Python → SearchHit → Value
chunk_key py hit = str ("hit:" <> py.text_of (int (pos hit.id)))

abbrev scalar_or_next : Value → Result Value → Result Value
scalar_or_next v next = if is_scalar v then ok v else next

abbrev pub first_document_key : CollapseConfig → Python → SearchHit → List String → Result Value
first_document_key config py hit [] =
    if config.fallback_to_chunk_id then ok (chunk_key py hit) else err value_error
first_document_key config py hit (field_path ∷ paths) =
    scalar_or_next (resolve_hit_value py hit field_path) (first_document_key config py hit paths)

-- `_resolve_document_key`
unfoldable pub resolve_document_key : CollapseConfig → Python → SearchHit → Result Value
resolve_document_key config py hit =
    if config.enabled
    then first_document_key config py hit config.key_fields
    else ok (chunk_key py hit)

abbrev pub available : List (Option ℕ) → List ℕ
available [] = []
available (none ∷ scores) = available scores
available (some x ∷ scores) = x ∷ available scores

-- `max`, which keeps the first of the greatest.
abbrev pub greatest : Python → ℕ → List ℕ → ℕ
greatest py best [] = best
greatest py best (x ∷ xs) = greatest py (if py.less best x then x else best) xs

abbrev aggregate : ScoreAggregation → Python → List ℕ → Option ℕ
aggregate aggregation py [] = none
aggregate max py (x ∷ xs) = some (greatest py x xs)
aggregate sum py (x ∷ xs) = some (py.sum (x ∷ xs))
aggregate mean py (x ∷ xs) = some (py.divide (py.sum (x ∷ xs)) (length (x ∷ xs)))

-- `_aggregate_scores`
abbrev aggregate_scores : CollapseConfig → Python → List (Option ℕ) → Option ℕ
aggregate_scores config py scores = aggregate config.score_aggregation py (available scores)

-- An entry of `grouped_hits`.
pub record Group : Type 0 where
  pub key : Value
  pub hits : List SearchHit

-- `grouped_hits[document_key].append(hit)`
abbrev pub add_to_group : Python → Value → SearchHit → List Group → List Group
add_to_group py key hit [] = record { key = key; hits = hit ∷ [] } ∷ []
add_to_group py key hit (g ∷ gs) =
    if py.equal g.key key
    then record { key = g.key; hits = g.hits ++ (hit ∷ []) } ∷ gs
    else g ∷ add_to_group py key hit gs

abbrev pub group_hits : CollapseConfig → Python → List SearchHit → List Group → Result (List Group)
group_hits config py [] groups = ok groups
group_hits config py (hit ∷ hits) groups = do
  document_key ← resolve_document_key config py hit
  group_hits config py hits (add_to_group py document_key hit groups)

abbrev pub document_of :
    CollapseConfig → Python → Value → List SearchHit → Result CollapsedSearchHit
document_of config py document_key [] = err index_error
document_of config py document_key (primary_hit ∷ others) =
    let sorted_group = primary_hit ∷ others in
    let kept_chunks = take config.max_chunks_per_document sorted_group in
    ok (record {
      document_key = document_key;
      primary_hit_id = primary_hit.id;
      hit_count = length sorted_group;
      chunk_ids = map (λ chunk. chunk.id) kept_chunks;
      text = primary_hit.text;
      metadata = primary_hit.metadata;
      payload = primary_hit.payload;
      retrieval_mode = primary_hit.retrieval_mode;
      relevance_score = aggregate_scores config py (map (λ h. h.relevance_score) sorted_group);
      raw_score = aggregate_scores config py (map (λ h. h.raw_score) sorted_group);
      chunks = kept_chunks;
    })

abbrev pub collapse_groups : CollapseConfig → Python → List Group → Result (List CollapsedSearchHit)
collapse_groups config py [] = ok []
collapse_groups config py (g ∷ gs) = do
  document ← document_of config py g.key (sort_hits py g.hits)
  documents ← collapse_groups config py gs
  ok (document ∷ documents)

-- `_collapse_hits`
unfoldable pub collapse_hits :
    CollapseConfig → Python → List SearchHit → Result (List CollapsedSearchHit)
collapse_hits config py [] = ok []
collapse_hits config py (hit ∷ hits) = do
  groups ← group_hits config py (hit ∷ hits) []
  documents ← collapse_groups config py groups
  ok (sort_documents py documents)
