-- ===== src/Examples/Retrieving.antt =====
-- The theorems on the retrieval at three sample hits, two of one document, where scores are natural
-- numbers.
use mathlib.Core.List.{Perm}
use agent_backend.Prelude.{
  ℕ, ◌/◌, ◌≤◌, ◌≡◌, refl, String, Bool, true, false, none, some, List, [], ◌∷◌, ltb, ◌==◌, str_eq,
  length, All, ok, arith,
}
use agent_backend.Json.{Value, null, str, end, field}
use agent_backend.Retrieval.{
  SearchHit, Python, DedupConfig, best_score, CollapseConfig, max, RetrievalConfig, RetrievalResult,
}
use agent_backend.Retrieval.Paths.{resolve_hit_value}
use agent_backend.Retrieval.Sorting.{sort, IsSorted, total, count}
use agent_backend.Retrieval.Ranking.{
  HasFloatOrder, hit_less, document_less, is_better_hit, sort_hits,
}
use agent_backend.Retrieval.Dedup.{resolve_dedup_key, deduplicate_hits}
use agent_backend.Retrieval.Dedup.Laws.{has_key, at_most_one}
use agent_backend.Retrieval.Dedup.Ranked.{first_of_each_key, deduplicate_hits-IsSorted_eq}
use agent_backend.Retrieval.Collapse.{resolve_document_key, Group, group_hits}
use agent_backend.Retrieval.Collapse.Groups.{
  grouped, BelongsTo, DistinctKeys, NonEmpty, group_hits-partition,
}
use agent_backend.Retrieval.Collapse.Counts.{IsCut}
use agent_backend.Retrieval.Pipeline.{Query, run}
use agent_backend.Retrieval.Pipeline.Laws.{WithinLimit, without_rerankers, run-result}

abbrev equal_values : Value → Value → Bool
equal_values (str s) (str t) = str_eq s t
equal_values _ _ = false

abbrev text_of_value : Value → String
text_of_value (str s) = s
text_of_value _ = "?"

abbrev pub python : Python
python = record {
  less = ltb;
  minus_infinity = 0;
  sum = λ xs. total (λ x. x) xs;
  divide = λ x n. x / n;
  same = λ x y. x == y;
  equal = equal_values;
  text_of = text_of_value;
  attribute = λ v name. null;
  class_attribute = λ name. null;
}

natural_order : HasFloatOrder python
natural_order = record {
  order = record { asym = λ a b h. ground arith; cotrans = λ a b c h. ground arith };
  tie = λ a b h. (ground arith, ground arith);
  apart = λ a b h. ground arith;
}

abbrev pub hit_of : ℕ → String → ℕ → SearchHit
hit_of id document score = record {
  id = id;
  text = some "text";
  metadata = field "doc_id" (str document) end;
  payload = end;
  retrieval_mode = none;
  relevance_score = some score;
  raw_score = none;
}

abbrev sample_hits : List SearchHit
sample_hits = hit_of 1 "a" 9 ∷ hit_of 2 "b" 7 ∷ hit_of 3 "a" 5 ∷ []

abbrev by_document : DedupConfig
by_document = record {
  enabled = true;
  key_fields = "metadata.doc_id" ∷ [];
  keep_strategy = best_score;
}

abbrev collapse : CollapseConfig
collapse = record {
  enabled = true;
  key_fields = "metadata.doc_id" ∷ [];
  max_chunks_per_document = 1;
  max_documents = some 1;
  score_aggregation = max;
  fallback_to_chunk_id = true;
}

abbrev retrieval : RetrievalConfig
retrieval = record { dedup = record by_document { enabled = false }; collapse = collapse }

abbrev question : Query
question = record { text = some "where?"; vector = none }

-- It is one of the two hits of the document.
one_of_two : at_most_one (count (has_key by_document python "metadata.doc_id:a") sample_hits) ≡ 1
unfolding resolve_dedup_key resolve_hit_value
one_of_two = refl

ranked : IsSorted (hit_less python) sample_hits
unfolding hit_less
ranked = ((refl, (refl, tt)), ((refl, tt), (tt, tt)))

deduplicate_hits-IsSorted_eq_example :
    deduplicate_hits by_document python sample_hits
    ≡ first_of_each_key by_document python sample_hits
deduplicate_hits-IsSorted_eq_example =
    deduplicate_hits-IsSorted_eq by_document python sample_hits refl ranked

keeps_the_first :
    deduplicate_hits by_document python sample_hits ≡ hit_of 1 "a" 9 ∷ hit_of 2 "b" 7 ∷ []
unfolding deduplicate_hits resolve_dedup_key resolve_hit_value hit_less is_better_hit sort_hits sort
keeps_the_first = refl

abbrev sample_groups : List Group
sample_groups =
    record { key = str "a"; hits = hit_of 1 "a" 9 ∷ hit_of 3 "a" 5 ∷ [] }
    ∷ record { key = str "b"; hits = hit_of 2 "b" 7 ∷ [] }
    ∷ []

sample_grouping : group_hits collapse python sample_hits [] ≡ ok sample_groups
unfolding resolve_document_key resolve_hit_value
sample_grouping = refl

group_hits-partition_example :
    DistinctKeys python sample_groups
    × All (λ g. NonEmpty g × All (BelongsTo collapse python g.key) g.hits) sample_groups
    × Perm (grouped sample_groups) sample_hits
group_hits-partition_example = group_hits-partition collapse python sample_hits sample_grouping

run-result_example :
    (r : RetrievalResult) × (run retrieval without_rerankers python sample_hits question ≡ ok r)
    × IsSorted (hit_less python) r.hits
    × (length r.hits ≤ length sample_hits)
    × IsSorted (document_less python) r.documents
    × All (IsCut retrieval.collapse) r.documents
    × (total (λ d. d.hit_count) r.documents ≤ length r.hits)
    × WithinLimit retrieval.collapse.max_documents r.documents
run-result_example = run-result retrieval python sample_hits question natural_order refl
