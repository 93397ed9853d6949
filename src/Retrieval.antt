-- ===== src/Retrieval.antt =====
-- The retrieval of pkg/vectors after the search: the hits of contracts.py, the configuration and the
-- results of post_retrieval.py. Scores are 64-bit patterns, as the floats of Json are.
pub mod Paths
pub mod Sorting
pub mod Ranking
pub mod Dedup
pub mod Collapse
pub mod Pipeline
use agent_backend.Prelude.{ℕ, String, Bool, Option, List}
use agent_backend.Json.{Value, Fields}

-- SearchHit
pub record SearchHit : Type 0 where
  pub id : ℕ
  pub text : Option String
  pub metadata : Fields
  pub payload : Fields
  pub retrieval_mode : Option String
  pub relevance_score : Option ℕ
  pub raw_score : Option ℕ

-- What Python's own types do: the order, the equality, the least, the sum and the quotient of floats, the equality
-- and the text of a value, and the attributes of an object that are no fields of the models.
pub record Python : Type 0 where
  pub less : ℕ → ℕ → Bool
  pub minus_infinity : ℕ
  pub sum : List ℕ → ℕ
  pub divide : ℕ → ℕ → ℕ
  pub same : ℕ → ℕ → Bool
  pub equal : Value → Value → Bool
  pub text_of : Value → String
  pub attribute : Value → String → Value
  pub class_attribute : String → Value

pub data DedupKeepStrategy : Type 0 where
  first best_score : DedupKeepStrategy

pub data ScoreAggregation : Type 0 where
  max sum mean : ScoreAggregation

pub record DedupConfig : Type 0 where
  pub enabled : Bool
  pub key_fields : List String
  pub keep_strategy : DedupKeepStrategy

pub record CollapseConfig : Type 0 where
  pub enabled : Bool
  pub key_fields : List String
  pub max_chunks_per_document : ℕ
  pub max_documents : Option ℕ
  pub score_aggregation : ScoreAggregation
  pub fallback_to_chunk_id : Bool

-- PostRetrievalConfig
pub record RetrievalConfig : Type 0 where
  pub dedup : DedupConfig
  pub collapse : CollapseConfig

-- CollapsedSearchHit
pub record CollapsedSearchHit : Type 0 where
  pub document_key : Value
  pub primary_hit_id : ℕ
  pub hit_count : ℕ
  pub chunk_ids : List ℕ
  pub text : Option String
  pub metadata : Fields
  pub payload : Fields
  pub retrieval_mode : Option String
  pub relevance_score : Option ℕ
  pub raw_score : Option ℕ
  pub chunks : List SearchHit

-- PostRetrievalStats
pub record RetrievalStats : Type 0 where
  pub input_hit_count : ℕ
  pub deduped_hit_count : ℕ
  pub document_count : ℕ
  pub returned_document_count : ℕ

-- PostRetrievalResult
pub record RetrievalResult : Type 0 where
  pub hits : List SearchHit
  pub documents : List CollapsedSearchHit
  pub stats : RetrievalStats
