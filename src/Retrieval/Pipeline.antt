-- ===== src/Retrieval/Pipeline.antt =====
-- `PostRetrievalPipeline.run` of post_retrieval.py. The rerankers are the caller's own functions, which
-- may raise; `_maybe_await` waits for the value that such a call returns.
pub mod Laws
pub mod Origin
use agent_backend.Prelude.{ℕ, String, Option, none, some, List, length, take, Result, ok, ◌>>=◌}
use agent_backend.Retrieval.{
  SearchHit, CollapsedSearchHit, Python, RetrievalConfig, RetrievalStats, RetrievalResult,
}
use agent_backend.Retrieval.Ranking.{sort_hits, sort_documents}
use agent_backend.Retrieval.Dedup.{deduplicate_hits}
use agent_backend.Retrieval.Collapse.{collapse_hits}

-- What is asked: the query's text and its vector.
pub record Query : Type 0 where
  pub text : Option String
  pub vector : Option (List ℕ)

pub record Rerankers : Type 0 where
  pub chunk_reranker : Option (List SearchHit → Query → Result (List SearchHit))
  pub document_reranker :
      Option (List CollapsedSearchHit → Query → Result (List CollapsedSearchHit))

abbrev rerank_hits : Rerankers → List SearchHit → Query → Result (List SearchHit)
rerank_hits rerankers hits query = elim rerankers.chunk_reranker [
  | none ↦ ok hits
  | some reranker ↦ reranker hits query
]

abbrev rerank_documents :
    Rerankers → Python → List CollapsedSearchHit → Query → Result (List CollapsedSearchHit)
rerank_documents rerankers py documents query = elim rerankers.document_reranker [
  | none ↦ ok (sort_documents py documents)
  | some reranker ↦ reranker documents query
]

abbrev pub limit_documents : Option ℕ → List CollapsedSearchHit → List CollapsedSearchHit
limit_documents none documents = documents
limit_documents (some n) documents = take n documents

unfoldable pub run :
    RetrievalConfig → Rerankers → Python → List SearchHit → Query → Result RetrievalResult
run config rerankers py hits query = do
  let ordered_hits = sort_hits py hits
  let deduped_hits = deduplicate_hits config.dedup py ordered_hits
  reranked_hits ← rerank_hits rerankers deduped_hits query
  documents ← collapse_hits config.collapse py reranked_hits
  reranked_documents ← rerank_documents rerankers py documents query
  let returned = limit_documents config.collapse.max_documents reranked_documents
  ok (record {
    hits = reranked_hits;
    documents = returned;
    stats = record {
      input_hit_count = length hits;
      deduped_hit_count = length reranked_hits;
      document_count = length documents;
      returned_document_count = length returned;
    };
  })
