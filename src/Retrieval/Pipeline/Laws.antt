-- ===== src/Retrieval/Pipeline/Laws.antt =====
-- What `PostRetrievalPipeline.run` returns.
use agent_backend.Prelude.{
  ◌∙◌, ℕ, ◌-◌, ◌≤◌, ◌≡◌, refl, inl, inr, Bool, true, false, Bool-cases, Option, none, some, List,
  [], ◌∷◌, length, length-take, take, take-All, ltb, All, ok, arith,
}
use agent_backend.Retrieval.{
  SearchHit, CollapsedSearchHit, Python, RetrievalConfig, RetrievalResult,
}
use agent_backend.Retrieval.Sorting.{
  total-sort, sort-All, sort, IsSorted, total, length-sort, sort-IsSorted,
}
use agent_backend.Retrieval.Ranking.{
  HasFloatOrder, hit_less, document_less, hit_less-IsWeakOrder, document_less-IsWeakOrder,
  sort_hits, sort_documents,
}
use agent_backend.Retrieval.Dedup.{deduplicate_hits}
use agent_backend.Retrieval.Dedup.Ranked.{deduplicate_hits-IsSorted}
use agent_backend.Retrieval.Collapse.Counts.{IsCut, collapse_hits-counts}
use agent_backend.Retrieval.Pipeline.{Query, Rerankers, limit_documents, run}

take-IsSorted {ℓ} :
    {A : Type ℓ} (less : A → A → Bool) (n : ℕ) (xs : List A)
    → IsSorted less xs
    → IsSorted less (take n xs)
take-IsSorted less n [] s = tt
take-IsSorted less n (x ∷ xs) (here, rest) = elim (Bool-cases (ltb 0 n)) [
  | inl more ↦
      rw more (take-All (λ y. less x y ≡ false) (n - 1) xs here, take-IsSorted less (n - 1) xs rest)
  | inr done ↦ rw done tt
]

total-take {ℓ} : {A : Type ℓ} (f : A → ℕ) (n : ℕ) (xs : List A) → total f (take n xs) ≤ total f xs
total-take f n [] = omega arith
total-take f n (x ∷ xs) =
    let rest = total-take f (n - 1) xs in
    elim (Bool-cases (ltb 0 n)) [
      | inl more ↦ rw more (omega (arith, rest))
      | inr done ↦ rw done (omega arith)
    ]

-- The documents that `run` returns are at most `max_documents`.
abbrev pub WithinLimit : Option ℕ → List CollapsedSearchHit → Type 0
WithinLimit none documents = Unit
WithinLimit (some n) documents = length documents ≤ n

-- What the limit on documents leaves of what holds of all of them.
limited :
    (config : RetrievalConfig) (py : Python) (limit : Option ℕ)
    (documents : List CollapsedSearchHit) (n : ℕ)
    → IsSorted (document_less py) documents
    → All (IsCut config.collapse) documents
    → total (λ d. d.hit_count) documents ≡ n
    → IsSorted (document_less py) (limit_documents limit documents)
      × All (IsCut config.collapse) (limit_documents limit documents)
      × (total (λ d. d.hit_count) (limit_documents limit documents) ≤ n)
      × WithinLimit limit (limit_documents limit documents)
limited config py none documents n sorted cut sum = (sorted, cut, omega (arith, sum), tt)
limited config py (some k) documents n sorted cut sum = (
  take-IsSorted (document_less py) k documents sorted,
  take-All (IsCut config.collapse) k documents cut,
  omega (arith, sum, total-take (λ d. d.hit_count) k documents),
  length-take k documents,
)

abbrev pub without_rerankers : Rerankers
without_rerankers = record { chunk_reranker = none; document_reranker = none }

-- The result of a run without rerankers whose hits collapse into `documents`.
abbrev result_of :
    RetrievalConfig → Python → List SearchHit → List CollapsedSearchHit → RetrievalResult
result_of config py hits documents =
    let kept = deduplicate_hits config.dedup py (sort_hits py hits) in
    let returned = limit_documents config.collapse.max_documents (sort_documents py documents) in
    record {
      hits = kept;
      documents = returned;
      stats = record {
        input_hit_count = length hits;
        deduped_hit_count = length kept;
        document_count = length documents;
        returned_document_count = length returned;
      };
    }

module _ (config : RetrievalConfig) (py : Python) (hits : List SearchHit) (query : Query)
    (floats : HasFloatOrder py) (fallback : config.collapse.fallback_to_chunk_id ≡ true) where
  -- Without rerankers and with the fallback to the chunk's id, where no score is NaN, `run` returns a
  -- result: its hits and its documents are ranked, the hits are no more than were given, every
  -- document counts a hit at least and has no more chunks than the limit, the documents together
  -- count no more hits than the result has, and they are no more than the limit on documents.
  pub run-result :
      (r : RetrievalResult) × (run config without_rerankers py hits query ≡ ok r)
      × IsSorted (hit_less py) r.hits
      × (length r.hits ≤ length hits)
      × IsSorted (document_less py) r.documents
      × All (IsCut config.collapse) r.documents
      × (total (λ d. d.hit_count) r.documents ≤ length r.hits)
      × WithinLimit config.collapse.max_documents r.documents
  unfolding run sort_hits sort_documents
  run-result =
      let ranked = sort-IsSorted (hit_less py) (hit_less-IsWeakOrder py floats) hits in
      let (kept_sorted, fewer) =
        deduplicate_hits-IsSorted config.dedup py (sort_hits py hits) ranked in
      let same = length-sort (hit_less py) hits in
      let (documents, made, sum, cut) =
        collapse_hits-counts config.collapse py
          (deduplicate_hits config.dedup py (sort_hits py hits)) fallback in
      let documents_sorted =
        sort-IsSorted (document_less py) (document_less-IsWeakOrder py floats) documents in
      let (sorted, cuts, fewer_hits, few) =
        limited config py config.collapse.max_documents (sort (document_less py) documents)
          (length (deduplicate_hits config.dedup py (sort_hits py hits))) documents_sorted
          (sort-All (document_less py) (IsCut config.collapse) documents cut)
          (total-sort (document_less py) (λ d. d.hit_count) documents ∙ sum) in
      (
        result_of config py hits documents,
        rw made refl,
        kept_sorted,
        omega (arith, fewer, same),
        sorted,
        cuts,
        fewer_hits,
        few,
      )
