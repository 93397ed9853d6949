-- ===== src/Retrieval/Pipeline/Origin.antt =====
-- The hits and chunks in the result of post_retrieval.py are hits that were given.
use mathlib.Core.Path.{subst}
use agent_backend.Prelude.{
  ℕ, ◌≡◌, String, ◌&&◌, Option, none, some, List, [], ◌∷◌, map, str_eq, if_elim, take-All, All,
  All-append, ok, >>=-eq-ok, ok_injective,
}
use agent_backend.Json.{Value}
use agent_backend.Retrieval.{
  SearchHit, CollapsedSearchHit, Python, DedupConfig, DedupKeepStrategy, CollapseConfig,
  RetrievalConfig, RetrievalResult,
}
use agent_backend.Retrieval.Sorting.{sort-All}
use agent_backend.Retrieval.Ranking.{
  is_better_hit, hit_less, sort_hits, document_less, sort_documents,
}
use agent_backend.Retrieval.Dedup.{
  Kept, resolve_dedup_key, keeps_best, offer, collect, deduplicate_hits,
}
use agent_backend.Retrieval.Collapse.{
  resolve_document_key, Group, add_to_group, group_hits, document_of, collapse_groups,
  collapse_hits,
}
use agent_backend.Retrieval.Pipeline.{Query, limit_documents, run}
use agent_backend.Retrieval.Pipeline.Laws.{without_rerankers}

module _ (P : SearchHit → Type 0) (py : Python) where
  offer-All :
      (strategy : DedupKeepStrategy) (key : String) (hit : SearchHit) (entries : List Kept)
      → P hit
      → All (λ e. P e.hit) entries
      → All (λ e. P e.hit) (offer strategy py key hit entries)
  offer-All strategy key hit [] given h = (given, tt)
  offer-All strategy key hit (e ∷ es) given (here, rest) =
      if_elim (All (λ e. P e.hit)) (str_eq e.key key)
        (λ found.
          if_elim (All (λ e. P e.hit)) (keeps_best strategy && is_better_hit py hit e.hit)
            (λ better. (given, rest)) (λ kept. (here, rest)))
        (λ other. (here, offer-All strategy key hit es given rest))

  collect-All :
      (config : DedupConfig) (hits : List SearchHit) (entries : List Kept)
      → All P hits
      → All (λ e. P e.hit) entries
      → All (λ e. P e.hit) (collect config py hits entries)
  collect-All config [] entries h kept = kept
  collect-All config (hit ∷ hits) entries (here, rest) kept =
      collect-All config hits
        (offer config.keep_strategy py (resolve_dedup_key config py hit) hit entries) rest
        (offer-All config.keep_strategy (resolve_dedup_key config py hit) hit entries here kept)

  map-All : (entries : List Kept) → All (λ e. P e.hit) entries → All P (map (λ e. e.hit) entries)
  map-All [] h = tt
  map-All (e ∷ es) (here, rest) = (here, map-All es rest)

  deduplicate_hits-All :
      (config : DedupConfig) (hits : List SearchHit)
      → All P hits
      → All P (deduplicate_hits config py hits)
  unfolding deduplicate_hits sort_hits
  deduplicate_hits-All config hits h =
      if_elim (All P) config.enabled
        (λ on.
          sort-All (hit_less py) P (map (λ e. e.hit) (collect config py hits []))
            (map-All (collect config py hits []) (collect-All config hits [] h tt)))
        (λ off. h)

  add_to_group-All :
      (key : Value) (hit : SearchHit) (groups : List Group)
      → P hit
      → All (λ g. All P g.hits) groups
      → All (λ g. All P g.hits) (add_to_group py key hit groups)
  add_to_group-All key hit [] given h = ((given, tt), tt)
  add_to_group-All key hit (g ∷ gs) given (here, rest) =
      if_elim (All (λ g. All P g.hits)) (py.equal g.key key)
        (λ found. (All-append P g.hits (hit ∷ []) here (given, tt), rest))
        (λ other. (here, add_to_group-All key hit gs given rest))

  module _ (config : CollapseConfig) where
    group_hits-All :
        (hits : List SearchHit) (groups : List Group) {after : List Group}
        → All P hits
        → All (λ g. All P g.hits) groups
        → group_hits config py hits groups ≡ ok after
        → All (λ g. All P g.hits) after
    group_hits-All [] groups given h e = subst (All (λ g. All P g.hits)) (ok_injective e) h
    group_hits-All (hit ∷ hits) groups (here, rest) h e =
        let (key, found, more) =
          >>=-eq-ok (resolve_document_key config py hit)
            (λ key. group_hits config py hits (add_to_group py key hit groups)) e in
        group_hits-All hits (add_to_group py key hit groups) rest
          (add_to_group-All key hit groups here h) more

    document_of-All :
        (key : Value) (hits : List SearchHit) {d : CollapsedSearchHit}
        → All P hits
        → document_of config py key hits ≡ ok d
        → All P d.chunks
    document_of-All key [] h e = cc e
    document_of-All key (hit ∷ hits) h e =
        subst (λ d. All P d.chunks) (ok_injective e)
          (take-All P config.max_chunks_per_document (hit ∷ hits) h)

    collapse_groups-All :
        (groups : List Group) {documents : List CollapsedSearchHit}
        → All (λ g. All P g.hits) groups
        → collapse_groups config py groups ≡ ok documents
        → All (λ d. All P d.chunks) documents
    unfolding sort_hits
    collapse_groups-All [] h e = subst (All (λ d. All P d.chunks)) (ok_injective e) tt
    collapse_groups-All (g ∷ gs) (here, rest) e =
        let (d, made, more) = >>=-eq-ok (document_of config py g.key (sort_hits py g.hits)) _ e in
        let (ds, others, all) = >>=-eq-ok (collapse_groups config py gs) _ more in
        subst (All (λ d. All P d.chunks)) (ok_injective all) (
          document_of-All g.key (sort_hits py g.hits) (sort-All (hit_less py) P g.hits here) made,
          collapse_groups-All gs rest others,
        )

    collapse_hits-All :
        (hits : List SearchHit) {documents : List CollapsedSearchHit}
        → All P hits
        → collapse_hits config py hits ≡ ok documents
        → All (λ d. All P d.chunks) documents
    unfolding collapse_hits sort_documents
    collapse_hits-All [] h e = subst (All (λ d. All P d.chunks)) (ok_injective e) tt
    collapse_hits-All (hit ∷ hits) h e =
        let (groups, grouped, more) = >>=-eq-ok (group_hits config py (hit ∷ hits) []) _ e in
        let (documents, made, all) = >>=-eq-ok (collapse_groups config py groups) _ more in
        subst (All (λ d. All P d.chunks)) (ok_injective all) (
          sort-All (document_less py) (λ d. All P d.chunks) documents
            (collapse_groups-All groups (group_hits-All (hit ∷ hits) [] h tt grouped) made))

  limit_documents-All :
      (limit : Option ℕ) (documents : List CollapsedSearchHit)
      → All (λ d. All P d.chunks) documents
      → All (λ d. All P d.chunks) (limit_documents limit documents)
  limit_documents-All none documents h = h
  limit_documents-All (some n) documents h = take-All (λ d. All P d.chunks) n documents h

  -- What holds of all the hits that are given holds of all chunks of the documents of the result.
  pub run-All :
      (config : RetrievalConfig) (hits : List SearchHit) (query : Query) {r : RetrievalResult}
      → All P hits
      → run config without_rerankers py hits query ≡ ok r
      → All (λ d. All P d.chunks) r.documents
  unfolding run sort_hits sort_documents
  run-All config hits query h e =
      let kept = deduplicate_hits config.dedup py (sort_hits py hits) in
      let (documents, made, all) = >>=-eq-ok (collapse_hits config.collapse py kept) _ e in
      let given =
        deduplicate_hits-All config.dedup (sort_hits py hits) (sort-All (hit_less py) P hits h) in
      subst (λ r. All (λ d. All P d.chunks) r.documents) (ok_injective all)
        (limit_documents-All config.collapse.max_documents (sort_documents py documents) (
          sort-All (document_less py) (λ d. All P d.chunks) documents
            (collapse_hits-All config.collapse kept given made)))
