-- ===== src/Retrieval/Collapse/Counts.antt =====
-- The documents of post_retrieval.py count every hit, and keep a bounded number of chunks.
use agent_backend.Prelude.{
  suc, ◌+◌, ◌≤◌, ◌≡◌, refl, ap, ◌∙◌, inl, inr, true, Bool-cases, List, [], ◌∷◌, map, if◌then◌else◌,
  length, length-append, length-take, All, String, ok, err, value_error, arith,
}
use agent_backend.Json.{Value}
use agent_backend.Retrieval.{SearchHit, Python, CollapseConfig, CollapsedSearchHit}
use agent_backend.Retrieval.Paths.{resolve_hit_value}
use agent_backend.Retrieval.Sorting.{total, total-sort, length-sort, sort-All}
use agent_backend.Retrieval.Ranking.{hit_less, sort_hits, document_less, sort_documents}
use agent_backend.Retrieval.Collapse.{
  is_scalar, chunk_key, first_document_key, resolve_document_key, Group, add_to_group, group_hits,
  document_of, collapse_groups, collapse_hits,
}

-- A document counts a hit at least, its chunks are within the limit, and are those that it names.
abbrev pub IsCut : CollapseConfig → CollapsedSearchHit → Type 0
IsCut config d =
    (1 ≤ d.hit_count)
    × (length d.chunks ≤ config.max_chunks_per_document)
    × (d.chunk_ids ≡ map (λ chunk. chunk.id) d.chunks)

module _ (config : CollapseConfig) (py : Python) where
  first_document_key_total :
      config.fallback_to_chunk_id ≡ true
      → (hit : SearchHit) (paths : List String)
      → (key : Value) × (first_document_key config py hit paths ≡ ok key)
  first_document_key_total on hit [] =
      (chunk_key py hit, ap (λ b. if b then ok (chunk_key py hit) else err value_error) on)
  first_document_key_total on hit (path ∷ paths) =
      elim (Bool-cases (is_scalar (resolve_hit_value py hit path))) [
        | inl scalar ↦ rw scalar (resolve_hit_value py hit path, refl)
        | inr other ↦ rw other (first_document_key_total on hit paths)
      ]

  resolve_document_key_total :
      config.fallback_to_chunk_id ≡ true
      → (hit : SearchHit) → (key : Value) × (resolve_document_key config py hit ≡ ok key)
  unfolding resolve_document_key
  resolve_document_key_total on hit =
      let (key, found) = first_document_key_total on hit config.key_fields in
      elim (Bool-cases config.enabled) [
        | inl enabled ↦ (
          key,
          ap
                (λ b.
                  if b
                  then first_document_key config py hit config.key_fields
                  else ok (chunk_key py hit))
                enabled
              ∙ found,
        )
        | inr disabled ↦ (
          chunk_key py hit,
          ap
              (λ b.
                if b
                then first_document_key config py hit config.key_fields
                else ok (chunk_key py hit))
              disabled,
        )
      ]

  -- A group that holds a hit at least.
  abbrev Counted : Group → Type 0
  Counted g = 1 ≤ length g.hits

  add_to_group-Counted :
      (key : Value) (hit : SearchHit) (groups : List Group)
      → All Counted groups
      → All Counted (add_to_group py key hit groups)
  add_to_group-Counted key hit [] h = (omega arith, tt)
  add_to_group-Counted key hit (g ∷ gs) (here, rest) =
      let more = add_to_group-Counted key hit gs rest in
      let longer = length-append g.hits (hit ∷ []) in
      elim (Bool-cases (py.equal g.key key)) [
        | inl found ↦ rw found (omega (arith, longer), rest)
        | inr other ↦ rw other (here, more)
      ]

  total-add_to_group :
      (key : Value) (hit : SearchHit) (groups : List Group)
      → total (λ g. length g.hits) (add_to_group py key hit groups)
        ≡ suc (total (λ g. length g.hits) groups)
  total-add_to_group key hit [] = refl
  total-add_to_group key hit (g ∷ gs) =
      let more = total-add_to_group key hit gs in
      let longer = length-append g.hits (hit ∷ []) in
      elim (Bool-cases (py.equal g.key key)) [
        | inl found ↦ rw found (omega (arith, longer))
        | inr other ↦ rw other (omega (arith, more))
      ]

  group_hits-total :
      config.fallback_to_chunk_id ≡ true
      → (hits : List SearchHit) (groups : List Group) → All Counted groups
      → (after : List Group) × (group_hits config py hits groups ≡ ok after)
        × All Counted after
        × (total (λ g. length g.hits) after ≡ length hits + total (λ g. length g.hits) groups)
  group_hits-total on [] groups counted = (groups, refl, counted, omega arith)
  group_hits-total on (hit ∷ hits) groups counted =
      let (key, found) = resolve_document_key_total on hit in
      let (after, e, more, sum) =
        group_hits-total on hits (add_to_group py key hit groups)
          (add_to_group-Counted key hit groups counted) in
      let one = total-add_to_group key hit groups in
      (after, rw found e, more, omega (arith, sum, one))

  document_of_total :
      (key : Value) (hits : List SearchHit)
      → 1 ≤ length hits
      → (d : CollapsedSearchHit) × (document_of config py key hits ≡ ok d)
        × (d.hit_count ≡ length hits)
        × IsCut config d
  document_of_total key [] h = absurd (omega (arith, h))
  document_of_total key (hit ∷ hits) h =
      (_, refl, refl, (omega arith, length-take config.max_chunks_per_document (hit ∷ hits), refl))

  collapse_groups-total :
      (groups : List Group)
      → All Counted groups
      → (documents : List CollapsedSearchHit) × (collapse_groups config py groups ≡ ok documents)
        × (total (λ d. d.hit_count) documents ≡ total (λ g. length g.hits) groups)
        × All (IsCut config) documents
  unfolding sort_hits
  collapse_groups-total [] h = ([], refl, refl, tt)
  collapse_groups-total (g ∷ gs) (here, rest) =
      let kept = length-sort (hit_less py) g.hits in
      let (d, made, count, cut) =
        document_of_total g.key (sort_hits py g.hits) (omega (arith, kept, here)) in
      let (ds, e, sum, cuts) = collapse_groups-total gs rest in
      (d ∷ ds, rw (made, e) refl, omega (arith, kept, count, sum), (cut, cuts))

  -- With the fallback to the chunk's id, collapsing never fails: it returns documents that count every
  -- hit once, each with a hit at least and with no more chunks than the limit, whose ids it lists.
  pub collapse_hits-counts :
      (hits : List SearchHit)
      → config.fallback_to_chunk_id ≡ true
      → (documents : List CollapsedSearchHit) × (collapse_hits config py hits ≡ ok documents)
        × (total (λ d. d.hit_count) documents ≡ length hits)
        × All (IsCut config) documents
  unfolding collapse_hits sort_documents
  collapse_hits-counts [] on = ([], refl, refl, tt)
  collapse_hits-counts (hit ∷ hits) on =
      let (groups, grouped, counted, all) = group_hits-total on (hit ∷ hits) [] tt in
      let (documents, made, sum, cuts) = collapse_groups-total groups counted in
      let sorted = total-sort (document_less py) (λ d. d.hit_count) documents in
      (
        sort_documents py documents,
        rw (grouped, made) refl,
        omega (arith, all, sum, sorted),
        sort-All (document_less py) (IsCut config) documents cuts,
      )
