-- ===== src/Context/Windows/Partition.antt =====
-- The windows of a document hold its chunks, each once and in order.
use mathlib.Core.Path.{subst}
use agent_backend.Prelude.{
  type_error, >>-eq-ok, ℕ, suc, ◌+◌, ◌≤◌, ◌≡◌, refl, ap, ◌∙◌, sym, inl, inr, Bool, true, not, ◌&&◌,
  Bool-cases, List, [], ◌∷◌, ◌++◌, map, length, if◌then◌else◌, All, ok, >>=-eq-ok, ok_injective,
  arith,
}
use agent_backend.Retrieval.{SearchHit, CollapsedSearchHit}
use agent_backend.Retrieval.Sorting.{count, total-sort}
use agent_backend.Context.{Texts, AssemblyConfig, AssembledContextWindow}
use agent_backend.Context.Chunks.{
  resolve_order_value, is_mixed, build_sort_key, ResolvedChunk, resolve_chunk, is_dropped,
  resolve_hits, chunk_less, resolve_chunks,
}
use agent_backend.Context.Windows.{
  value_error, is_page, raise_if, resolve_window_value, group_windows, assemble_window,
  assemble_windows, build_windows,
}
use agent_backend.Context.Windows.Grouping.{flat, Sized, group_windows_partition}

-- The chunks of all windows, in order.
abbrev pub all_chunk_ids : List AssembledContextWindow → List ℕ
all_chunk_ids [] = []
all_chunk_ids (w ∷ ws) = w.chunk_ids ++ all_chunk_ids ws

abbrev pub IsSized : AssemblyConfig → AssembledContextWindow → Type 0
IsSized config w =
    (1 ≤ length w.chunk_ids) × (length w.chunk_ids ≤ config.window.max_chunks_per_window)

module _ (config : AssemblyConfig) (py : Texts) where
  abbrev ids : List ResolvedChunk → List ℕ
  ids chunks = map (λ h. h.id) (map (λ c. c.hit) chunks)

  ids-append : (xs ys : List ResolvedChunk) → ids (xs ++ ys) ≡ ids xs ++ ids ys
  ids-append [] ys = refl
  ids-append (x ∷ xs) ys = ap (λ ns. x.hit.id ∷ ns) (ids-append xs ys)

  length-ids : (xs : List ResolvedChunk) → length (ids xs) ≡ length xs
  length-ids [] = refl
  length-ids (x ∷ xs) = ap suc (length-ids xs)

  assemble_window-ids :
      (index : ℕ) (window : List ResolvedChunk) {w : AssembledContextWindow}
      → assemble_window config py index window ≡ ok w
      → w.chunk_ids ≡ ids window
  assemble_window-ids index window {w} e =
      let (section, found, after_section) =
        >>=-eq-ok (resolve_window_value py (map (λ c. c.hit) window) config.header.section_fields) _
          e in
      let (page, found_page, after_page) =
        >>=-eq-ok (resolve_window_value py (map (λ c. c.hit) window) config.header.page_fields) _
          after_section in
      let (checked, made) = >>-eq-ok (raise_if (not (is_page page)) value_error) _ after_page in
      ap (λ v. v.chunk_ids) (sym (ok_injective made))

  assemble_windows-ids :
      (index : ℕ) (windows : List (List ResolvedChunk)) {ws : List AssembledContextWindow}
      → assemble_windows config py index windows ≡ ok ws
      → All (Sized config) windows
      → (all_chunk_ids ws ≡ ids (flat windows)) × All (IsSized config) ws
  assemble_windows-ids index [] {ws} e sized =
      subst (λ vs. (all_chunk_ids vs ≡ []) × All (IsSized config) vs) (ok_injective e) (refl, tt)
  assemble_windows-ids index (window ∷ windows) {ws} e (here, rest) =
      let (first, made, more) = >>=-eq-ok (assemble_window config py index window) _ e in
      let (others, made_others, all) =
        >>=-eq-ok (assemble_windows config py (suc index) windows) _ more in
      let (parts, sized) = assemble_windows-ids (suc index) windows made_others rest in
      let same = assemble_window-ids index window made in
      let size = ap length same ∙ length-ids window in
      subst (λ vs. (all_chunk_ids vs ≡ ids (window ++ flat windows)) × All (IsSized config) vs)
        (ok_injective all)
        (
          ap (λ ns. ns ++ all_chunk_ids others) same
              ∙ ap (λ ns. ids window ++ ns) parts
              ∙ sym (ids-append window (flat windows)),
          ((omega (arith, size, here.0), omega (arith, size, here.1)), sized),
        )

  count_ids :
      (p : ℕ → Bool) (chunks : List ResolvedChunk)
      → count p (ids chunks) ≡ count (λ c. p c.hit.id) chunks
  count_ids p [] = refl
  count_ids p (c ∷ cs) = ap (λ n. (if p c.hit.id then 1 else 0) + n) (count_ids p cs)

  -- A hit that is kept, of those that pass a test on their ids.
  abbrev pub counts_as : (ℕ → Bool) → SearchHit → Bool
  counts_as p hit = p hit.id && not (is_dropped config py hit)

  pub resolve_chunk_hit :
      (index : ℕ) (hit : SearchHit) {c : ResolvedChunk}
      → resolve_chunk config py index hit ≡ ok c
      → c.hit ≡ hit
  resolve_chunk_hit index hit {c} e =
      let (key, found, made) =
        >>=-eq-ok (build_sort_key py (resolve_order_value config py hit)) _ e in
      ap (λ c. c.hit) (sym (ok_injective made))

  resolve_hits_count :
      (p : ℕ → Bool) (index : ℕ) (hits : List SearchHit) {chunks : List ResolvedChunk}
      → resolve_hits config py index hits ≡ ok chunks
      → count (λ c. p c.hit.id) chunks ≡ count (counts_as p) hits
  resolve_hits_count p index [] {chunks} e =
      subst (λ cs. count (λ c. p c.hit.id) cs ≡ 0) (ok_injective e) refl
  resolve_hits_count p index (hit ∷ hits) {chunks} e =
      elim (Bool-cases (is_dropped config py hit)) [
        | inl dropped ↦
            let without = resolve_hits_count p (suc index) hits (rw dropped at e) in
            rw dropped ground arith
        | inr kept ↦
            let (chunk, made, more) =
              >>=-eq-ok (resolve_chunk config py index hit) _ (rw kept at e) in
            let (others, made_others, all) =
              >>=-eq-ok (resolve_hits config py (suc index) hits) _ more in
            let rest = resolve_hits_count p (suc index) hits made_others in
            let same = ap (λ h. p h.id) (resolve_chunk_hit index hit made) in
            rw kept (
              subst
                (λ cs.
                  count (λ c. p c.hit.id) cs
                  ≡ (if p hit.id && true then 1 else 0) + count (counts_as p) hits)
                (ok_injective all) ground arith)
      ]

  resolve_chunks_count :
      (p : ℕ → Bool) (hits : List SearchHit) {chunks : List ResolvedChunk}
      → resolve_chunks config py hits ≡ ok chunks
      → count (λ c. p c.hit.id) chunks ≡ count (counts_as p) hits
  unfolding resolve_chunks
  resolve_chunks_count p hits {chunks} e =
      let (resolved, made, more) = >>=-eq-ok (resolve_hits config py 0 hits) _ e in
      let (checked, ordered) = >>-eq-ok (raise_if (is_mixed resolved) type_error) _ more in
      let sorted =
        total-sort (λ a b. chunk_less py b a) (λ c. if p c.hit.id then 1 else 0) resolved in
      subst (λ cs. count (λ c. p c.hit.id) cs ≡ count (counts_as p) hits) (ok_injective ordered)
        (sorted ∙ resolve_hits_count p 0 hits made)

  -- The windows that are built of a document hold at least one chunk each and no more than the limit,
  -- and the ids that they name together are those of the document's chunks that are not dropped,
  -- each as often as there are such chunks.
  pub build_windows-partition :
      (document : CollapsedSearchHit) {ws : List AssembledContextWindow} (p : ℕ → Bool)
      → 1 ≤ config.window.max_chunks_per_window
      → build_windows config py document ≡ ok ws
      → All (IsSized config) ws × (count p (all_chunk_ids ws) ≡ count (counts_as p) document.chunks)
  unfolding build_windows
  build_windows-partition document {ws} p room e =
      let (chunks, resolved, after_chunks) =
        >>=-eq-ok (resolve_chunks config py document.chunks) _ e in
      let (windows, grouped, made) = >>=-eq-ok (group_windows config py chunks) _ after_chunks in
      let (parts, sized) = group_windows_partition config py chunks room grouped in
      let (same, all_sized) = assemble_windows-ids 1 windows made sized in
      (
        all_sized,
        ap (count p) (same ∙ ap ids parts)
            ∙ (count_ids p chunks ∙ resolve_chunks_count p document.chunks resolved),
      )
