-- ===== src/Context/Windows/Cited.antt =====
-- The chunks of a document's windows are chunks of the document.
use mathlib.Core.Path.{subst}
use agent_backend.Prelude.{
  ℕ, suc, ◌≤◌, ◌≡◌, sym, inl, inr, not, Bool-cases, List, [], ◌∷◌, ◌++◌, map, All, ok, >>=-eq-ok,
  >>-eq-ok, ok_injective, raise_if, type_error, value_error,
}
use agent_backend.Retrieval.{SearchHit, CollapsedSearchHit}
use agent_backend.Retrieval.Sorting.{sort-All}
use agent_backend.Context.{Texts, AssemblyConfig, AssembledContextWindow}
use agent_backend.Context.Values.{resolve_window_value}
use agent_backend.Context.Chunks.{
  ResolvedChunk, resolve_chunk, is_dropped, is_mixed, resolve_hits, chunk_less, resolve_chunks,
}
use agent_backend.Context.Windows.{
  is_page, assembled_chunk, group_windows, assemble_window, assemble_windows, build_windows,
}
use agent_backend.Context.Windows.Grouping.{flat, group_windows_partition}
use agent_backend.Context.Windows.Partition.{resolve_chunk_hit}

module _ (P : ℕ → Type 0) (config : AssemblyConfig) (py : Texts) where
  abbrev Chunks : List ResolvedChunk → Type 0
  Chunks cs = All (λ c. P c.hit.id) cs

  abbrev pub Cites : List AssembledContextWindow → Type 0
  Cites ws = All (λ w. All (λ c. P c.chunk_id) w.chunks) ws

  resolve_hits-Chunks :
      (index : ℕ) (hits : List SearchHit) {chunks : List ResolvedChunk}
      → All (λ h. P h.id) hits
      → resolve_hits config py index hits ≡ ok chunks
      → Chunks chunks
  resolve_hits-Chunks index [] h e = subst Chunks (ok_injective e) tt
  resolve_hits-Chunks index (hit ∷ hits) (here, rest) e =
      elim (Bool-cases (is_dropped config py hit)) [
        | inl dropped ↦ resolve_hits-Chunks (suc index) hits rest (rw dropped at e)
        | inr kept ↦
            let (chunk, made, more) =
              >>=-eq-ok (resolve_chunk config py index hit) _ (rw kept at e) in
            let (others, made_others, all) =
              >>=-eq-ok (resolve_hits config py (suc index) hits) _ more in
            subst Chunks (ok_injective all) (
              subst (λ h. P h.id) (sym (resolve_chunk_hit config py index hit made)) here,
              resolve_hits-Chunks (suc index) hits rest made_others,
            )
      ]

  resolve_chunks-Chunks :
      (hits : List SearchHit) {chunks : List ResolvedChunk}
      → All (λ h. P h.id) hits
      → resolve_chunks config py hits ≡ ok chunks
      → Chunks chunks
  unfolding resolve_chunks
  resolve_chunks-Chunks hits h e =
      let (resolved, made, more) = >>=-eq-ok (resolve_hits config py 0 hits) _ e in
      let (checked, ordered) = >>-eq-ok (raise_if (is_mixed resolved) type_error) _ more in
      subst Chunks (ok_injective ordered) (
        sort-All (λ a b. chunk_less py b a) (λ c. P c.hit.id) resolved
          (resolve_hits-Chunks 0 hits h made))

  All-left : (xs ys : List ResolvedChunk) → Chunks (xs ++ ys) → Chunks xs × Chunks ys
  All-left [] ys h = (tt, h)
  All-left (x ∷ xs) ys (here, rest) =
      let (left, right) = All-left xs ys rest in ((here, left), right)

  assembled_chunk-Chunks :
      (window : List ResolvedChunk)
      → Chunks window
      → All (λ c. P c.chunk_id) (map assembled_chunk window)
  assembled_chunk-Chunks [] h = tt
  assembled_chunk-Chunks (c ∷ cs) (here, rest) = (here, assembled_chunk-Chunks cs rest)

  assemble_window_cites :
      (index : ℕ) (window : List ResolvedChunk) {w : AssembledContextWindow}
      → Chunks window
      → assemble_window config py index window ≡ ok w
      → All (λ c. P c.chunk_id) w.chunks
  assemble_window_cites index window h e =
      let (section, found, after_section) =
        >>=-eq-ok (resolve_window_value py (map (λ c. c.hit) window) config.header.section_fields) _
          e in
      let (page, found_page, after_page) =
        >>=-eq-ok (resolve_window_value py (map (λ c. c.hit) window) config.header.page_fields) _
          after_section in
      let (checked, made) = >>-eq-ok (raise_if (not (is_page page)) value_error) _ after_page in
      subst (λ v. All (λ c. P c.chunk_id) v.chunks) (ok_injective made)
        (assembled_chunk-Chunks window h)

  assemble_windows-Cites :
      (index : ℕ) (windows : List (List ResolvedChunk)) {ws : List AssembledContextWindow}
      → Chunks (flat windows)
      → assemble_windows config py index windows ≡ ok ws
      → Cites ws
  assemble_windows-Cites index [] h e = subst Cites (ok_injective e) tt
  assemble_windows-Cites index (window ∷ windows) h e =
      let (own, others) = All-left window (flat windows) h in
      let (w, made, more) = >>=-eq-ok (assemble_window config py index window) _ e in
      let (ws, made_others, all) =
        >>=-eq-ok (assemble_windows config py (suc index) windows) _ more in
      subst Cites (ok_injective all) (
        assemble_window_cites index window own made,
        assemble_windows-Cites (suc index) windows others made_others,
      )

  pub build_windows-Cites :
      (document : CollapsedSearchHit) {ws : List AssembledContextWindow}
      → 1 ≤ config.window.max_chunks_per_window
      → All (λ h. P h.id) document.chunks
      → build_windows config py document ≡ ok ws
      → Cites ws
  unfolding build_windows
  build_windows-Cites document room h e =
      let (chunks, resolved, after_chunks) =
        >>=-eq-ok (resolve_chunks config py document.chunks) _ e in
      let (windows, grouped, made) = >>=-eq-ok (group_windows config py chunks) _ after_chunks in
      let (parts, sized) = group_windows_partition config py chunks room grouped in
      assemble_windows-Cites 1 windows
        (subst Chunks (sym parts) (resolve_chunks-Chunks document.chunks h resolved)) made
