-- ===== src/Context/Windows/Grouping.antt =====
-- The loop of `_build_windows` cuts the ordered chunks into windows.
use mathlib.Core.Path.{subst}
use mathlib.Core.List.{append-nil, append_assoc}
use agent_backend.Prelude.{
  suc, ◌≤◌, ◌≡◌, refl, ap, ◌∙◌, Bool, true, false, not, List, [], ◌∷◌, ◌++◌, length, length-append,
  leb, if_elim, All, Result, ok, ◌>>=◌, >>=-eq-ok, ok_injective, arith,
}
use agent_backend.Context.{Texts, AssemblyConfig}
use agent_backend.Context.Chunks.{ResolvedChunk}
use agent_backend.Context.Windows.{should_merge_chunks, group_chunks, group_windows}

abbrev pub flat : List (List ResolvedChunk) → List ResolvedChunk
flat [] = []
flat (w ∷ ws) = w ++ flat ws

-- A window of a chunk at least, and of no more than the limit.
abbrev pub Sized : AssemblyConfig → List ResolvedChunk → Type 0
Sized config w = (1 ≤ length w) × (length w ≤ config.window.max_chunks_per_window)

module _ (config : AssemblyConfig) (py : Texts) where
  -- A merge leaves the window within the limit.
  merge_has_room :
      (previous current : ResolvedChunk) (window : List ResolvedChunk)
      → should_merge_chunks config py previous current window ≡ ok true
      → suc (length window) ≤ config.window.max_chunks_per_window
  unfolding should_merge_chunks
  merge_has_room previous current window =
      let HasPlace = λ (r : Result Bool).
        r ≡ ok true → suc (length window) ≤ config.window.max_chunks_per_window in
      if_elim HasPlace (not config.window.merge_adjacent_chunks) (λ off h. cc h)
        (λ on.
          if_elim HasPlace (leb config.window.max_chunks_per_window (length window))
            (λ full h. cc h) (λ room h. ground arith))

  group_chunks_partition :
      (before : List ResolvedChunk) (previous : ResolvedChunk) (chunks : List ResolvedChunk)
      {windows : List (List ResolvedChunk)}
      → suc (length before) ≤ config.window.max_chunks_per_window
      → group_chunks config py before previous chunks ≡ ok windows
      → (flat windows ≡ before ++ (previous ∷ chunks)) × All (Sized config) windows
  group_chunks_partition before previous [] {windows} room e =
      subst (λ ws. (flat ws ≡ before ++ (previous ∷ [])) × All (Sized config) ws) (ok_injective e)
        (
          append-nil (before ++ (previous ∷ [])),
          (
            (
              omega (arith, length-append before (previous ∷ [])),
              omega (arith, room, length-append before (previous ∷ [])),
            ),
            tt,
          ),
        )
  group_chunks_partition before previous (chunk ∷ chunks) {windows} room e =
      let window = before ++ (previous ∷ []) in
      let longer = length-append before (previous ∷ []) in
      let (merge, decided, rest) =
        >>=-eq-ok (should_merge_chunks config py previous chunk window) _ e in
      elim merge
          as (λ m.
            should_merge_chunks config py previous chunk window ≡ ok m
            → (elim m [
              | true ↦ group_chunks config py window chunk chunks
              | false ↦ (group_chunks config py [] chunk chunks >>= λ ws. ok (window ∷ ws))
            ])
              ≡ ok windows
            → (flat windows ≡ before ++ (previous ∷ (chunk ∷ chunks)))
              × All (Sized config) windows) [
                | true ↦ λ merged go.
                    let place = merge_has_room previous chunk window merged in
                    let (parts, sized) = group_chunks_partition window chunk chunks place go in
                    (parts ∙ append_assoc before (previous ∷ []) (chunk ∷ chunks), sized)
                | false ↦ λ apart go.
                    let (later, made, all) =
                      >>=-eq-ok (group_chunks config py [] chunk chunks) (λ ws. ok (window ∷ ws))
                        go in
                    let (parts, sized) =
                      group_chunks_partition [] chunk chunks (omega (arith, room)) made in
                    subst
                      (λ ws.
                        (flat ws ≡ before ++ (previous ∷ (chunk ∷ chunks))) × All (Sized config) ws)
                      (ok_injective all)
                      (
                        ap (λ cs. window ++ cs) parts
                            ∙ append_assoc before (previous ∷ []) (chunk ∷ chunks),
                        ((omega (arith, longer), omega (arith, longer, room)), sized),
                      )
              ]
        decided rest

  pub group_windows_partition :
      (chunks : List ResolvedChunk) {windows : List (List ResolvedChunk)}
      → 1 ≤ config.window.max_chunks_per_window
      → group_windows config py chunks ≡ ok windows
      → (flat windows ≡ chunks) × All (Sized config) windows
  group_windows_partition [] {windows} room e =
      subst (λ ws. (flat ws ≡ []) × All (Sized config) ws) (ok_injective e) (refl, tt)
  group_windows_partition (chunk ∷ chunks) room e = group_chunks_partition [] chunk chunks room e
