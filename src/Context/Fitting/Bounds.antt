-- ===== src/Context/Fitting/Bounds.antt =====
-- What the character budget of a document guarantees.
use agent_backend.Prelude.{
  ℕ, ◌+◌, ◌-◌, ◌≤◌, ◌≡◌, refl, ap, String, false, Option, none, some, List, [], ◌∷◌, leb, str_eq,
  if_elim, ◌<>◌, text_length, text_length-append, prefix, text_length-prefix, arith,
}
use agent_backend.Context.{Texts, AssemblyConfig, AssembledContextWindow}
use agent_backend.Context.Fitting.{
  truncate_text, Fitted, Place, at_start, after_header, after_window, separator_at, fits, fit_cut,
  budget_of, fit_windows, fit_document_text,
}

abbrev FitsIn : ℕ → Fitted → Type 0
FitsIn char_budget f = text_length f.text ≤ char_budget

-- What the bounds rely on: `rstrip` never makes a text longer.
abbrev pub RstripShrinks : Texts → Type 0
RstripShrinks py = (s : String) → text_length (py.rstrip s) ≤ text_length s

module _ (config : AssemblyConfig) (py : Texts) (shrinks : RstripShrinks py) where
  -- A truncated text is within its limit, ellipsis included.
  truncate_text-bounded :
      (text : String) (limit : ℕ) → text_length (truncate_text config py text limit) ≤ limit
  unfolding truncate_text
  truncate_text-bounded text limit =
      let room = limit - text_length config.ellipsis in
      let stripped = shrinks (prefix room text) in
      let cut = text_length-prefix room text in
      let joined = text_length-append (py.rstrip (prefix room text)) config.ellipsis in
      if_elim (λ s. text_length s ≤ limit) (leb limit 0) (λ h. omega arith)
        (λ h.
          if_elim (λ s. text_length s ≤ limit) (leb (text_length text) limit)
            (λ short. ground arith)
            (λ long.
              if_elim (λ s. text_length s ≤ limit) (leb limit (text_length config.ellipsis))
                (λ tight. text_length-prefix limit text) (λ roomy. ground arith)))

  length-parts :
      (text separator last : String)
      → text_length (text <> (separator <> last))
        ≡ text_length text + text_length separator + text_length last
  length-parts text separator last =
      omega (arith, text_length-append text (separator <> last), text_length-append separator last)

  fit_cut_bounded :
      (text separator : String) (w : AssembledContextWindow) (char_budget : ℕ)
      → text_length text ≤ char_budget
      → text_length
          (fit_cut config py text separator w
            (char_budget - text_length text - text_length separator)).text
        ≤ char_budget
  fit_cut_bounded text separator w char_budget h =
      let remaining = char_budget - text_length text - text_length separator in
      let cut = truncate_text-bounded w.text remaining in
      let parts = length-parts text separator (truncate_text config py w.text remaining) in
      if_elim (FitsIn char_budget) (leb remaining 0) (λ spent. h)
        (λ left.
          if_elim (FitsIn char_budget) (str_eq (truncate_text config py w.text remaining) "")
            (λ empty. h) (λ filled. ground arith))

  fit_windows_bounded :
      (char_budget : ℕ) (place : Place) (text : String) (ws : List AssembledContextWindow)
      → text_length text ≤ char_budget
      → text_length (fit_windows config py (some char_budget) place text ws).text ≤ char_budget
  fit_windows_bounded char_budget place text [] h = h
  fit_windows_bounded char_budget place text (w ∷ ws) h =
      let separator = separator_at config place in
      let parts = length-parts text separator w.text in
      let rest = fit_windows_bounded char_budget after_window (text <> (separator <> w.text)) ws in
      if_elim (FitsIn char_budget)
        (leb (text_length text + text_length separator + text_length w.text) char_budget)
        (λ fit. rest ground arith) (λ over. fit_cut_bounded text separator w char_budget h)

  -- A document's text is never longer than its budget.
  pub fit_document_text-bounded :
      (header : Option String) (windows : List AssembledContextWindow) (char_budget : ℕ)
      → text_length (fit_document_text config py header windows (some char_budget)).text
        ≤ char_budget
  unfolding fit_document_text
  fit_document_text-bounded none windows char_budget =
      if_elim (FitsIn char_budget) (leb char_budget 0) (λ spent. omega arith)
        (λ left. fit_windows_bounded char_budget at_start "" windows (omega arith))
  fit_document_text-bounded (some header) windows char_budget =
      if_elim (FitsIn char_budget) (leb char_budget 0) (λ spent. omega arith)
        (λ left.
          if_elim (FitsIn char_budget) (leb char_budget (text_length header))
            (λ long. truncate_text-bounded header char_budget)
            (λ short. fit_windows_bounded char_budget after_header header windows ground arith))

-- A budget of at least one character, or none.
abbrev HasRoom : Option ℕ → Type 0
HasRoom none = Unit
HasRoom (some char_budget) = 1 ≤ char_budget

-- Windows are given up only with the flag set.
abbrev KeepsAll : List AssembledContextWindow → Fitted → Type 0
KeepsAll ws f = f.truncated ≡ false → f.windows ≡ ws

module _ (config : AssemblyConfig) (py : Texts) where
  fit_windows-KeepsAll :
      (char_budget : Option ℕ) (place : Place) (text : String) (ws : List AssembledContextWindow)
      → KeepsAll ws (fit_windows config py char_budget place text ws)
  fit_windows-KeepsAll char_budget place text [] = λ h. refl
  fit_windows-KeepsAll char_budget place text (w ∷ ws) =
      let separator = separator_at config place in
      let candidate_length = text_length text + text_length separator + text_length w.text in
      let rest = fit_windows-KeepsAll char_budget after_window (text <> (separator <> w.text)) ws in
      if_elim (KeepsAll (w ∷ ws)) (fits char_budget candidate_length)
        (λ fit h. ap (λ vs. w ∷ vs) (rest h))
        (λ over.
          if_elim (KeepsAll (w ∷ ws))
            (leb (budget_of char_budget - text_length text - text_length separator) 0)
            (λ spent h. cc h)
            (λ left.
              if_elim (KeepsAll (w ∷ ws))
                (str_eq
                  (truncate_text config py w.text
                    (budget_of char_budget - text_length text - text_length separator))
                  "")
                (λ empty h. cc h) (λ filled h. cc h)))

  -- With a budget of at least one character, or without one, a document that is not flagged as
  -- truncated has all its windows, each as it was.
  pub fit_document_text_complete :
      (header : Option String) (windows : List AssembledContextWindow) (char_budget : Option ℕ)
      → HasRoom char_budget
      → (fit_document_text config py header windows char_budget).truncated ≡ false
      → (fit_document_text config py header windows char_budget).windows ≡ windows
  unfolding fit_document_text
  fit_document_text_complete none windows none positive =
      fit_windows-KeepsAll none at_start "" windows
  fit_document_text_complete (some header) windows none positive =
      fit_windows-KeepsAll none after_header header windows
  fit_document_text_complete none windows (some char_budget) positive =
      if_elim (KeepsAll windows) (leb char_budget 0) (λ spent. absurd ground arith)
        (λ left. fit_windows-KeepsAll (some char_budget) at_start "" windows)
  fit_document_text_complete (some header) windows (some char_budget) positive =
      if_elim (KeepsAll windows) (leb char_budget 0) (λ spent. absurd ground arith)
        (λ left.
          if_elim (KeepsAll windows) (leb char_budget (text_length header)) (λ long h. cc h)
            (λ short. fit_windows-KeepsAll (some char_budget) after_header header windows))
