-- ===== src/Context/Assembly/Budget.antt =====
-- The assembled text keeps to its budgets.
use mathlib.Core.Path.{subst}
use agent_backend.Prelude.{
  ℕ, suc, ◌+◌, ◌-◌, ◌≤◌, ◌≡◌, refl, ap, ◌∙◌, sym, inl, inr, String, Bool, true, false, Bool-cases,
  Option, none, some, List, [], ◌∷◌, str_eq, if_elim, All, ◌<>◌, text_length, text_length-append,
  Result, ok, >>=-eq-ok, ok_injective, arith,
}
use agent_backend.Retrieval.{CollapsedSearchHit, RetrievalResult}
use agent_backend.Retrieval.Pipeline.{limit_documents}
use agent_backend.Context.{
  AssembledContextWindow, Texts, AssemblyConfig, AssembledDocumentContext, ContextAssemblyResult,
}
use agent_backend.Context.Windows.{build_windows}
use agent_backend.Context.Fitting.{fit_document_text}
use agent_backend.Context.Fitting.Bounds.{RstripShrinks, fit_document_text-bounded}
use agent_backend.Context.Assembly.{
  build_document_header, resolve_document_value, after_document, coerce_text, unless_empty, tighter,
  is_nothing, assemble_document, document_context, resolve_document_budget, is_spent, spend,
  Assembled, separator_after, assemble_documents, source_documents, assemble,
}

-- A text within a limit on its characters, or without one.
abbrev pub WithinChars : Option ℕ → String → Type 0
WithinChars none text = Unit
WithinChars (some n) text = text_length text ≤ n

module _ (config : AssemblyConfig) (py : Texts) (shrinks : RstripShrinks py) where
  abbrev AtMost : ℕ → Option AssembledDocumentContext → Type 0
  AtMost char_budget none = Unit
  AtMost char_budget (some d) = text_length d.text ≤ char_budget

  unless_empty_within :
      (char_budget : ℕ) (header : Option String) (windows : List AssembledContextWindow)
      (d : AssembledDocumentContext)
      → text_length d.text ≤ char_budget
      → AtMost char_budget (unless_empty header windows d)
  unless_empty_within char_budget header windows d h =
      if_elim (AtMost char_budget) (is_nothing header windows) (λ empty. tt)
        (λ shown. if_elim (AtMost char_budget) (str_eq d.text "") (λ blank. tt) (λ filled. h))

  assemble_document_within :
      (document : CollapsedSearchHit) (index : ℕ) (char_budget : Option ℕ)
      {d : AssembledDocumentContext}
      → assemble_document config py document index char_budget ≡ ok (some d)
      → WithinChars char_budget d.text
  unfolding assemble_document
  assemble_document_within document index none {d} e = tt
  assemble_document_within document index (some char_budget) {d} e =
      let (windows, built, made) = >>=-eq-ok (build_windows config py document) _ e in
      let title =
        coerce_text config py (resolve_document_value py document config.header.title_fields) in
      let source =
        coerce_text config py (resolve_document_value py document config.header.source_fields) in
      let header = build_document_header config py document index title source in
      let fitted = fit_document_text config py header windows (some char_budget) in
      subst (AtMost char_budget) (ok_injective made) (
        unless_empty_within char_budget header windows
          (document_context document header title source fitted)
          (fit_document_text-bounded config py shrinks header windows char_budget))

  tighter_within :
      (limit : Option ℕ) (available : ℕ) (text : String)
      → text_length text ≤ tighter limit available
      → WithinChars limit text × (text_length text ≤ available)
  tighter_within none available text h = (tt, h)
  tighter_within (some budget) available text h = (ground arith, ground arith)

  has_room :
      (limit : Option ℕ) (available : ℕ)
      → is_spent (some (tighter limit available)) ≡ false
      → 1 ≤ available
  has_room none available h = ground arith
  has_room (some budget) available h = ground arith

  budget_within :
      (remaining : Option ℕ) (separator text : String)
      → is_spent (resolve_document_budget config remaining separator) ≡ false
      → WithinChars (resolve_document_budget config remaining separator) text
      → WithinChars config.budget.max_document_chars text
        × WithinChars remaining (separator <> text)
  budget_within none separator text room within = (within, tt)
  budget_within (some remaining) separator text room within =
      let available = remaining - text_length separator in
      let (document, rest) =
        tighter_within config.budget.max_document_chars available text within in
      let some_left = has_room config.budget.max_document_chars available room in
      (document, omega (arith, text_length-append separator text, rest, some_left))

  -- What is left of the characters after a text within them.
  spend_within :
      (remaining : Option ℕ) (first rest : String)
      → WithinChars remaining first
      → WithinChars (spend remaining (text_length first)) rest
      → WithinChars remaining (first <> rest)
  spend_within none first rest h more = tt
  spend_within (some remaining) first rest h more =
      omega (arith, text_length-append first rest, h, more)

  nothing_within : (remaining : Option ℕ) → WithinChars remaining ""
  nothing_within none = tt
  nothing_within (some n) = omega arith

  -- The text made so far within what remained, and each document's within its own limit.
  abbrev KeptWithin : Option ℕ → Assembled → Type 0
  KeptWithin remaining a =
      WithinChars remaining a.text
      × All (λ d. WithinChars config.budget.max_document_chars d.text) a.documents

  after_document_within :
      (later : Bool → Option ℕ → Result Assembled)
      → ((first : Bool) (left : Option ℕ) (b : Assembled)
          → later first left ≡ ok b
          → KeptWithin left b)
      → (is_first : Bool) (remaining : Option ℕ) (separator : String)
        (assembled : Option AssembledDocumentContext) {a : Assembled}
      → ((d : AssembledDocumentContext)
          → assembled ≡ some d
          → WithinChars config.budget.max_document_chars d.text
            × WithinChars remaining (separator <> d.text))
      → after_document later is_first remaining separator assembled ≡ ok a
      → KeptWithin remaining a
  after_document_within later keeps is_first remaining separator none {a} within e =
      keeps is_first remaining a e
  after_document_within later keeps is_first remaining separator (some d) within e =
      let (own, all) = within d refl in
      let size = text_length-append separator d.text in
      let left = spend remaining (text_length separator + text_length d.text) in
      elim (Bool-cases (is_spent left)) [
        | inl spent ↦
            subst (KeptWithin remaining) (ok_injective (rw spent at e))
              (spend_within remaining (separator <> d.text) "" all (nothing_within _), (own, tt))
        | inr some_left ↦
            let (rest, made, added) = >>=-eq-ok (later false left) _ (rw some_left at e) in
            let (text, documents) = keeps false left rest made in
            subst (KeptWithin remaining) (ok_injective added) (
              spend_within remaining (separator <> d.text) rest.text all
                  (subst (λ n. WithinChars (spend remaining n) rest.text) (sym size) text),
              (own, documents),
            )
      ]

  assemble_documents_within :
      (index : ℕ) (is_first : Bool) (remaining : Option ℕ) (documents : List CollapsedSearchHit)
      {a : Assembled}
      → assemble_documents config py index is_first remaining documents ≡ ok a
      → KeptWithin remaining a
  assemble_documents_within index is_first remaining [] {a} e =
      subst (KeptWithin remaining) (ok_injective e) (nothing_within remaining, tt)
  assemble_documents_within index is_first remaining (document ∷ documents) {a} e =
      let separator = separator_after config is_first in
      elim (Bool-cases (is_spent (resolve_document_budget config remaining separator))) [
        | inl spent ↦
            subst (KeptWithin remaining) (ok_injective (rw spent at e))
              (nothing_within remaining, tt)
        | inr room ↦
            let (assembled, made, rest) =
              >>=-eq-ok
                (assemble_document config py document index
                  (resolve_document_budget config remaining separator))
                _ (rw room at e) in
            after_document_within
              (λ first left. assemble_documents config py (suc index) first left documents)
              (λ first left b. assemble_documents_within (suc index) first left documents {a = b})
              is_first remaining separator assembled
              (λ d shown. budget_within remaining separator d.text room (
                assemble_document_within document index
                  (resolve_document_budget config remaining separator) (made ∙ ap ok shown)))
              rest
      ]

  -- The assembled text has no more characters than the budget in total, and every document's text no
  -- more than the budget for one, where there are such budgets.
  pub assemble-bounded :
      (result : Option RetrievalResult) (documents : Option (List CollapsedSearchHit))
      {r : ContextAssemblyResult}
      → assemble config py result documents ≡ ok r
      → WithinChars config.budget.max_total_chars r.context_text
        × All (λ d. WithinChars config.budget.max_document_chars d.text) r.documents
  unfolding assemble
  assemble-bounded result documents {r} e =
      let (given, found, after) = >>=-eq-ok (source_documents result documents) _ e in
      let kept = limit_documents config.budget.max_documents given in
      let (assembled, made, all) =
        >>=-eq-ok (assemble_documents config py 1 true config.budget.max_total_chars kept) _
          after in
      subst
        (λ s.
          WithinChars config.budget.max_total_chars s.context_text
          × All (λ d. WithinChars config.budget.max_document_chars d.text) s.documents)
        (ok_injective all)
        (assemble_documents_within 1 true config.budget.max_total_chars kept made)
