-- ===== src/Context/Assembly/Cited.antt =====
-- The chunks that an assembled context cites are chunks of the documents that it was given, and so,
-- after a retrieval, hits.
use mathlib.Core.Path.{subst}
use agent_backend.Prelude.{
  ℕ, suc, ◌+◌, ◌-◌, ◌≤◌, ◌≡◌, inl, inr, String, Bool, true, false, Bool-cases, Option, none, some,
  List, [], ◌∷◌, map, leb, str_eq, if_elim, take-All, All, All-append, ◌<>◌, text_length, Result,
  ok, >>=-eq-ok, ok_injective,
}
use agent_backend.Retrieval.{SearchHit, CollapsedSearchHit, RetrievalConfig, RetrievalResult}
use agent_backend.Retrieval.Pipeline.{Query, run, limit_documents}
use agent_backend.Retrieval.Pipeline.Laws.{without_rerankers}
use agent_backend.Retrieval.Pipeline.Origin.{run-All}
use agent_backend.Context.{
  Texts, AssemblyConfig, AssembledContextChunk, AssembledContextWindow, AssembledDocumentContext,
  ContextAssemblyResult,
}
use agent_backend.Context.Values.{coerce_text, resolve_document_value}
use agent_backend.Context.Windows.{build_windows}
use agent_backend.Context.Fitting.{
  truncate_text, Fitted, Place, at_start, after_header, after_window, separator_at, fits, budget_of,
  fit_windows, fit_document_text,
}
use agent_backend.Context.Assembly.{
  build_document_header, chunk_ids_of, is_nothing, assemble_document, resolve_document_budget,
  is_spent, spend, Assembled, separator_after, after_document, assemble_documents, assemble,
}
use agent_backend.Context.Windows.Cited.{Cites, build_windows-Cites}

module _ (P : ℕ → Type 0) (config : AssemblyConfig) (py : Texts) where
  -- Fitting leaves windows out, or cuts their text.
  abbrev FitCites : Fitted → Type 0
  FitCites f = Cites P config py f.windows

  fit_windows-FitCites :
      (char_budget : Option ℕ) (place : Place) (text : String) (ws : List AssembledContextWindow)
      → Cites P config py ws
      → FitCites (fit_windows config py char_budget place text ws)
  fit_windows-FitCites char_budget place text [] h = tt
  fit_windows-FitCites char_budget place text (w ∷ ws) (here, rest) =
      let separator = separator_at config place in
      let remaining = budget_of char_budget - text_length text - text_length separator in
      if_elim FitCites
        (fits char_budget (text_length text + text_length separator + text_length w.text))
        (λ fit. (
          here,
          fit_windows-FitCites char_budget after_window (text <> (separator <> w.text)) ws rest,
        ))
        (λ over.
          if_elim FitCites (leb remaining 0) (λ spent. tt)
            (λ left.
              if_elim FitCites (str_eq (truncate_text config py w.text remaining) "") (λ empty. tt)
                (λ filled. (here, tt))))

  fit_document_text-FitCites :
      (header : Option String) (windows : List AssembledContextWindow) (char_budget : Option ℕ)
      → Cites P config py windows
      → FitCites (fit_document_text config py header windows char_budget)
  unfolding fit_document_text
  fit_document_text-FitCites none windows none h = fit_windows-FitCites none at_start "" windows h
  fit_document_text-FitCites (some header) windows none h =
      fit_windows-FitCites none after_header header windows h
  fit_document_text-FitCites none windows (some n) h =
      if_elim FitCites (leb n 0) (λ spent. tt)
        (λ left. fit_windows-FitCites (some n) at_start "" windows h)
  fit_document_text-FitCites (some header) windows (some n) h =
      if_elim FitCites (leb n 0) (λ spent. tt)
        (λ left.
          if_elim FitCites (leb n (text_length header)) (λ long. tt)
            (λ short. fit_windows-FitCites (some n) after_header header windows h))

  chunk_ids_cited :
      (ws : List AssembledContextWindow) → Cites P config py ws → All P (chunk_ids_of ws)
  chunk_ids_cited [] h = tt
  chunk_ids_cited (w ∷ ws) (here, rest) =
      All-append P (map (λ c. c.chunk_id) w.chunks) (chunk_ids_of ws) (ids_cited w.chunks here)
        (chunk_ids_cited ws rest)
    where
      ids_cited :
          (cs : List AssembledContextChunk)
          → All (λ c. P c.chunk_id) cs
          → All P (map (λ c. c.chunk_id) cs)
      ids_cited [] h = tt
      ids_cited (c ∷ cs) (here, rest) = (here, ids_cited cs rest)

  abbrev CitedIn : Option AssembledDocumentContext → Type 0
  CitedIn none = Unit
  CitedIn (some d) = All P d.chunk_ids

  assemble_document_cited :
      (document : CollapsedSearchHit) (index : ℕ) (char_budget : Option ℕ)
      {o : Option AssembledDocumentContext}
      → 1 ≤ config.window.max_chunks_per_window
      → All (λ h. P h.id) document.chunks
      → assemble_document config py document index char_budget ≡ ok o
      → CitedIn o
  unfolding assemble_document
  assemble_document_cited document index char_budget room h e =
      let (windows, built, made) = >>=-eq-ok (build_windows config py document) _ e in
      let title =
        coerce_text config py (resolve_document_value py document config.header.title_fields) in
      let source =
        coerce_text config py (resolve_document_value py document config.header.source_fields) in
      let header = build_document_header config py document index title source in
      let fitted = fit_document_text config py header windows char_budget in
      let cited =
        fit_document_text-FitCites header windows char_budget
          (build_windows-Cites P config py document room h built) in
      subst CitedIn (ok_injective made) (
        if_elim CitedIn (is_nothing header windows) (λ empty. tt)
          (λ shown.
            if_elim CitedIn (str_eq fitted.text "") (λ blank. tt)
              (λ filled. chunk_ids_cited fitted.windows cited)))

  abbrev AllCited : Assembled → Type 0
  AllCited a = All (λ d. All P d.chunk_ids) a.documents

  after_document-AllCited :
      (later : Bool → Option ℕ → Result Assembled)
      → ((first : Bool) (left : Option ℕ) (b : Assembled) → later first left ≡ ok b → AllCited b)
      → (is_first : Bool) (remaining : Option ℕ) (separator : String)
        (assembled : Option AssembledDocumentContext) {a : Assembled}
      → CitedIn assembled
      → after_document later is_first remaining separator assembled ≡ ok a
      → AllCited a
  after_document-AllCited later keeps is_first remaining separator none {a} cited e =
      keeps is_first remaining a e
  after_document-AllCited later keeps is_first remaining separator (some d) cited e =
      let left = spend remaining (text_length separator + text_length d.text) in
      elim (Bool-cases (is_spent left)) [
        | inl spent ↦ subst AllCited (ok_injective (rw spent at e)) (cited, tt)
        | inr some_left ↦
            let (rest, made, added) = >>=-eq-ok (later false left) _ (rw some_left at e) in
            subst AllCited (ok_injective added) (cited, keeps false left rest made)
      ]

  assemble_documents-AllCited :
      (index : ℕ) (is_first : Bool) (remaining : Option ℕ) (documents : List CollapsedSearchHit)
      {a : Assembled}
      → 1 ≤ config.window.max_chunks_per_window
      → All (λ d. All (λ h. P h.id) d.chunks) documents
      → assemble_documents config py index is_first remaining documents ≡ ok a
      → AllCited a
  assemble_documents-AllCited index is_first remaining [] room h e =
      subst AllCited (ok_injective e) tt
  assemble_documents-AllCited index is_first remaining (document ∷ documents) room (here, rest) e =
      let separator = separator_after config is_first in
      let available_chars = resolve_document_budget config remaining separator in
      elim (Bool-cases (is_spent available_chars)) [
        | inl spent ↦ subst AllCited (ok_injective (rw spent at e)) tt
        | inr left ↦
            let (assembled, made, more) =
              >>=-eq-ok (assemble_document config py document index available_chars) _
                (rw left at e) in
            after_document-AllCited
              (λ first left. assemble_documents config py (suc index) first left documents)
              (λ first left b.
                assemble_documents-AllCited (suc index) first left documents {a = b} room rest)
              is_first remaining separator assembled
              (assemble_document_cited document index available_chars room here made) more
      ]

  cut_documents :
      (limit : Option ℕ) (documents : List CollapsedSearchHit)
      → All (λ d. All (λ h. P h.id) d.chunks) documents
      → All (λ d. All (λ h. P h.id) d.chunks) (limit_documents limit documents)
  cut_documents none documents h = h
  cut_documents (some n) documents h = take-All (λ d. All (λ h. P h.id) d.chunks) n documents h

-- Every chunk that the context assembled from a retrieval cites is one of the hits that the retrieval
-- was given: what holds of the ids of all hits holds of all the ids that the context's documents
-- list. The retrieval has no rerankers, a window has room for a chunk at least, and both return.
pub run-assemble :
    (P : ℕ → Type 0) (retrieval : RetrievalConfig) (config : AssemblyConfig) (py : Texts)
    (hits : List SearchHit) (query : Query) {r : RetrievalResult} {context : ContextAssemblyResult}
    → 1 ≤ config.window.max_chunks_per_window
    → All (λ h. P h.id) hits
    → run retrieval without_rerankers py.python hits query ≡ ok r
    → assemble config py (some r) none ≡ ok context
    → All (λ d. All P d.chunk_ids) context.documents
unfolding assemble
run-assemble P retrieval config py hits query {r} {context} room h found e =
    let given = run-All (λ h. P h.id) py.python retrieval hits query h found in
    let kept = limit_documents config.budget.max_documents r.documents in
    let (assembled, made, all) =
      >>=-eq-ok (assemble_documents config py 1 true config.budget.max_total_chars kept) _ e in
    subst (λ c. All (λ d. All P d.chunk_ids) c.documents) (ok_injective all)
      (assemble_documents-AllCited P config py 1 true config.budget.max_total_chars kept room
        (cut_documents P config py config.budget.max_documents r.documents given) made)
