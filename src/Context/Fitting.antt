-- ===== src/Context/Fitting.antt =====
-- The character budget of pkg/vectors/context_assembly.py: `_truncate_text` and `_fit_document_text`.
-- Budgets are natural numbers: where the code goes below zero, it tests for `<= 0` and returns.
pub mod Bounds
use agent_backend.Prelude.{
  ℕ, ◌+◌, ◌-◌, String, Bool, true, false, Option, none, some, List, [], ◌∷◌, ltb, leb, str_eq,
  if◌then◌else◌, ◌<>◌, text_length, prefix,
}
use agent_backend.Context.{Texts, AssemblyConfig, AssembledContextWindow}

-- `_truncate_text`
unfoldable pub truncate_text : AssemblyConfig → Texts → String → ℕ → String
truncate_text config py text limit =
    if leb limit 0
    then ""
    else if leb (text_length text) limit
    then text
    else if leb limit (text_length config.ellipsis)
    then prefix limit text
    else py.rstrip (prefix (limit - text_length config.ellipsis) text) <> config.ellipsis

-- The text, the windows and the flag that `_fit_document_text` returns.
pub record Fitted : Type 0 where
  pub text : String
  pub windows : List AssembledContextWindow
  pub truncated : Bool

-- What is put before a window: after the header its separator, after a window theirs.
pub data Place : Type 0 where
  at_start after_header after_window : Place

abbrev pub separator_at : AssemblyConfig → Place → String
separator_at config at_start = ""
separator_at config after_header = config.header_body_separator
separator_at config after_window = config.window.window_separator

abbrev pub fits : Option ℕ → ℕ → Bool
fits none length = true
fits (some char_budget) length = leb length char_budget

abbrev cut_window : AssembledContextWindow → String → AssembledContextWindow
cut_window w text = record {
  window_index = w.window_index;
  chunk_ids = w.chunk_ids;
  text = text;
  header = w.header;
  section = w.section;
  page = w.page;
  truncated = true;
  chunks = w.chunks;
}

-- The window that does not fit, with `remaining` characters left for it: its text is cut, or it is left out.
abbrev pub fit_cut : AssemblyConfig → Texts → String → String → AssembledContextWindow → ℕ → Fitted
fit_cut config py text separator w remaining =
    let cut = truncate_text config py w.text remaining in
    if leb remaining 0
    then record { text = text; windows = []; truncated = true }
    else if str_eq cut ""
    then record { text = text; windows = []; truncated = true }
    else record {
      text = text <> (separator <> cut);
      windows = cut_window w cut ∷ [];
      truncated = true;
    }

abbrev with_window : AssembledContextWindow → Fitted → Fitted
with_window w rest = record {
  text = rest.text;
  windows = w ∷ rest.windows;
  truncated = rest.truncated;
}

abbrev pub budget_of : Option ℕ → ℕ
budget_of none = 0
budget_of (some char_budget) = char_budget

-- The loop, where `text` is joined from the parts so far and `windows` are the ones to come.
abbrev pub fit_windows :
    AssemblyConfig → Texts → Option ℕ → Place → String → List AssembledContextWindow → Fitted
fit_windows config py char_budget place text [] = record {
  text = text;
  windows = [];
  truncated = false;
}
fit_windows config py char_budget place text (w ∷ ws) =
    let separator = separator_at config place in
    let candidate_length = text_length text + text_length separator + text_length w.text in
    let rest = fit_windows config py char_budget after_window (text <> (separator <> w.text)) ws in
    if fits char_budget candidate_length
    then with_window w rest
    else fit_cut config py text separator w
        (budget_of char_budget - text_length text - text_length separator)

abbrev fit_after :
    AssemblyConfig → Texts → Option String → List AssembledContextWindow → Option ℕ → Fitted
fit_after config py none windows char_budget = fit_windows config py char_budget at_start "" windows
fit_after config py (some header) windows char_budget =
    fit_windows config py char_budget after_header header windows

abbrev fit_within :
    AssemblyConfig → Texts → Option String → List AssembledContextWindow → ℕ → Fitted
fit_within config py header windows char_budget =
    if leb char_budget 0
    then record { text = ""; windows = []; truncated = false }
    else elim header [
      | none ↦ fit_after config py none windows (some char_budget)
      | some h ↦
          if leb char_budget (text_length h)
          then record {
            text = truncate_text config py h char_budget;
            windows = [];
            truncated = true;
          }
          else fit_after config py (some h) windows (some char_budget)
    ]

-- `_fit_document_text`
unfoldable pub fit_document_text :
    AssemblyConfig → Texts → Option String → List AssembledContextWindow → Option ℕ → Fitted
fit_document_text config py header windows none = fit_after config py header windows none
fit_document_text config py header windows (some char_budget) =
    fit_within config py header windows char_budget
