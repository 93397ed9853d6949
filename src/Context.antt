-- ===== src/Context.antt =====
-- The context assembly of pkg/vectors/context_assembly.py, which makes the text for the prompt from
-- retrieved documents: its configurations and its results.
pub mod Values
pub mod Chunks
pub mod Windows
pub mod Fitting
pub mod Assembly
use agent_backend.Prelude.{ℕ, ℤ, String, Bool, Option, List, Result}
use agent_backend.Json.{Value, Fields}
use agent_backend.Retrieval.{SearchHit, Python}

-- Python's functions on texts and numbers: `strip`, `rstrip`, `lower`, the substitution of runs of
-- newlines, `<`, `float` of a text (none where it raises `ValueError`) and of an integer, the
-- difference of floats, a small integer as a float, `<` and `==` of numbers, what is hashable, and
-- the value that a list of hits is.
pub record Texts : Type 0 where
  pub python : Python
  pub strip : String → String
  pub rstrip : String → String
  pub lower : String → String
  pub squeeze_newlines : String → String
  pub text_less : String → String → Bool
  pub parse_float : String → Option ℕ
  pub float_of : ℤ → Result ℕ
  pub minus : ℕ → ℕ → ℕ
  pub small : ℕ → ℕ
  pub number_less : Value → Value → Bool
  pub is_hashable : Value → Bool
  pub list_value : List SearchHit → Value

-- ContextHeaderConfig
pub record HeaderConfig : Type 0 where
  pub enabled : Bool
  pub include_document_key : Bool
  pub include_retrieval_mode : Bool
  pub title_fields : List String
  pub source_fields : List String
  pub section_fields : List String
  pub page_fields : List String

-- ContextWindowConfig
pub record WindowConfig : Type 0 where
  pub order_fields : List String
  pub merge_adjacent_chunks : Bool
  pub adjacent_order_gap : ℕ
  pub max_chunks_per_window : ℕ
  pub chunk_separator : String
  pub window_separator : String
  pub include_headers : Bool

-- ContextBudgetConfig
pub record BudgetConfig : Type 0 where
  pub max_documents : Option ℕ
  pub max_total_chars : Option ℕ
  pub max_document_chars : Option ℕ

-- ContextAssemblyConfig
pub record AssemblyConfig : Type 0 where
  pub header : HeaderConfig
  pub window : WindowConfig
  pub budget : BudgetConfig
  pub document_separator : String
  pub header_body_separator : String
  pub normalize_whitespace : Bool
  pub drop_empty_chunks : Bool
  pub ellipsis : String

pub record AssembledContextChunk : Type 0 where
  pub chunk_id : ℕ
  pub text : String
  pub metadata : Fields
  pub payload : Fields
  pub order_field : Option String
  pub order_value : Option Value

pub record AssembledContextWindow : Type 0 where
  pub window_index : ℕ
  pub chunk_ids : List ℕ
  pub text : String
  pub header : Option String
  pub section : Option String
  pub page : Value
  pub truncated : Bool
  pub chunks : List AssembledContextChunk

pub record AssembledDocumentContext : Type 0 where
  pub document_key : Value
  pub text : String
  pub header : Option String
  pub title : Option String
  pub source : Option String
  pub retrieval_mode : Option String
  pub relevance_score : Option ℕ
  pub raw_score : Option ℕ
  pub chunk_ids : List ℕ
  pub windows : List AssembledContextWindow
  pub metadata : Fields
  pub payload : Fields
  pub truncated : Bool

pub record ContextAssemblyStats : Type 0 where
  pub input_document_count : ℕ
  pub returned_document_count : ℕ
  pub input_chunk_count : ℕ
  pub returned_chunk_count : ℕ
  pub window_count : ℕ
  pub truncated_document_count : ℕ
  pub truncated_window_count : ℕ

pub record ContextAssemblyResult : Type 0 where
  pub documents : List AssembledDocumentContext
  pub context_text : String
  pub stats : ContextAssemblyStats
