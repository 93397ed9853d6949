-- ===== src/Checkpoint/Readers.antt =====
-- The readers of single fields in pkg/agents/state.py: `_require_str` and its siblings.
use agent_backend.Prelude.{
  ℕ, String, Option, none, some, ℤ, pos, Result, ok, err, checkpoint_validation, overflow_error,
  ◌>>=◌, ◌>>◌, raise_if,
}
use agent_backend.Json.{Value, Fields, null, int, float, str, obj, end, get, get_or}
use agent_backend.Checkpoint.Validate.{is_empty}

abbrev as_str : Value → Result String
as_str (str s) = ok s
as_str _ = err checkpoint_validation

abbrev pub as_optional_str : Value → Result (Option String)
as_optional_str null = ok none
as_optional_str (str s) = ok (some s)
as_optional_str _ = err checkpoint_validation

-- A `bool` is refused, though Python counts it among the integers.
abbrev as_int : Value → Result ℤ
as_int (int n) = ok n
as_int _ = err checkpoint_validation

abbrev as_mapping : Value → Result Fields
as_mapping null = ok end
as_mapping (obj fs) = ok fs
as_mapping _ = err checkpoint_validation

-- `float(value)` of an integer: `none` is Python's `OverflowError`.
abbrev converted : Option ℕ → Result ℕ
converted none = err overflow_error
converted (some x) = ok x

abbrev as_number : (ℤ → Option ℕ) → Value → Result ℕ
as_number float_of_int (int n) = converted (float_of_int n)
as_number float_of_int (float x) = ok x
as_number float_of_int _ = err checkpoint_validation

abbrev pub require_str : Fields → String → Result String
require_str raw key = as_str (get raw key)

abbrev pub require_non_empty_str : Fields → String → Result String
require_non_empty_str raw key = do
  value ← require_str raw key
  raise_if (is_empty value) checkpoint_validation
  ok value

abbrev pub optional_str : Fields → String → Result (Option String)
optional_str raw key = as_optional_str (get raw key)

abbrev pub require_int : Fields → String → Result ℤ
require_int raw key = as_int (get raw key)

abbrev pub require_number : (ℤ → Option ℕ) → Fields → String → Result ℕ
require_number float_of_int raw key = as_number float_of_int (get_or raw key (int (pos 0)))

abbrev pub require_mapping : Fields → String → Result Fields
require_mapping raw key = as_mapping (get raw key)
