-- ===== src/Checkpoint/Encode.antt =====
-- `encode_checkpoint` of pkg/agents/state.py.
use agent_backend.Prelude.{ℕ, Result, ok, err, checkpoint_serialization, ◌>>◌, raise_if, ltb}
use agent_backend.Json.{Fields, Value, obj}
use agent_backend.Checkpoint.{Checkpoint, to_payload}
use agent_backend.Checkpoint.Validate.{validate_checkpoint}

-- What `orjson_dumps_bytes(payload, default=_reject_unknown_type)` gives: the number of bytes, or
-- the exception. The function is third-party code, so a parameter of `encode_checkpoint`.
pub data Dumped : Type 0 where
  bytes : ℕ → Dumped
  not_serializable not_encodable : Dumped

abbrev pub check_size : Dumped → ℕ → Fields → Result Fields
check_size (bytes n) max_bytes payload = do
  raise_if (ltb max_bytes n) checkpoint_serialization
  ok payload
check_size not_serializable max_bytes payload = err checkpoint_serialization
check_size not_encodable max_bytes payload = err checkpoint_serialization

unfoldable pub encode_checkpoint : (Value → Dumped) → ℕ → Checkpoint → Result Fields
encode_checkpoint dumps max_bytes c = do
  validate_checkpoint c
  check_size (dumps (obj (to_payload c))) max_bytes (to_payload c)
