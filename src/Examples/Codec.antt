-- ===== src/Examples/Codec.antt =====
-- The codec's theorems at sample checkpoints.
use mathlib.Core.Bool.{false≢true}
use agent_backend.Prelude.{eq_iff, ◌≡◌, refl, inl, ok, err, type_error, ◌↔◌, pos}
use agent_backend.Json.{Fields, obj, arr, int, end, field, nil}
use agent_backend.Checkpoint.{to_payload}
use agent_backend.Checkpoint.Validate.{
  validate_counts, validate_step, validate_steps, validate_header, validate_checkpoint,
}
use agent_backend.Checkpoint.Encode.{encode_checkpoint, bytes}
use agent_backend.Checkpoint.Decode.{
  check_pending_action, check_step_action, decode_checkpoint, parsed,
}
use agent_backend.Checkpoint.WellFormed.{IsWellFormed, validate_checkpoint_iff}
use agent_backend.Checkpoint.Roundtrip.{
  decode-encode, decode-IsWellFormed, decode_unhashable, IsStorable,
}
use agent_backend.Examples.{platform, in_flight}

pub in_flight-IsStorable : IsStorable in_flight
unfolding check_step_action check_pending_action
in_flight-IsStorable = record {
  version = refl;
  actions = ((refl, λ h. false≢true ((eq_iff "succeeded" "").1 h)), tt);
  pending = refl;
}

in_flight_encoded : encode_checkpoint (λ _. bytes 10) 100 in_flight ≡ ok (to_payload in_flight)
unfolding encode_checkpoint validate_checkpoint validate_header validate_steps validate_step
    validate_counts
in_flight_encoded = refl

pub in_flight-IsWellFormed : IsWellFormed in_flight
unfolding validate_checkpoint validate_header validate_steps validate_step validate_counts
in_flight-IsWellFormed = (validate_checkpoint_iff in_flight).0 refl

decode-encode_example :
    decode_checkpoint platform 100 (parsed (obj (to_payload in_flight))) ≡ ok in_flight
decode-encode_example =
    decode-encode platform (λ _. bytes 10) 100 in_flight in_flight-IsStorable in_flight_encoded

decode-IsWellFormed_example : IsWellFormed in_flight
decode-IsWellFormed_example =
    decode-IsWellFormed platform 100 (parsed (obj (to_payload in_flight))) decode-encode_example

validate_checkpoint_iff_example : (validate_checkpoint in_flight ≡ ok tt) ↔ IsWellFormed in_flight
validate_checkpoint_iff_example = validate_checkpoint_iff in_flight

-- A pending action whose type is a list.
abbrev listed : Fields
listed = field "type" (arr nil) end

abbrev payload : Fields
payload = field "schema_version" (int (pos 1)) (field "pending_action" (obj listed) end)

decode_unhashable_example : decode_checkpoint platform 100 (parsed (obj payload)) ≡ err type_error
decode_unhashable_example =
    decode_unhashable platform 100 payload listed (inl nil) refl refl refl refl
