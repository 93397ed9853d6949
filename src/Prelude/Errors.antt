-- ===== src/Prelude/Errors.antt =====
-- Exceptions as values: the errors of pkg/agents/state.py, pkg/agents/react.py and the
-- `AppException`s of internal/core/errors.py that the modelled code raises. Messages are left out.
use mathlib.Core.Path.{◌≡◌, refl}
use mathlib.Core.Bool.{Bool, true, false}

-- The error code that an `AppException` carries.
pub data AppError : Type 0 where
  bad_request not_found agent_resume_unsafe agent_run_state_conflict : AppError
  idempotency_conflict agent_definition_incompatible service_unavailable forbidden
        endpoint_disabled :
      AppError

-- `integrity_error` is the database's, for a violated unique constraint. `type_error`, `overflow_error`,
-- `attribute_error`, `value_error` and `index_error` are Python's own, raised by an operation of the language.
pub data Error : Type 0 where
  checkpoint_error checkpoint_validation checkpoint_serialization : Error
  unsupported_checkpoint_version type_error overflow_error attribute_error value_error index_error :
      Error
  invalid_agent_action unknown_tool tool_execution unsafe_agent_resume runtime_error
        integrity_error :
      Error
  app : AppError → Error

-- What a call returns, or the exception it raises.
pub data Result {ℓ} (A : Type ℓ) : Type ℓ where
  err : Error → Result A
  ok : A → Result A

-- `if test: raise e`.
abbrev pub raise_if : Bool → Error → Result (Unit {0})
raise_if true e = err e
raise_if false e = ok tt

infixl 5 ◌>>=◌ ◌>>◌
abbrev pub ◌>>◌ {ℓ} : {B : Type ℓ} → Result (Unit {0}) → Result B → Result B
err raised >> rest = err raised
ok _ >> rest = rest

abbrev pub ◌>>=◌ {ℓ κ} : {A : Type ℓ} {B : Type κ} → Result A → (A → Result B) → Result B
err raised >>= rest = err raised
ok value >>= rest = rest value

-- A sequence that succeeds has a first part that succeeds.
pub >>-eq-ok {ℓ} :
    {B : Type ℓ} (first : Result (Unit {0})) (rest : Result B) {b : B}
    → (first >> rest) ≡ ok b
    → (first ≡ ok tt) × (rest ≡ ok b)
>>-eq-ok (err raised) rest h = cc
>>-eq-ok (ok tt) rest h = (refl, h)

pub >>=-eq-ok {ℓ κ} :
    {A : Type ℓ} {B : Type κ} (first : Result A) (rest : A → Result B) {b : B}
    → (first >>= rest) ≡ ok b
    → (a : A) × (first ≡ ok a) × (rest a ≡ ok b)
>>=-eq-ok (err raised) rest h = cc
>>=-eq-ok (ok value) rest h = (value, refl, h)

pub ok_injective {ℓ} : {A : Type ℓ} {a b : A} → ok a ≡ ok b → a ≡ b
ok_injective h = cc h
