-- ===== src/Job/Validate/Loops.antt =====
-- What the loops of `validate` accept: arguments, environment, required devices.
use yori.Common.{
  ℕ, ◌+◌, ◌≤◌, ◌<◌, ◌≡◌, refl, ◌≢◌, ◌↔◌, true, false, none, some, List, [], ◌∷◌, arith,
}
use yori.Common.{
  Text, contains_nul_iff, IsNulFree, length, any, All, All-×, All-zip, IsDistinct, ◌==◌,
  list_beq_iff, ok, if◌then◌else◌, nat_eq, list_eq, ltb, u64_modulus,
}
use yori.Gpu.Uuid.{GpuUuid, uuid_valid_iff, IsUuid}
use yori.Job.Spec.{
  max_argument_bytes, max_single_argument_bytes, max_environment_name_bytes,
  max_environment_value_bytes, max_environment_bytes, max_placement_devices, GpuPlacementMode,
  any_gpu, required, preferred,
}
use yori.Job.Validate.{
  add_within_limit, is_valid_environment_name, check_arguments, check_environment, check_devices,
  check_placement, one_valid,
}

-- The subtraction of the source does not wrap while the total is within the limit.
add_within_limit_lem :
    (value total limit : ℕ)
    → total ≤ limit
    → limit < u64_modulus
    → add_within_limit value total limit
      ≡ (if ltb limit (total + value) then none else some (total + value))
unfolding add_within_limit
add_within_limit_lem value total limit h k = ground arith

abbrev pub total_bytes : List Text → ℕ
total_bytes [] = 0
total_bytes (t ∷ ts) = length t + total_bytes ts

abbrev pub IsArgument : Text → Type 0
IsArgument t = IsNulFree t × (length t ≤ max_single_argument_bytes)

pub check_arguments_iff :
    (arguments : List Text) (index bytes : ℕ)
    → bytes ≤ max_argument_bytes
    → (check_arguments arguments index bytes ≡ ok tt)
      ↔ (All IsArgument arguments × (bytes + total_bytes arguments ≤ max_argument_bytes))
unfolding check_arguments
check_arguments_iff [] index bytes h = ground arith
check_arguments_iff (t ∷ ts) index bytes h = ground (
  arith,
  contains_nul_iff t,
  add_within_limit_lem (length t) bytes max_argument_bytes,
  check_arguments_iff ts (index + 1) (bytes + length t),
)

abbrev pub total_pair_bytes : List (Text × Text) → ℕ
total_pair_bytes [] = 0
total_pair_bytes ((name, value) ∷ rest) = length name + length value + total_pair_bytes rest

pub record IsVariable (entry : Text × Text) : Type 0 where
  pub named : entry.0 ≢ []
  pub name_nul_free : IsNulFree entry.0
  pub no_equals : All (λ c. c ≢ b'=') entry.0
  pub name_within : length entry.0 ≤ max_environment_name_bytes
  pub value_within : length entry.1 ≤ max_environment_value_bytes
  pub value_nul_free : IsNulFree entry.1

any-equals_iff : (t : Text) → (any (λ c. c == b'=') t ≡ false) ↔ All (λ c. c ≢ b'=') t
any-equals_iff [] = ((λ h. tt), (λ h. refl))
any-equals_iff (c ∷ t) = ground (arith, any-equals_iff t)

is_valid_environment_name_iff :
    (name : Text)
    → (is_valid_environment_name name ≡ true)
      ↔ ((name ≢ []) × IsNulFree name × All (λ c. c ≢ b'=') name)
unfolding is_valid_environment_name
is_valid_environment_name_iff [] = ((λ h. ground arith), (λ h. absurd (h.0 refl)))
is_valid_environment_name_iff (c ∷ t) =
    ground (arith, contains_nul_iff (c ∷ t), any-equals_iff (c ∷ t))

pub check_environment_iff :
    (env : List (Text × Text)) (index bytes : ℕ)
    → bytes ≤ max_environment_bytes
    → (check_environment env index bytes ≡ ok tt)
      ↔ (All IsVariable env × (bytes + total_pair_bytes env ≤ max_environment_bytes))
unfolding check_environment
check_environment_iff [] index bytes h = ground arith
check_environment_iff ((name, value) ∷ rest) index bytes h = ground (
  arith,
  is_valid_environment_name_iff name,
  contains_nul_iff value,
  add_within_limit_lem (length name) bytes max_environment_bytes,
  add_within_limit_lem (length value) (bytes + length name) max_environment_bytes,
  check_environment_iff rest (index + 1) (bytes + length name + length value),
)

any-device_iff :
    (device : GpuUuid) (prior : List GpuUuid)
    → (any (λ p. p == device) prior ≡ false) ↔ All (λ p. p ≢ device) prior
any-device_iff device [] = ((λ h. tt), (λ h. refl))
any-device_iff device (p ∷ prior) =
    ground (arith, list_beq_iff p device, any-device_iff device prior)

abbrev IsFresh : List GpuUuid → List GpuUuid → Type 0
IsFresh prior devices = All (λ device. All (λ p. p ≢ device) prior) devices

check_devices_iff :
    (prior devices : List GpuUuid)
    → (check_devices prior devices ≡ ok tt)
      ↔ (All IsUuid devices × IsFresh prior devices × IsDistinct devices)
unfolding check_devices
check_devices_iff prior [] = ((λ h. (tt, tt, tt)), (λ h. refl))
check_devices_iff prior (d ∷ ds) = ground (
  arith,
  uuid_valid_iff d,
  any-device_iff d prior,
  check_devices_iff (d ∷ prior) ds,
  All-× (λ x. d ≢ x) (λ x. All (λ p. p ≢ x) prior) ds,
  All-zip (λ x. d ≢ x) (λ x. All (λ p. p ≢ x) prior) ds,
)

All-trivial : (devices : List GpuUuid) → IsFresh [] devices
All-trivial [] = tt
All-trivial (d ∷ ds) = (tt, All-trivial ds)

-- What each mode asks of the devices.
abbrev pub IsPlacement : GpuPlacementMode → List GpuUuid → Type 0
IsPlacement any_gpu devices = devices ≡ []
IsPlacement required devices =
    (devices ≢ [])
    × (length devices ≤ max_placement_devices)
    × All IsUuid devices
    × IsDistinct devices
IsPlacement preferred devices = (length devices ≡ 1) × All IsUuid devices

one_valid_iff :
    (devices : List GpuUuid) → (one_valid devices ≡ true) ↔ IsPlacement preferred devices
one_valid_iff [] = ground arith
one_valid_iff (d ∷ []) = ground (arith, uuid_valid_iff d)
one_valid_iff (d ∷ e ∷ ds) = ground arith

-- Together with the check that follows the `switch`.
pub check_placement_iff :
    (mode : GpuPlacementMode) (devices : List GpuUuid)
    → (check_placement mode devices 1 ≡ ok tt) ↔ IsPlacement mode devices
unfolding check_placement
check_placement_iff any_gpu [] = ground arith
check_placement_iff any_gpu (d ∷ ds) = ground arith
check_placement_iff required [] = ((λ h. ground arith), (λ h. absurd (h.0 refl)))
check_placement_iff required (d ∷ ds) =
    ground (arith, check_devices_iff [] (d ∷ ds), All-trivial (d ∷ ds))
check_placement_iff preferred devices = ground (arith, one_valid_iff devices)
