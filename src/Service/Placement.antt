-- ===== src/Service/Placement.antt =====
-- The devices that a submission names (src/ipc/ipc_service.cpp: `resolve_gpu_spec`,
-- `resolve_gpu_spec_list`).
pub mod Resolved
use yori.Common.{
  ℕ, zero, suc, ◌+◌, ◌-◌, ◌*◌, ◌^◌, Bool, true, false, not, ◌||◌, Option, none, some, List, [], ◌∷◌,
  ◌++◌,
}
use yori.Common.{Text, Result, ok, err, text, any, empty, ltb, ◌==◌, nat_eq, list_eq, if◌then◌else◌}
use yori.Common.{◌>>=◌}
use yori.Gpu.Uuid.{GpuUuid, uuid_valid}
use yori.Gpu.Provider.{GpuObservation, GpuObservationSnapshot}
use yori.Job.Spec.{max_placement_devices}

-- The number that decimal digits stand for: `std::strtoull` on a string of digits alone, where it
-- fails above 64 bits and the caller above 32.
unfoldable pub decimal : ℕ → Text → ℕ
decimal n [] = n
decimal n (c ∷ rest) = decimal (10 * n + (c - b'0')) rest

abbrev pub is_numeric : Text → Bool
is_numeric entry = not (any (λ c. ltb c b'0' || ltb b'9' c) entry)

unfoldable pub find_index : ℕ → List GpuObservation → Option GpuUuid
find_index index [] = none
find_index index (device ∷ rest) =
    if device.index == index then some device.uuid else find_index index rest

abbrev pub index_not_found : Text → Text
index_not_found entry = text "GPU_INDEX_NOT_FOUND: " ++ entry

-- `resolve_gpu_spec`: the device, or why there is none.
unfoldable pub resolve_gpu_spec : Text → GpuObservationSnapshot → Result Text GpuUuid
resolve_gpu_spec entry snapshot =
    if empty entry
    then err (text "GPU_SPEC_EMPTY")
    else if is_numeric entry
    then if ltb (2 ^ 32 - 1) (decimal 0 entry)
      then err (index_not_found entry)
      else elim (find_index (decimal 0 entry) snapshot.devices) [
        | none ↦ err (index_not_found entry)
        | some uuid ↦ ok uuid
      ]
    else if not (uuid_valid entry)
    then err (text "GPU_UUID_INVALID")
    else if any (λ device. device.uuid == entry) snapshot.devices
    then ok entry
    else err (text "GPU_UUID_NOT_FOUND: " ++ entry)

abbrev pub before : ℕ → Text × Option Text → Text × Option Text
before c (entry, rest) = (c ∷ entry, rest)

-- `find(',')` and the two parts; no second part where there is no comma.
unfoldable pub split_entry : Text → Text × Option Text
split_entry [] = ([], none)
split_entry (c ∷ rest) =
    let further = split_entry rest in if c == b',' then ([], some rest) else before c further

abbrev pub known : GpuUuid → List GpuUuid → Bool
known resolved out = any (λ uuid. uuid == resolved) out

abbrev pub add_new : GpuUuid → List GpuUuid → List GpuUuid
add_new resolved out = if known resolved out then out else out ++ resolved ∷ []

-- The loop over the entries; `left` is how many more may follow, so that it ends.
unfoldable pub resolve_entries :
    ℕ → Text → Text → GpuObservationSnapshot → List GpuUuid → Result Text (List GpuUuid)
resolve_entries zero whole rest snapshot out = err (text "GPU_SPEC_INVALID: " ++ whole)
resolve_entries (suc left) whole rest snapshot out =
    let (entry, further) = split_entry rest in
    elim (resolve_gpu_spec entry snapshot) [
      | err failure ↦ err failure
      | ok resolved ↦ elim further [
        | none ↦ ok (add_new resolved out)
        | some following ↦ resolve_entries left whole following snapshot (add_new resolved out)
      ]
    ]

-- `resolve_gpu_spec_list`.
unfoldable pub resolve_gpu_spec_list : Text → GpuObservationSnapshot → Result Text (List GpuUuid)
resolve_gpu_spec_list gpu_spec snapshot =
    elim (resolve_entries max_placement_devices gpu_spec gpu_spec snapshot []) [
      | err failure ↦ err failure
      | ok out ↦ if empty out then err (text "GPU_SPEC_INVALID: " ++ gpu_spec) else ok out
    ]
