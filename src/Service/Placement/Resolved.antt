-- ===== src/Service/Placement/Resolved.antt =====
-- What a resolved list of devices guarantees (src/ipc/ipc_service.cpp).
use yori.Common.{
  ℕ, zero, suc, ◌+◌, ◌≤◌, ◌≡◌, ◌≢◌, refl, subst, true, false, some, List, [], ◌∷◌, ◌++◌, ◌⊎◌, inl,
  inr, arith,
}
use yori.Common.{
  text, Text, Result, ok, err, All, All-append, IsDistinct, any, empty, length, length-append, ◌==◌,
  nat_eq, list_eq, list_beq_iff, if◌then◌else◌, Bool-cases, Option-cases,
}
use yori.Gpu.Uuid.{GpuUuid, IsUuid}
use yori.Gpu.Provider.{GpuObservation, GpuObservationSnapshot}
use yori.Gpu.Observed.{IsObservation, IsSnapshot}
use yori.Job.Spec.{required, max_placement_devices}
use yori.Job.Validate.Loops.{IsPlacement}
use yori.Service.Placement.{
  decimal, is_numeric, find_index, resolve_gpu_spec, split_entry, known, add_new, resolve_entries,
  resolve_gpu_spec_list,
}

find_index-IsUuid :
    (index : ℕ) (devices : List GpuObservation) (uuid : GpuUuid)
    → All IsObservation devices
    → find_index index devices ≡ some uuid
    → IsUuid uuid
unfolding find_index
find_index-IsUuid index [] uuid h e = cc
find_index-IsUuid index (d ∷ rest) uuid (h, hs) e = elim (Bool-cases (d.index == index)) [
  | inl f ↦ subst IsUuid (ground arith) h.identified
  | inr f ↦ find_index-IsUuid index rest uuid hs (ground arith)
]

-- A device that is observed is one of the snapshot's, and has a valid identity.
observed-IsUuid :
    (uuid : GpuUuid) (devices : List GpuObservation)
    → All IsObservation devices
    → any (λ device. device.uuid == uuid) devices ≡ true
    → IsUuid uuid
observed-IsUuid uuid [] h e = cc
observed-IsUuid uuid (d ∷ rest) (h, hs) e = elim (Bool-cases (d.uuid == uuid)) [
  | inl f ↦ subst IsUuid ((list_beq_iff d.uuid uuid).0 f) h.identified
  | inr f ↦ observed-IsUuid uuid rest hs (ground arith)
]

resolve_gpu_spec-IsUuid :
    (entry : Text) (snapshot : GpuObservationSnapshot) (uuid : GpuUuid)
    → All IsObservation snapshot.devices
    → resolve_gpu_spec entry snapshot ≡ ok uuid
    → IsUuid uuid
unfolding resolve_gpu_spec
resolve_gpu_spec-IsUuid entry snapshot uuid h e = elim (Bool-cases (is_numeric entry)) [
  | inl f ↦ elim (Option-cases (find_index (decimal 0 entry) snapshot.devices)) [
    | inl g ↦ absurd (ground arith)
    | inr (u, g) ↦
        subst IsUuid (ground arith) (find_index-IsUuid (decimal 0 entry) snapshot.devices u h g)
  ]
  | inr f ↦ elim (Bool-cases (any (λ device. device.uuid == entry) snapshot.devices)) [
    | inr g ↦ absurd (ground arith)
    | inl g ↦ subst IsUuid (ground arith) (observed-IsUuid entry snapshot.devices h g)
  ]
]

-- What holds of the devices that have been collected.
record IsCollected (left : ℕ) (out : List GpuUuid) : Type 0 where
  uuids : All IsUuid out
  distinct : IsDistinct out
  few : length out + left ≤ max_placement_devices

unknown-differs :
    (resolved : GpuUuid) (out : List GpuUuid)
    → known resolved out ≡ false
    → All (λ uuid. uuid ≢ resolved) out
unknown-differs resolved [] h = tt
unknown-differs resolved (x ∷ xs) h =
    ((λ e. ground (arith, list_beq_iff x resolved)), unknown-differs resolved xs (ground arith))

snoc-IsDistinct :
    (resolved : GpuUuid) (out : List GpuUuid)
    → All (λ uuid. uuid ≢ resolved) out
    → IsDistinct out
    → IsDistinct (out ++ resolved ∷ [])
snoc-IsDistinct resolved [] h d = (tt, tt)
snoc-IsDistinct resolved (x ∷ xs) (h, hs) (d, ds) =
    (All-append (λ y. x ≢ y) xs (resolved ∷ []) d (h, tt), snoc-IsDistinct resolved xs hs ds)

add_new-IsCollected :
    (left : ℕ) (resolved : GpuUuid) (out : List GpuUuid)
    → IsUuid resolved
    → IsCollected (suc left) out
    → IsCollected left (add_new resolved out)
add_new-IsCollected left resolved out u c = elim (Bool-cases (known resolved out)) [
  | inl e ↦
      let few = c.few in rw e (record { uuids = c.uuids; distinct = c.distinct; few = omega arith })
  | inr e ↦
      let few = c.few in
      let longer = length-append out (resolved ∷ []) in
      rw e (record {
        uuids = All-append IsUuid out (resolved ∷ []) c.uuids (u, tt);
        distinct = snoc-IsDistinct resolved out (unknown-differs resolved out e) c.distinct;
        few = omega arith;
      })
]

Result-cases : {E A : Type 0} (r : Result E A) → ((e : E) × (r ≡ err e)) ⊎ ((a : A) × (r ≡ ok a))
Result-cases (err e) = inl (e, refl)
Result-cases (ok a) = inr (a, refl)

enough : {left : ℕ} {out : List GpuUuid} → IsCollected left out → IsCollected 0 out
enough c = let few = c.few in record { uuids = c.uuids; distinct = c.distinct; few = omega arith }

module _ (snapshot : GpuObservationSnapshot) (observed : All IsObservation snapshot.devices) where
  resolve_entries-IsCollected :
      (left : ℕ) (whole rest : Text) (out list : List GpuUuid)
      → IsCollected left out
      → resolve_entries left whole rest snapshot out ≡ ok list
      → IsCollected 0 list
  unfolding resolve_entries
  resolve_entries-IsCollected zero whole rest out list c h = cc
  resolve_entries-IsCollected (suc left) whole rest out list c h =
      elim (Result-cases (resolve_gpu_spec (split_entry rest).0 snapshot)) [
        | inl (failure, e) ↦ absurd (ground arith)
        | inr (u, e) ↦
            let uuid = resolve_gpu_spec-IsUuid (split_entry rest).0 snapshot u observed e in
            let added = add_new-IsCollected left u out uuid c in
            elim (Option-cases (split_entry rest).1) [
              | inl f ↦ subst (IsCollected 0) (ground arith) (enough added)
              | inr (following, f) ↦
                  resolve_entries-IsCollected left whole following (add_new u out) list added
                    (ground arith)
            ]
      ]

-- Where a list of devices is resolved in a snapshot that passed its validation, what comes out is a
-- required placement that passes the validation of a specification: between one and eight devices,
-- no two the same, each with a valid identity.
pub resolve_gpu_spec_list-IsPlacement :
    (gpu_spec : Text) (snapshot : GpuObservationSnapshot) (devices : List GpuUuid)
    → IsSnapshot snapshot
    → resolve_gpu_spec_list gpu_spec snapshot ≡ ok devices
    → IsPlacement required devices
unfolding resolve_gpu_spec_list
resolve_gpu_spec_list-IsPlacement gpu_spec snapshot devices valid h =
    elim (Result-cases (resolve_entries max_placement_devices gpu_spec gpu_spec snapshot [])) [
      | inl (failure, e) ↦ absurd (ground arith)
      | inr (out, e) ↦
          let start : IsCollected max_placement_devices [] = record {
            uuids = tt;
            distinct = tt;
            few = omega arith;
          } in
          let c =
            resolve_entries-IsCollected snapshot valid.devices_valid max_placement_devices gpu_spec
              gpu_spec [] out start e in
          some_device devices out c (ground arith)
    ]
  where
    some_device :
        (devices out : List GpuUuid)
        → IsCollected 0 out
        → (if empty out then err (text "GPU_SPEC_INVALID: " ++ gpu_spec) else ok out) ≡ ok devices
        → IsPlacement required devices
    some_device devices [] c h = cc
    some_device devices (x ∷ xs) c h =
        let same : x ∷ xs ≡ devices = ground arith in
        let few = c.few in
        subst (IsPlacement required) same ((λ e. cc), (omega arith), c.uuids, c.distinct)
