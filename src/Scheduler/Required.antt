-- ===== src/Scheduler/Required.antt =====
-- What the choice of a GPU guarantees for a required set and for a target of a job
-- (src/scheduler/scheduler.cpp, `select_required_gpu` and the branches of the main loop).
use yori.Common.{
  ◌≡◌, sym, subst, ◌⊎◌, inl, inr, Bool, true, false, not, ◌&&◌, Option, none, some, List, [], ◌∷◌,
  arith,
}
use yori.Common.{All, nat_eq, list_eq, list_beq_iff, Option-cases}
use yori.Gpu.Uuid.{GpuUuid}
use yori.Gpu.Provider.{GpuLease, GpuObservation}
use yori.Scheduler.Select.{
  is_free, leased, available, find_device, consider, scan_required, target_available,
}

-- An element of a list, with its place.
abbrev pub Among : {A : Type 0} → A → List A → Type 0
Among a [] = ⊥
Among a (x ∷ xs) = (x ≡ a) ⊎ Among a xs

pub find_device-some :
    (ds : List GpuObservation) (uuid : GpuUuid) (d : GpuObservation)
    → find_device ds uuid ≡ some d
    → Among d ds × (d.uuid ≡ uuid)
unfolding find_device
find_device-some [] uuid d h = cc
find_device-some (x ∷ ds) uuid d h =
    ground (arith, list_beq_iff x.uuid uuid, find_device-some ds uuid d)

-- A device of a required set that is there, free and not leased.
pub record IsRequiredChoice (ds : List GpuObservation) (leases : List GpuLease)
    (devices : List GpuUuid) (device : GpuObservation) : Type 0 where
  pub observed : Among device ds
  pub usable : available leases device ≡ true
  pub member : Among device.uuid devices

consider_cases :
    (leases : List GpuLease) (uuid : GpuUuid) (d : GpuObservation) (acc : Option GpuObservation)
    (device : GpuObservation)
    → consider leases uuid (some d) acc ≡ some device
    → (acc ≡ some device) ⊎ ((d ≡ device) × (is_free d.state ≡ true) × (leased leases uuid ≡ false))
consider_cases leases uuid d acc device h = ground arith

pub scan_required-some :
    (ds : List GpuObservation) (leases : List GpuLease) (devices : List GpuUuid)
    (acc : Option GpuObservation) (device : GpuObservation)
    → scan_required ds leases devices acc ≡ some device
    → (acc ≡ some device) ⊎ IsRequiredChoice ds leases devices device
unfolding scan_required
scan_required-some ds leases [] acc device h = inl h
scan_required-some ds leases (uuid ∷ rest) acc device h =
    elim (scan_required-some ds leases rest (consider leases uuid (find_device ds uuid) acc) device
      h) [
        | inr v ↦ inr (record { observed = v.observed; usable = v.usable; member = inr v.member })
        | inl e ↦ elim (Option-cases (find_device ds uuid)) [
          | inl f ↦ inl (ground arith)
          | inr (d, f) ↦ elim (consider_cases leases uuid d acc device (rw f at e)) [
            | inl kept ↦ inl kept
            | inr (same, free, unleased) ↦
                let (there, named) = find_device-some ds uuid d f in
                inr (
                  subst (IsRequiredChoice ds leases (uuid ∷ rest)) same (record {
                    observed = there;
                    usable = rw (free, named, unleased);
                    member = inl (sym named);
                  }))
          ]
        ]
      ]

-- A member of the set that could be used.
abbrev pub can_use : List GpuObservation → List GpuLease → GpuUuid → Bool
can_use ds leases uuid = elim (find_device ds uuid) [
  | none ↦ false
  | some d ↦ is_free d.state && not (leased leases uuid)
]

-- A required job is passed over only if no member of its set can be used.
pub scan_required-none :
    (ds : List GpuObservation) (leases : List GpuLease) (devices : List GpuUuid)
    (acc : Option GpuObservation)
    → scan_required ds leases devices acc ≡ none
    → (acc ≡ none) × All (λ uuid. can_use ds leases uuid ≡ false) devices
unfolding scan_required
scan_required-none ds leases [] acc h = (h, tt)
scan_required-none ds leases (uuid ∷ rest) acc h =
    let (e, others) =
      scan_required-none ds leases rest (consider leases uuid (find_device ds uuid) acc) h in
    ground (arith, e, others)

pub target_available-some :
    (ds : List GpuObservation) (leases : List GpuLease) (target : Option GpuUuid)
    (device : GpuObservation)
    → target_available ds leases target ≡ some device
    → Among device ds × (available leases device ≡ true) × (target ≡ some device.uuid)
target_available-some ds leases none device h = cc
target_available-some ds leases (some t) device h = elim (Option-cases (find_device ds t)) [
  | inl e ↦ absurd (ground arith)
  | inr (d, e) ↦
      let (there, named) = find_device-some ds t d e in
      let facts : (d ≡ device) × (is_free d.state ≡ true) × (leased leases t ≡ false) =
        ground arith in
      (subst (λ x. Among x ds) facts.0 there, ground (arith), ground arith)
]
