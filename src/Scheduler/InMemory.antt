-- ===== src/Scheduler/InMemory.antt =====
-- What the scheduler reads from the store in memory (src/scheduler/scheduler.cpp,
-- src/testing/in_memory_state_store.cpp).
use yori.Common.{sym, ◌∙◌, inl, inr}
use yori.Common.{All, Option-cases, nat_eq}
use yori.Common.Map.{values-All}
use yori.Store.Memory.{InMemoryStateStore, IsSound, load}
use yori.Scheduler.Agree.{IsLoaded}

pub load-IsLoaded : (s : InMemoryStateStore) → IsSound s → All IsLoaded (load s).1.snapshot.jobs
unfolding load
load-IsLoaded s v =
    let all = values-All IsLoaded s.jobs v.consistent.jobs_sound.unique (λ id r h.
      let t = v.consistent.jobs_sound.stored id r h in
      record { id_set = λ e. t.id_set (sym t.keyed ∙ e); spec_valid = t.spec_valid }) in
    elim (Option-cases s.failure) [ inl e ↦ rw (e, load) all | inr (error, e) ↦ rw (e, load) tt ]
