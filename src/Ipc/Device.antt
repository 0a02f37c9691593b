-- ===== src/Ipc/Device.antt =====
-- A device in the answer to `gpu` (include/yori/ipc/ipc_protocol.hpp, src/ipc/ipc_protocol.cpp).
use yori.Common.{ℕ, ◌≤◌, ◌||◌, Option, none, some, arith}
use yori.Common.{Text, ltb}
use yori.Ipc.Wire.{Writer, Reader, ◌▸◌, invalid_value}
use yori.Ipc.Wire.Write
use yori.Ipc.Wire.Read
use yori.Ipc.Wire.Read.{◌>>=◌, ◌>>◌, pure}
use yori.Ipc.Wire.RoundTrip.{RoundTrips, nothing-pure, last, ▸->>=, fail_if->>, then_pure}
use yori.Ipc.Wire.Fields.{
  IsU32, IsU64, IfSet, u8-RoundTrips, u32-RoundTrips, u64-RoundTrips, string-RoundTrips,
  IfSet-RoundTrips,
}

abbrev pub max_observed_state : ℕ
max_observed_state = 2

abbrev pub max_logical_state : ℕ
max_logical_state = 3

pub record IpcGpuDevice : Type 0 where
  pub uuid : Text
  pub index : ℕ
  pub observed_state : ℕ
  pub logical_state : ℕ
  pub utilization_percent : Option ℕ
  pub memory_used_bytes : Option ℕ
  pub memory_total_bytes : Option ℕ
  pub leased_by_job : Option ℕ

-- The memory is sent if both numbers are there.
abbrev pub both : Option ℕ → Option ℕ → Option (ℕ × ℕ)
both (some used) (some total) = some (used, total)
both _ _ = none

abbrev pub used_of : Option (ℕ × ℕ) → Option ℕ
used_of none = none
used_of (some (used, total)) = some used

abbrev pub total_of : Option (ℕ × ℕ) → Option ℕ
total_of none = none
total_of (some (used, total)) = some total

unfoldable pub write_memory : ℕ × ℕ → Writer
write_memory (used, total) = Write.u64 used ▸ Write.u64 total

unfoldable pub read_memory : Reader (ℕ × ℕ)
read_memory = do
  used ← Read.u64
  total ← Read.u64
  Read.fail_if (ltb total used) invalid_value
  pure (used, total)

unfoldable pub read_utilization : Reader ℕ
read_utilization = do
  utilization ← Read.u32
  Read.fail_if (ltb 100 utilization) invalid_value
  pure utilization

-- The body of the loop over the devices.
unfoldable pub write_device : IpcGpuDevice → Writer
write_device d =
    Write.string d.uuid
    ▸ Write.u32 d.index
    ▸ Write.u8 d.observed_state
    ▸ Write.u8 d.logical_state
    ▸ Write.optional Write.u32 d.utilization_percent
    ▸ Write.optional write_memory (both d.memory_used_bytes d.memory_total_bytes)
    ▸ Write.optional Write.u64 d.leased_by_job

unfoldable pub read_device : Reader IpcGpuDevice
read_device = do
  uuid ← Read.string
  index ← Read.u32
  observed_state ← Read.u8
  logical_state ← Read.u8
  Read.fail_if (ltb max_observed_state observed_state || ltb max_logical_state logical_state)
      invalid_value
  utilization_percent ← Read.optional read_utilization
  memory ← Read.optional read_memory
  leased_by_job ← Read.optional Read.u64
  pure (record {
    uuid = uuid;
    index = index;
    observed_state = observed_state;
    logical_state = logical_state;
    utilization_percent = utilization_percent;
    memory_used_bytes = used_of memory;
    memory_total_bytes = total_of memory;
    leased_by_job = leased_by_job;
  })

-- What a message carries of a device: one number of the memory alone is not sent.
abbrev pub carried_device : IpcGpuDevice → IpcGpuDevice
carried_device d =
    let memory = both d.memory_used_bytes d.memory_total_bytes in
    record d { memory_used_bytes = used_of memory; memory_total_bytes = total_of memory }

-- The fields are values of their types and within the bounds that the reader checks.
pub record IsDevice (d : IpcGpuDevice) : Type 0 where
  pub index_fits : IsU32 d.index
  pub observed_known : d.observed_state ≤ max_observed_state
  pub logical_known : d.logical_state ≤ max_logical_state
  pub utilization_fits : IfSet (λ n. n ≤ 100) d.utilization_percent
  pub memory_fits :
      IfSet
        (λ m. IsU64 m.0 × IsU64 m.1 × (m.0 ≤ m.1))
        (both d.memory_used_bytes d.memory_total_bytes)
  pub lease_fits : IfSet (λ n. IsU64 n) d.leased_by_job

memory-RoundTrips :
    (m : ℕ × ℕ) → IsU64 m.0 × IsU64 m.1 × (m.0 ≤ m.1) → RoundTrips (write_memory m) read_memory m
unfolding write_memory read_memory
memory-RoundTrips (used, total) (fits, total_fits, within) = ▸->>= _ (u64-RoundTrips fits) (
    last (
      ▸->>= _ (u64-RoundTrips total_fits)
        (fail_if->> _ _ (ground arith) (nothing-pure (used, total)))))

utilization-RoundTrips : (n : ℕ) → n ≤ 100 → RoundTrips (Write.u32 n) read_utilization n
unfolding read_utilization
utilization-RoundTrips n h =
    last (▸->>= _ (u32-RoundTrips (omega arith)) (fail_if->> _ _ (ground arith) (nothing-pure n)))

pub write_device-RoundTrips :
    (d : IpcGpuDevice) → IsDevice d → RoundTrips (write_device d) read_device (carried_device d)
unfolding write_device read_device
write_device-RoundTrips d t =
    let observed = t.observed_known in
    let logical = t.logical_known in
    ▸->>= _ (string-RoundTrips d.uuid) (
      ▸->>= _ (u32-RoundTrips t.index_fits) (
        ▸->>= _ (u8-RoundTrips (omega arith)) (
          ▸->>= _ (u8-RoundTrips (omega arith)) (
            fail_if->> _ _ (ground arith) (
              ▸->>= _
                (IfSet-RoundTrips _ Write.u32 read_utilization d.utilization_percent
                  utilization-RoundTrips t.utilization_fits)
                (▸->>= _
                  (IfSet-RoundTrips _ write_memory read_memory
                    (both d.memory_used_bytes d.memory_total_bytes) memory-RoundTrips t.memory_fits)
                  (then_pure _ (
                    IfSet-RoundTrips _ Write.u64 Read.u64 d.leased_by_job (λ n k. u64-RoundTrips k)
                      t.lease_fits))))))))
