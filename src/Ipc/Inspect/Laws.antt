-- ===== src/Ipc/Inspect/Laws.antt =====
-- The answer to `inspect` comes back as it was written (src/ipc/ipc_protocol.cpp).
use yori.Common.{ℕ, ◌<◌, none, List, [], ◌∷◌, arith}
use yori.Common.{Text, All, length}
use yori.Ipc.Wire.{max_item_count, max_list_items}
use yori.Ipc.Wire.Write
use yori.Ipc.Wire.Read
use yori.Ipc.Wire.Read.{◌>>=◌, ◌>>◌, pure}
use yori.Ipc.Wire.RoundTrip.{
  RoundTrips, nothing-pure, last, ▸->>=, fail_if-▸, fail_if->>, then_pure,
}
use yori.Ipc.Wire.Fields.{
  IsU32, IsU64, IsI32, IfSet, u8-RoundTrips, u32-RoundTrips, u64-RoundTrips, flag-RoundTrips,
  string-RoundTrips, count-RoundTrips, each-times, IfSet-RoundTrips, carried_since,
  carried_since-RoundTrips,
}
use yori.Ipc.Exit.{optional-string-RoundTrips}
use yori.Ipc.Submit.{strings-RoundTrips, metadata-RoundTrips}
use yori.Ipc.Listing.{IsJobState, exit-RoundTrips}
use yori.Ipc.Inspect.{
  IpcEnvEntry, IpcInspectPayload, write_env_entry, read_env_entry, write_mode, read_mode,
  write_devices, read_devices, write_inspect, read_inspect,
}

-- The fields are values of their types, the state is one of a job, and the devices can be counted
-- by a byte.
pub record IsInspected (i : IpcInspectPayload) : Type 0 where
  pub job_id_fits : IsU64 i.job_id
  pub state_known : IsJobState i.state
  pub owner_fits : IsU32 i.owner_uid
  pub revision_fits : IsU64 i.revision
  pub index_fits : IfSet (λ n. IsU32 n) i.gpu_index
  pub time_fits : IsU64 i.submit_time_unix_ns
  pub code_fits : IfSet (λ exit. IsI32 exit.code) i.exit
  pub devices_counted : length i.gpu_placement_devices < 256

-- What a message of a version carries.
abbrev pub carried_inspect : ℕ → IpcInspectPayload → IpcInspectPayload
carried_inspect version i = record i {
  gpu_placement_mode = carried_since 3 version 0 i.gpu_placement_mode;
  gpu_placement_device = carried_since 3 version none i.gpu_placement_device;
  gpu_placement_devices = carried_since 4 version [] i.gpu_placement_devices;
}

env_entry-RoundTrips : (e : IpcEnvEntry) → RoundTrips (write_env_entry e) read_env_entry e
unfolding write_env_entry read_env_entry
env_entry-RoundTrips e =
    ▸->>= _ (string-RoundTrips e.name)
      (▸->>= _ (flag-RoundTrips e.masked) (then_pure _ (string-RoundTrips e.value)))

env-RoundTrips :
    (xs : List IpcEnvEntry)
    → RoundTrips (Write.each write_env_entry xs) (Read.times (length xs) read_env_entry) xs
env-RoundTrips xs = each-times write_env_entry read_env_entry xs (all xs)
  where
    all : (ys : List IpcEnvEntry) → All (λ x. RoundTrips (write_env_entry x) read_env_entry x) ys
    all [] = tt
    all (y ∷ ys) = (env_entry-RoundTrips y, all ys)

mode-RoundTrips : (mode : ℕ) → RoundTrips (write_mode mode) read_mode mode
unfolding write_mode read_mode
mode-RoundTrips mode = fail_if-▸ _ (λ known.
    last (▸->>= _ (u8-RoundTrips (ground arith)) (fail_if->> _ _ known (nothing-pure mode))))

devices-RoundTrips :
    (devices : List Text)
    → length devices < 256
    → RoundTrips (write_devices devices) read_devices devices
unfolding write_devices read_devices
devices-RoundTrips devices h =
    fail_if-▸ _ (λ counted. ▸->>= _ (u8-RoundTrips h) (strings-RoundTrips devices))

pub write_inspect-RoundTrips :
    (version : ℕ) (i : IpcInspectPayload)
    → IsInspected i
    → RoundTrips (write_inspect version i) (read_inspect version) (carried_inspect version i)
unfolding write_inspect read_inspect
write_inspect-RoundTrips version i t =
    let known = t.state_known in
    fail_if-▸ _ (λ second. fail_if-▸ _ (λ counted. ▸->>= _ (u64-RoundTrips t.job_id_fits) (
      ▸->>= _ (u8-RoundTrips (omega arith)) (
        ▸->>= _ (u32-RoundTrips t.owner_fits) (
          ▸->>= _ (u64-RoundTrips t.revision_fits) (
            fail_if->> _ _ (ground arith) (
              ▸->>= _ (string-RoundTrips i.cwd) (
                ▸->>= _ (optional-string-RoundTrips i.executable) (
                  ▸->>= _
                    (count-RoundTrips max_item_count (length i.argv) (omega arith) (ground arith))
                    (▸->>= _ (strings-RoundTrips i.argv) (
                      ▸->>= _ (metadata-RoundTrips i.env_metadata) (
                        ▸->>= _
                          (count-RoundTrips max_list_items (length i.env) (omega arith)
                            (ground arith))
                          (▸->>= _ (env-RoundTrips i.env) (
                            ▸->>= _ (optional-string-RoundTrips i.gpu_uuid) (
                              ▸->>= _
                                (IfSet-RoundTrips _ Write.u32 Read.u32 i.gpu_index
                                  (λ n k. u32-RoundTrips k) t.index_fits)
                                (▸->>= _ (u64-RoundTrips t.time_fits) (
                                  ▸->>= _ (exit-RoundTrips i.exit t.code_fits) (
                                    ▸->>= _ (optional-string-RoundTrips i.log_path) (
                                      ▸->>= _
                                        (carried_since-RoundTrips 3 version 0
                                          (mode-RoundTrips i.gpu_placement_mode))
                                        (▸->>= _
                                          (carried_since-RoundTrips 3 version none
                                            (optional-string-RoundTrips i.gpu_placement_device))
                                          (then_pure _ (
                                            carried_since-RoundTrips 4 version [] (
                                              devices-RoundTrips i.gpu_placement_devices
                                                t.devices_counted)))))))))))))))))))))))
