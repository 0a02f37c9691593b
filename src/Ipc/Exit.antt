-- ===== src/Ipc/Exit.antt =====
-- `IpcExitStatus` and `IpcEnvMetadata`, and their encodings (include/yori/ipc/ipc_protocol.hpp,
-- src/ipc/ipc_protocol.cpp).
use yori.Common.{ℕ, ℤ, Bool, Option, arith, Text, ltb}
use yori.Ipc.Wire.{Writer, Reader, ◌▸◌, invalid_value}
use yori.Ipc.Wire.Write
use yori.Ipc.Wire.Read
use yori.Ipc.Wire.Read.{◌>>=◌, ◌>>◌, pure}
use yori.Ipc.Wire.RoundTrip.{RoundTrips, ▸->>=, fail_if-▸, fail_if->>, then_pure}
use yori.Ipc.Wire.Fields.{
  IsI32, u8-RoundTrips, i32-RoundTrips, flag-RoundTrips, optional-RoundTrips, string-RoundTrips,
}

pub record IpcExitStatus : Type 0 where
  pub exited_normally : Bool
  pub code : ℤ

pub record IpcEnvMetadata : Type 0 where
  pub source : ℕ
  pub python_version : Option Text

unfoldable pub write_exit : IpcExitStatus → Writer
write_exit exit = Write.flag exit.exited_normally ▸ Write.i32 exit.code

unfoldable pub read_exit : Reader IpcExitStatus
read_exit = do
  exited_normally ← Read.flag
  code ← Read.i32
  pure (record { exited_normally = exited_normally; code = code })

pub write_exit-RoundTrips :
    (exit : IpcExitStatus) → IsI32 exit.code → RoundTrips (write_exit exit) read_exit exit
unfolding write_exit read_exit
write_exit-RoundTrips exit h =
    ▸->>= _ (flag-RoundTrips exit.exited_normally) (then_pure _ (i32-RoundTrips h))

unfoldable pub write_metadata : IpcEnvMetadata → Writer
write_metadata m =
    Write.fail_if (ltb 2 m.source)
    ▸ Write.u8 m.source
    ▸ Write.optional Write.string m.python_version

unfoldable pub read_metadata : Reader IpcEnvMetadata
read_metadata = do
  source ← Read.u8
  Read.fail_if (ltb 2 source) invalid_value
  python_version ← Read.optional Read.string
  pure (record { source = source; python_version = python_version })

pub optional-string-RoundTrips :
    (value : Option Text)
    → RoundTrips (Write.optional Write.string value) (Read.optional Read.string) value
optional-string-RoundTrips value =
    optional-RoundTrips Write.string Read.string value (λ a h. string-RoundTrips a)

pub write_metadata-RoundTrips : (m : IpcEnvMetadata) → RoundTrips (write_metadata m) read_metadata m
unfolding write_metadata read_metadata
write_metadata-RoundTrips m = fail_if-▸ _ (λ known.
    ▸->>= _ (u8-RoundTrips (ground arith))
      (fail_if->> _ _ known (then_pure _ (optional-string-RoundTrips m.python_version))))
