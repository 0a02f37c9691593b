-- ===== src/Ipc/Inspect.antt =====
-- The answer to `inspect` (include/yori/ipc/ipc_protocol.hpp, src/ipc/ipc_protocol.cpp).
pub mod Laws
use yori.Common.{ℕ, Bool, true, false, ◌||◌, Option, none, some, List, [], ◌∷◌}
use yori.Common.{Text, length, ltb, leb}
use yori.Ipc.Wire.{Writer, Reader, ◌▸◌, invalid_value, max_item_count, max_list_items}
use yori.Ipc.Wire.Write
use yori.Ipc.Wire.Read
use yori.Ipc.Wire.Read.{◌>>=◌, ◌>>◌, pure}
use yori.Ipc.Exit.{
  IpcExitStatus, IpcEnvMetadata, write_exit, read_exit, write_metadata, read_metadata,
}
use yori.Ipc.Stream.{max_job_state}

abbrev pub max_placement_mode : ℕ
max_placement_mode = 2

pub record IpcEnvEntry : Type 0 where
  pub name : Text
  pub masked : Bool
  pub value : Text

pub record IpcInspectPayload : Type 0 where
  pub job_id : ℕ
  pub state : ℕ
  pub owner_uid : ℕ
  pub revision : ℕ
  pub cwd : Text
  pub executable : Option Text
  pub argv : List Text
  pub env_metadata : Option IpcEnvMetadata
  pub env : List IpcEnvEntry
  pub gpu_uuid : Option Text
  pub gpu_index : Option ℕ
  pub gpu_placement_mode : ℕ
  pub gpu_placement_device : Option Text
  pub gpu_placement_devices : List Text
  pub submit_time_unix_ns : ℕ
  pub exit : Option IpcExitStatus
  pub log_path : Option Text

abbrev pub no_inspect : IpcInspectPayload
no_inspect = record {
  job_id = 0;
  state = 0;
  owner_uid = 0;
  revision = 0;
  cwd = [];
  executable = none;
  argv = [];
  env_metadata = none;
  env = [];
  gpu_uuid = none;
  gpu_index = none;
  gpu_placement_mode = 0;
  gpu_placement_device = none;
  gpu_placement_devices = [];
  submit_time_unix_ns = 0;
  exit = none;
  log_path = none;
}

unfoldable pub write_env_entry : IpcEnvEntry → Writer
write_env_entry e = Write.string e.name ▸ Write.flag e.masked ▸ Write.string e.value

unfoldable pub read_env_entry : Reader IpcEnvEntry
read_env_entry = do
  name ← Read.string
  masked ← Read.flag
  value ← Read.string
  pure (record { name = name; masked = masked; value = value })

-- The mode, which came with version 3.
unfoldable pub write_mode : ℕ → Writer
write_mode mode = Write.fail_if (ltb max_placement_mode mode) ▸ Write.u8 mode

unfoldable pub read_mode : Reader ℕ
read_mode = do mode ← Read.u8; Read.fail_if (ltb max_placement_mode mode) invalid_value; pure mode

-- The list of devices, which came with version 4; its length is cast to a byte.
unfoldable pub write_devices : List Text → Writer
write_devices devices =
    Write.fail_if (ltb max_item_count (length devices))
    ▸ Write.u8 (length devices)
    ▸ Write.each Write.string devices

unfoldable pub read_devices : Reader (List Text)
read_devices = do device_count ← Read.u8; Read.times device_count Read.string

-- The case of `encode_response_body`.
unfoldable pub write_inspect : ℕ → IpcInspectPayload → Writer
write_inspect version i =
    Write.fail_if (ltb version 2)
    ▸ Write.fail_if (ltb max_item_count (length i.argv) || ltb max_list_items (length i.env))
    ▸ Write.u64 i.job_id
    ▸ Write.u8 i.state
    ▸ Write.u32 i.owner_uid
    ▸ Write.u64 i.revision
    ▸ Write.string i.cwd
    ▸ Write.optional Write.string i.executable
    ▸ Write.u32 (length i.argv)
    ▸ Write.each Write.string i.argv
    ▸ Write.optional write_metadata i.env_metadata
    ▸ Write.u32 (length i.env)
    ▸ Write.each write_env_entry i.env
    ▸ Write.optional Write.string i.gpu_uuid
    ▸ Write.optional Write.u32 i.gpu_index
    ▸ Write.u64 i.submit_time_unix_ns
    ▸ Write.optional write_exit i.exit
    ▸ Write.optional Write.string i.log_path
    ▸ Write.since 3 version (write_mode i.gpu_placement_mode)
    ▸ Write.since 3 version (Write.optional Write.string i.gpu_placement_device)
    ▸ Write.since 4 version (write_devices i.gpu_placement_devices)

-- The case of `decode_response_body`.
unfoldable pub read_inspect : ℕ → Reader IpcInspectPayload
read_inspect version = do
  job_id ← Read.u64
  state ← Read.u8
  owner_uid ← Read.u32
  revision ← Read.u64
  Read.fail_if (ltb max_job_state state) invalid_value
  cwd ← Read.string
  executable ← Read.optional Read.string
  argv_count ← Read.count max_item_count
  argv ← Read.times argv_count Read.string
  env_metadata ← Read.optional read_metadata
  env_count ← Read.count max_list_items
  env ← Read.times env_count read_env_entry
  gpu_uuid ← Read.optional Read.string
  gpu_index ← Read.optional Read.u32
  submit_time_unix_ns ← Read.u64
  exit ← Read.optional read_exit
  log_path ← Read.optional Read.string
  gpu_placement_mode ← Read.since 3 version 0 read_mode
  gpu_placement_device ← Read.since 3 version none (Read.optional Read.string)
  gpu_placement_devices ← Read.since 4 version [] read_devices
  pure (record {
    job_id = job_id;
    state = state;
    owner_uid = owner_uid;
    revision = revision;
    cwd = cwd;
    executable = executable;
    argv = argv;
    env_metadata = env_metadata;
    env = env;
    gpu_uuid = gpu_uuid;
    gpu_index = gpu_index;
    gpu_placement_mode = gpu_placement_mode;
    gpu_placement_device = gpu_placement_device;
    gpu_placement_devices = gpu_placement_devices;
    submit_time_unix_ns = submit_time_unix_ns;
    exit = exit;
    log_path = log_path;
  })
