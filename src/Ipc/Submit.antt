-- ===== src/Ipc/Submit.antt =====
-- A submission and its encoding (include/yori/ipc/ipc_protocol.hpp, src/ipc/ipc_protocol.cpp).
use yori.Common.{ℕ, ◌≡◌, refl, false, ◌&&◌, ◌||◌, Option, none, some, List, [], ◌∷◌, arith}
use yori.Common.{Text, All, length, ltb, leb, has_value}
use yori.Common.Map.{Map}
use yori.Ipc.Wire.{Writer, Reader, ◌▸◌, max_item_count}
use yori.Ipc.Wire.Write
use yori.Ipc.Wire.Read
use yori.Ipc.Wire.Read.{◌>>=◌, ◌>>◌, pure}
use yori.Ipc.Wire.RoundTrip.{RoundTrips, ▸->>=, fail_if-▸, then_pure}
use yori.Ipc.Wire.Fields.{
  IsU32, u32-RoundTrips, string-RoundTrips, optional-RoundTrips, count-RoundTrips, since-RoundTrips,
  each-times,
}
use yori.Ipc.Exit.{
  IpcEnvMetadata, write_metadata, read_metadata, write_metadata-RoundTrips,
  optional-string-RoundTrips,
}
use yori.Ipc.Map.{write_pairs, read_pairs, IsAscending, write_pairs-RoundTrips}

pub record IpcSubmitRequest : Type 0 where
  pub argv : List Text
  pub cwd : Text
  pub env : Map Text Text
  pub gpu_request : ℕ
  pub launch_profile : Option Text
  pub tensorboard_logdir : Option Text
  pub executable : Option Text
  pub env_metadata : Option IpcEnvMetadata
  pub gpu_spec : Option Text
  pub gpu_preferred_spec : Option Text

abbrev pub no_submit : IpcSubmitRequest
no_submit = record {
  argv = [];
  cwd = [];
  env = [];
  gpu_request = 1;
  launch_profile = none;
  tensorboard_logdir = none;
  executable = none;
  env_metadata = none;
  gpu_spec = none;
  gpu_preferred_spec = none;
}

-- The case of `encode_request_body`.
unfoldable pub write_submit : ℕ → IpcSubmitRequest → Writer
write_submit version s =
    Write.fail_if (ltb max_item_count (length s.argv) || ltb max_item_count (length s.env))
    ▸ Write.fail_if (ltb version 2 && (has_value s.executable || has_value s.env_metadata))
    ▸ Write.fail_if (ltb version 3 && has_value s.gpu_spec)
    ▸ Write.fail_if (ltb version 4 && has_value s.gpu_preferred_spec)
    ▸ Write.u32 (length s.argv)
    ▸ Write.each Write.string s.argv
    ▸ Write.string s.cwd
    ▸ Write.u32 (length s.env)
    ▸ write_pairs s.env
    ▸ Write.u32 s.gpu_request
    ▸ Write.optional Write.string s.launch_profile
    ▸ Write.optional Write.string s.tensorboard_logdir
    ▸ Write.since 2 version (Write.optional Write.string s.executable)
    ▸ Write.since 2 version (Write.optional write_metadata s.env_metadata)
    ▸ Write.since 3 version (Write.optional Write.string s.gpu_spec)
    ▸ Write.since 4 version (Write.optional Write.string s.gpu_preferred_spec)

-- The case of `decode_request_body`.
unfoldable pub read_submit : ℕ → Reader IpcSubmitRequest
read_submit version = do
  argv_count ← Read.count max_item_count
  argv ← Read.times argv_count Read.string
  cwd ← Read.string
  env_count ← Read.count max_item_count
  env ← read_pairs env_count []
  gpu_request ← Read.u32
  launch_profile ← Read.optional Read.string
  tensorboard_logdir ← Read.optional Read.string
  executable ← Read.since 2 version none (Read.optional Read.string)
  env_metadata ← Read.since 2 version none (Read.optional read_metadata)
  gpu_spec ← Read.since 3 version none (Read.optional Read.string)
  gpu_preferred_spec ← Read.since 4 version none (Read.optional Read.string)
  pure (record {
    argv = argv;
    cwd = cwd;
    env = env;
    gpu_request = gpu_request;
    launch_profile = launch_profile;
    tensorboard_logdir = tensorboard_logdir;
    executable = executable;
    env_metadata = env_metadata;
    gpu_spec = gpu_spec;
    gpu_preferred_spec = gpu_preferred_spec;
  })

pub strings-RoundTrips :
    (xs : List Text)
    → RoundTrips (Write.each Write.string xs) (Read.times (length xs) Read.string) xs
strings-RoundTrips xs = each-times Write.string Read.string xs (all xs)
  where
    all : (ys : List Text) → All (λ x. RoundTrips (Write.string x) Read.string x) ys
    all [] = tt
    all (y ∷ ys) = (string-RoundTrips y, all ys)

pub metadata-RoundTrips :
    (m : Option IpcEnvMetadata)
    → RoundTrips (Write.optional write_metadata m) (Read.optional read_metadata) m
metadata-RoundTrips m =
    optional-RoundTrips write_metadata read_metadata m (λ a h. write_metadata-RoundTrips a)

-- An option that an earlier version may not have is none there.
absent :
    {A : Type 0} (first version : ℕ) (value : Option A)
    → (ltb version first && has_value value) ≡ false
    → leb first version ≡ false
    → none ≡ value
absent first version none h e = refl
absent first version (some a) h e = absurd (ground arith)

pub write_submit-RoundTrips :
    (version : ℕ) (s : IpcSubmitRequest)
    → IsU32 s.gpu_request
    → IsAscending s.env
    → RoundTrips (write_submit version s) (read_submit version) s
unfolding write_submit read_submit
write_submit-RoundTrips version s fits ascending = fail_if-▸ _ (λ counted. fail_if-▸ _ (λ second.
    fail_if-▸ _ (λ third. fail_if-▸ _ (λ fourth.
      ▸->>= _ (count-RoundTrips max_item_count (length s.argv) (omega arith) (ground arith)) (
        ▸->>= _ (strings-RoundTrips s.argv) (
          ▸->>= _ (string-RoundTrips s.cwd) (
            ▸->>= _ (count-RoundTrips max_item_count (length s.env) (omega arith) (ground arith)) (
              ▸->>= _ (write_pairs-RoundTrips s.env ascending) (
                ▸->>= _ (u32-RoundTrips fits) (
                  ▸->>= _ (optional-string-RoundTrips s.launch_profile) (
                    ▸->>= _ (optional-string-RoundTrips s.tensorboard_logdir) (
                      ▸->>= _
                        (since-RoundTrips 2 version none
                          (absent 2 version s.executable (ground arith))
                          (λ e. optional-string-RoundTrips s.executable))
                        (▸->>= _
                          (since-RoundTrips 2 version none
                            (absent 2 version s.env_metadata (ground arith))
                            (λ e. metadata-RoundTrips s.env_metadata))
                          (▸->>= _
                            (since-RoundTrips 3 version none (absent 3 version s.gpu_spec third)
                              (λ e. optional-string-RoundTrips s.gpu_spec))
                            (then_pure _ (
                              since-RoundTrips 4 version none
                                (absent 4 version s.gpu_preferred_spec fourth)
                                (λ e.
                                  optional-string-RoundTrips s.gpu_preferred_spec)))))))))))))))))
