-- ===== src/Service/Submit/Fits.antt =====
-- A submission within the limits of a job fits into a message (include/yori/job/job.hpp,
-- src/ipc/ipc_protocol.cpp).
use yori.Common.{ℕ, ◌+◌, ◌*◌, ◌≤◌, ◌≡◌, refl, true, Option, none, some, List, [], ◌∷◌, ◌++◌, arith}
use yori.Common.{Text, length, All, nat_eq}
use yori.Common.Map.{Map}
use yori.Job.Spec.{GpuPlacement}
use yori.Job.Validate.{validate, validation_ok, python_version_of}
use yori.Job.Validate.Components.{IsLogdir}
use yori.Job.Validate.Loops.{IsArgument, IsVariable, total_bytes, total_pair_bytes}
use yori.Job.Validate.Valid.{IsValidSpec, IsAbsolute, IsLabel, IfPresent, validate_iff}
use yori.Ipc.Wire.{Bytes, Writer, max_payload_bytes}
use yori.Ipc.Wire.Write
use yori.Ipc.Wire.Sizes.{
  Appends, IsText, nothing-Appends, fail_if-Appends, ▸-Appends, room, number-Appends,
  string-Appends, since-Appends,
}
use yori.Ipc.Payload.{as_payload}
use yori.Ipc.Exit.{IpcEnvMetadata, write_metadata}
use yori.Ipc.Kind.{IpcRequestKind, write_head}
use yori.Ipc.Map.{write_pairs}
use yori.Ipc.Submit.{IpcSubmitRequest, write_submit}
use yori.Ipc.Request.{IpcRequest, blank, write_body, write_request, encode_request_payload}
use yori.Service.{PeerCredentials, IpcService}
use yori.Service.Submit.{spec_of, metadata_of}

arguments-Appends :
    (argv : List Text)
    → All IsArgument argv
    → Appends (Write.each Write.string argv) (4 * length argv + total_bytes argv)
unfolding Write.each
arguments-Appends [] h = nothing-Appends
arguments-Appends (t ∷ ts) ((clean, short), hs) = room (omega arith) (
    ▸-Appends (string-Appends t (record { short = omega arith; nul_free = clean }))
      (arguments-Appends ts hs))

pairs-Appends :
    (env : Map Text Text)
    → All IsVariable env
    → Appends (write_pairs env) (8 * length env + total_pair_bytes env)
unfolding write_pairs
pairs-Appends [] h = nothing-Appends
pairs-Appends ((name, value) ∷ rest) (v, vs) =
    let named = v.name_within in
    let valued = v.value_within in
    room (omega arith) (
      ▸-Appends (string-Appends name (record { short = omega arith; nul_free = v.name_nul_free })) (
        ▸-Appends
          (string-Appends value (record { short = omega arith; nul_free = v.value_nul_free }))
          (pairs-Appends rest vs)))

-- An optional string that is a text of at most `n` bytes where it is set.
string?-Appends :
    (value : Option Text) (n : ℕ)
    → IfPresent (λ t. IsText t × (length t ≤ n)) value
    → Appends (Write.optional Write.string value) (5 + n)
string?-Appends none n h = room (omega arith) (number-Appends 1 0)
string?-Appends (some t) n (h, short) =
    room (omega arith) (▸-Appends (number-Appends 1 1) (string-Appends t h))

weaken :
    (P Q : Text → Type 0) (value : Option Text)
    → ((t : Text) → P t → Q t)
    → IfPresent P value
    → IfPresent Q value
weaken P Q none f h = tt
weaken P Q (some t) f h = f t h

-- What a submission asks beyond its job specification.
pub record IsSendable (s : IpcSubmitRequest) : Type 0 where
  pub source_known : (m : IpcEnvMetadata) → s.env_metadata ≡ some m → m.source ≤ 2
  pub required_text : IfPresent IsText s.gpu_spec
  pub preferred_text : IfPresent IsText s.gpu_preferred_spec

metadata-Appends :
    (m : Option IpcEnvMetadata)
    → ((x : IpcEnvMetadata) → m ≡ some x → x.source ≤ 2)
    → IfPresent (λ t. IsText t × (length t ≤ 64)) (python_version_of (metadata_of m))
    → Appends (Write.optional write_metadata m) 71
unfolding write_metadata
metadata-Appends none k h = room (omega arith) (number-Appends 1 0)
metadata-Appends (some x) k h =
    let known = k x refl in
    room (omega arith) (
      ▸-Appends (number-Appends 1 1) (
        ▸-Appends (fail_if-Appends _ (ground arith))
          (▸-Appends (number-Appends 1 x.source) (string?-Appends x.python_version 64 h))))

-- The greatest limits add up to less than half of a payload.
write_submit-Appends :
    (service : IpcService) (peer : PeerCredentials) (s : IpcSubmitRequest)
    (placement : GpuPlacement)
    → IsSendable s
    → IsValidSpec (spec_of service peer s placement)
    → Appends (write_submit 4 s) 500000
unfolding write_submit
write_submit-Appends service peer s placement sendable v =
    let argument_bytes = v.command.argument_bytes in
    let argument_count = v.command.argument_count in
    let variable_bytes = v.context.variable_bytes in
    let variable_count = v.context.variable_count in
    let cwd = v.context.working_directory in
    let short = cwd.within in
    let gpu =
      weaken IsText (λ t. IsText t × (length t ≤ 64 * 1024)) s.gpu_spec (λ t h. (h, h.short))
        sendable.required_text in
    let wish =
      weaken IsText (λ t. IsText t × (length t ≤ 64 * 1024)) s.gpu_preferred_spec
        (λ t h. (h, h.short)) sendable.preferred_text in
    room (omega arith) (
      ▸-Appends (fail_if-Appends _ (ground arith)) (
        ▸-Appends (fail_if-Appends _ refl) (
          ▸-Appends (fail_if-Appends _ refl) (
            ▸-Appends (fail_if-Appends _ refl) (
              ▸-Appends (number-Appends 4 (length s.argv)) (
                ▸-Appends (arguments-Appends s.argv v.command.arguments) (
                  ▸-Appends
                    (string-Appends s.cwd (record { short = omega arith; nul_free = cwd.nul_free }))
                    (▸-Appends (number-Appends 4 (length s.env)) (
                      ▸-Appends (pairs-Appends s.env v.context.variables) (
                        ▸-Appends (number-Appends 4 s.gpu_request) (
                          ▸-Appends
                            (string?-Appends s.launch_profile 128 (
                              weaken (IsLabel 128) _ s.launch_profile label_text v.options.profile))
                            (▸-Appends
                              (string?-Appends s.tensorboard_logdir 4096 (
                                weaken IsLogdir _ s.tensorboard_logdir logdir_text
                                  v.options.logdir))
                              (▸-Appends
                                (since-Appends 2 4 _ (
                                  string?-Appends s.executable 4096 (
                                    weaken (IsAbsolute 4096) _ s.executable path_text
                                      v.options.executable)))
                                (▸-Appends
                                  (since-Appends 2 4 _ (
                                    metadata-Appends s.env_metadata sendable.source_known (
                                      weaken (IsLabel 64) _
                                        (python_version_of (metadata_of s.env_metadata))
                                        version_text v.options.python_version)))
                                  (▸-Appends
                                    (since-Appends 3 4 _
                                      (string?-Appends s.gpu_spec (64 * 1024) gpu))
                                    (since-Appends 4 4 _ (
                                      string?-Appends s.gpu_preferred_spec (64 * 1024)
                                        wish)))))))))))))))))
  where
    label_text : (t : Text) → IsLabel 128 t → IsText t × (length t ≤ 128)
    label_text t h = let k = h.within in (record { short = omega arith; nul_free = h.nul_free }, k)

    version_text : (t : Text) → IsLabel 64 t → IsText t × (length t ≤ 64)
    version_text t h =
        let k = h.within in (record { short = omega arith; nul_free = h.nul_free }, k)

    path_text : (t : Text) → IsAbsolute 4096 t → IsText t × (length t ≤ 4096)
    path_text t h = let k = h.within in (record { short = omega arith; nul_free = h.nul_free }, k)

    logdir_text : (t : Text) → IsLogdir t → IsText t × (length t ≤ 4096)
    logdir_text t h = let k = h.within in (record { short = omega arith; nul_free = h.nul_free }, k)

-- The message of a submission, of the current version.
abbrev pub submission : IpcSubmitRequest → IpcRequest
submission s = record (blank 4 IpcRequestKind.submit) { submit = s }

message-Appends :
    (s : IpcSubmitRequest)
    → Appends (write_submit 4 s) 500000
    → Appends (write_request (submission s)) 500002
unfolding write_request write_head write_body
message-Appends s k =
    ▸-Appends (fail_if-Appends _ refl)
      (▸-Appends (number-Appends 1 4) (▸-Appends (number-Appends 1 1) k))

as_payload-Appends :
    (w : Writer) (n : ℕ) (out : Bytes)
    → Appends w n
    → n ≤ max_payload_bytes
    → (longer : Bytes) × (as_payload w out ≡ some longer)
unfolding as_payload
as_payload-Appends w n out k h = let (payload, e, few) = k.adds [] in (out ++ payload, ground arith)

-- A submission whose job specification passes the daemon's validation can always be sent: wherever
-- its source of the environment is a known one and its two device fields are texts that a message
-- can hold, the encoder accepts it, whatever the sizes within the limits of a specification.
pub encode_request_payload-accepts :
    (service : IpcService) (peer : PeerCredentials) (s : IpcSubmitRequest)
    (placement : GpuPlacement) (out : Bytes)
    → IsSendable s
    → validation_ok (validate (spec_of service peer s placement)) ≡ true
    → (longer : Bytes) × (encode_request_payload (submission s) out ≡ some longer)
encode_request_payload-accepts service peer s placement out sendable valid =
    as_payload-Appends (write_request (submission s)) 500002 out
      (message-Appends s (
        write_submit-Appends service peer s placement sendable
          ((validate_iff (spec_of service peer s placement)).0 valid)))
      (omega arith)
