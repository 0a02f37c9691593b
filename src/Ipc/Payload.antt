-- ===== src/Ipc/Payload.antt =====
-- The frame of every message: `encode_payload`, the appending of a frame and the decoders' common
-- part (src/ipc/ipc_protocol.cpp).
use yori.Common.{◌≡◌, sym, ap, ◌∙◌, false, none, some, [], inl, inr, ◌++◌, ◌≤◌, arith}
use mathlib.Core.List.{append-nil}
use yori.Common.{Result, ok, err, length, ltb, Option-cases, if◌then◌else◌}
use yori.Ipc.Wire.{Bytes, Writer, Reader, ◌▸◌, IpcDecodeError, oversize, max_payload_bytes}
use yori.Ipc.Wire.Write
use yori.Ipc.Wire.Read
use yori.Ipc.Wire.Read.{◌>>=◌, ◌>>◌, pure}
use yori.Ipc.Wire.RoundTrip.{RoundTrips}

-- The payload is written to a buffer of its own, and copied if it succeeds and is not too long.
unfoldable pub as_payload : Writer → Writer
as_payload w out = elim (w []) [
  | none ↦ none
  | some payload ↦ if ltb max_payload_bytes (length payload) then none else some (out ++ payload)
]

-- The payload with its length before it.
unfoldable pub framed : Writer → Writer
framed w out = elim (w []) [
  | none ↦ none
  | some payload ↦ (Write.u32 (length payload) ▸ Write.put payload) out
]

-- The body, and nothing after it.
unfoldable pub whole : {A : Type 0} → Reader A → Reader A
whole r = do a ← r; Read.exhausted; pure a

unfoldable pub decode : {A : Type 0} → Reader A → Bytes → Result IpcDecodeError A
decode r payload =
    if ltb max_payload_bytes (length payload)
    then err oversize
    else elim (r payload) [ err e ↦ err e | ok (a, rest) ↦ ok a ]

-- What was appended is a payload that decodes to the value.
pub record Decodes {A : Type 0} (r : Reader A) (a : A) (out longer : Bytes) : Type 0 where
  pub payload : Bytes
  pub appended : longer ≡ out ++ payload
  pub bounded : length payload ≤ max_payload_bytes
  pub decoded : decode (whole r) payload ≡ ok a

whole-reads :
    {A : Type 0} (r : Reader A) (a : A) (payload : Bytes)
    → r (payload ++ []) ≡ ok (a, [])
    → whole r payload ≡ ok (a, [])
unfolding whole Read.exhausted ◌>>=◌ ◌>>◌ pure
whole-reads r a payload h =
    let e : r payload ≡ ok (a, []) = ap r (sym (append-nil payload)) ∙ h in rw (e, whole, ◌>>=◌)

decode-reads :
    {A : Type 0} (r : Reader A) (a : A) (payload : Bytes)
    → ltb max_payload_bytes (length payload) ≡ false
    → whole r payload ≡ ok (a, [])
    → decode (whole r) payload ≡ ok a
unfolding decode
decode-reads r a payload h e = rw (h, e)

as_payload-eq-some :
    (w : Writer) (out longer : Bytes)
    → as_payload w out ≡ some longer
    → (payload : Bytes) × (w [] ≡ some payload)
      × (ltb max_payload_bytes (length payload) ≡ false)
      × (longer ≡ out ++ payload)
unfolding as_payload
as_payload-eq-some w out longer h = elim (Option-cases (w [])) [
  | inl e ↦ absurd (ground arith)
  | inr (payload, e) ↦ (payload, e, ground arith, ground arith)
]

pub as_payload-Decodes :
    {A : Type 0} {w : Writer} {r : Reader A} {a : A} (out longer : Bytes)
    → RoundTrips w r a
    → as_payload w out ≡ some longer
    → Decodes r a out longer
as_payload-Decodes {w = w} {r = r} {a = a} out longer t h =
    let (payload, e, fits, same) = as_payload-eq-some w out longer h in
    let p = t.back [] payload e in
    let reads = p.reads [] in
    record {
      payload = payload;
      appended = same;
      bounded = ground arith;
      decoded =
          decode-reads r a payload fits
            (whole-reads r a payload (ap (λ x. r (x ++ [])) p.appended ∙ reads));
    }
