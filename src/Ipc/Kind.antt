-- ===== src/Ipc/Kind.antt =====
-- The kinds of a request and the head of a message (include/yori/ipc/ipc_protocol.hpp,
-- src/ipc/ipc_protocol.cpp).
use yori.Common.{ℕ, ◌≡◌, refl, Bool, true, false, not, ◌&&◌, arith}
use yori.Common.{◌==◌, nat_eq, ltb, leb, if◌then◌else◌}
use yori.Ipc.Wire.{Writer, Reader, ◌▸◌, bad_version, bad_kind, version_supported}
use yori.Ipc.Wire.Write
use yori.Ipc.Wire.Read
use yori.Ipc.Wire.Read.{◌>>=◌, ◌>>◌, pure}
use yori.Ipc.Wire.RoundTrip.{RoundTrips, ▸->>=, fail_if->>, known->>=}
use yori.Ipc.Wire.Fields.{u8-RoundTrips}

pub data IpcRequestKind : Type 0 where
  submit ps queue gpu cancel logs logs_follow tensorboard inspect : IpcRequestKind

-- The numbers of the kinds.
abbrev pub kind_byte : IpcRequestKind → ℕ
kind_byte submit = 1
kind_byte ps = 2
kind_byte queue = 3
kind_byte gpu = 4
kind_byte cancel = 5
kind_byte logs = 6
kind_byte logs_follow = 7
kind_byte tensorboard = 8
kind_byte inspect = 9

-- The test of the range and the cast.
unfoldable pub known_kind : ℕ → Reader IpcRequestKind
known_kind n =
    if n == 1
    then pure submit
    else if n == 2
    then pure ps
    else if n == 3
    then pure queue
    else if n == 4
    then pure gpu
    else if n == 5
    then pure cancel
    else if n == 6
    then pure logs
    else if n == 7
    then pure logs_follow
    else if n == 8
    then pure tensorboard
    else if n == 9
    then pure inspect
    else Read.fail_if true bad_kind >> pure inspect

-- What the encoders write first.
unfoldable pub write_head : ℕ → IpcRequestKind → Writer → Writer
write_head version kind body = Write.u8 version ▸ Write.u8 (kind_byte kind) ▸ body

-- What the decoders read first; `inspect` came with version 2.
unfoldable pub read_head : {A : Type 0} → (ℕ → IpcRequestKind → Reader A) → Reader A
read_head body = do
  version ← Read.u8
  kind ← Read.u8
  Read.fail_if (not (version_supported version)) bad_version
  found ← known_kind kind
  Read.fail_if (kind == 9 && ltb version 2) bad_kind
  body version found

known_kind_lem : (kind : IpcRequestKind) → known_kind (kind_byte kind) ≡ pure kind
unfolding known_kind
known_kind_lem submit = refl
known_kind_lem ps = refl
known_kind_lem queue = refl
known_kind_lem gpu = refl
known_kind_lem cancel = refl
known_kind_lem logs = refl
known_kind_lem logs_follow = refl
known_kind_lem tensorboard = refl
known_kind_lem inspect = refl

-- A kind that the version has.
abbrev pub is_versioned : ℕ → IpcRequestKind → Bool
is_versioned version inspect = leb 2 version
is_versioned version _ = true

head_lem :
    (version : ℕ) (kind : IpcRequestKind)
    → is_versioned version kind ≡ true
    → (kind_byte kind == 9 && ltb version 2) ≡ false
head_lem version kind h = ground arith

pub write_head-RoundTrips :
    {A : Type 0} (version : ℕ) (kind : IpcRequestKind) {w : Writer}
    (r : ℕ → IpcRequestKind → Reader A) {a : A}
    → version_supported version ≡ true
    → is_versioned version kind ≡ true
    → RoundTrips w (r version kind) a
    → RoundTrips (write_head version kind w) (read_head r) a
unfolding write_head read_head
write_head-RoundTrips version kind r supported versioned body =
    ▸->>= _ (u8-RoundTrips (ground arith)) (
      ▸->>= _ (u8-RoundTrips (ground arith)) (
        fail_if->> _ _ (ground arith) (
          known->>= _ kind (known_kind_lem kind)
            (fail_if->> _ _ (head_lem version kind versioned) body))))
