-- ===== src/Ipc/Wire.antt =====
-- `Writer` and `Reader` (src/ipc/ipc_protocol.cpp). A writer takes the buffer and returns it longer,
-- or fails; a reader takes the bytes that remain and returns a value with those after it.
pub mod Write
pub mod Read
pub mod RoundTrip
pub mod Fields
pub mod Sizes
use yori.Common.{
  ℕ, zero, suc, ◌+◌, ◌-◌, ◌*◌, ◌/◌, ◌%◌, ◌^◌, ℤ, pos, negsuc, Bool, true, false, Option, none, some,
  List, [], ◌∷◌, ◌++◌,
}
use yori.Common.{Text, Result, ok, err, length, take, drop, ltb, leb, if◌then◌else◌, contains_nul}

abbrev pub Bytes : Type 0
Bytes = List ℕ

abbrev pub max_payload_bytes : ℕ
max_payload_bytes = 2 ^ 20

abbrev pub protocol_version : ℕ
protocol_version = 4

abbrev pub min_protocol_version : ℕ
min_protocol_version = 1

abbrev pub stream_frame_version : ℕ
stream_frame_version = 1

abbrev pub max_string_bytes : ℕ
max_string_bytes = 64 * 1024

abbrev pub max_item_count : ℕ
max_item_count = 256

abbrev pub max_list_items : ℕ
max_list_items = 1024

abbrev pub max_stream_data_bytes : ℕ
max_stream_data_bytes = 256 * 1024

abbrev pub max_bytes_field_bytes : ℕ
max_bytes_field_bytes = 512 * 1024

-- `ipc_payload_length_valid`.
abbrev pub payload_length_valid : ℕ → Bool
payload_length_valid n = if ltb n 2 then false else leb n max_payload_bytes

-- `ipc_version_supported`.
abbrev pub version_supported : ℕ → Bool
version_supported v = if ltb v min_protocol_version then false else leb v protocol_version

pub data IpcDecodeError : Type 0 where
  no_error truncated oversize bad_version bad_kind bad_string : IpcDecodeError
  too_many_items trailing_bytes invalid_value : IpcDecodeError

-- The `n` low bytes of a number, the lowest first.
unfoldable pub le_bytes : ℕ → ℕ → Bytes
le_bytes zero v = []
le_bytes (suc n) v = v % 256 ∷ le_bytes n (v / 256)

-- The number that `n` bytes stand for, and the bytes after them.
unfoldable pub of_le_bytes : ℕ → Bytes → Option (ℕ × Bytes)
of_le_bytes zero xs = some (0, xs)
of_le_bytes (suc n) [] = none
of_le_bytes (suc n) (b ∷ xs) = elim (of_le_bytes n xs) [
  | none ↦ none
  | some (high, rest) ↦ some (b + 256 * high, rest)
]

abbrev pub Writer : Type 0
Writer = Bytes → Option Bytes

-- One write after another; the first that fails ends it.
infixr 5 ◌▸◌
unfoldable pub ◌▸◌ : Writer → Writer → Writer
(w ▸ v) buffer = elim (w buffer) [ none ↦ none | some longer ↦ v longer ]

abbrev pub Reader : Type 0 → Type 0
Reader A = Bytes → Result IpcDecodeError (A × Bytes)
