-- ===== src/Ipc/Wire/Write.antt =====
-- The operations of `Writer` (src/ipc/ipc_protocol.cpp).
use yori.Common.{
  ℕ, ◌-◌, ◌^◌, ℤ, pos, negsuc, Bool, true, false, Option, none, some, List, [], ◌∷◌, ◌++◌,
}
use yori.Common.{Text, length, ltb, leb, if◌then◌else◌, contains_nul}
use yori.Ipc.Wire.{Bytes, Writer, ◌▸◌, le_bytes, max_string_bytes, max_bytes_field_bytes}

unfoldable pub nothing : Writer
nothing buffer = some buffer

-- `if (b) return false;`
unfoldable pub fail_if : Bool → Writer
fail_if b buffer = if b then none else some buffer

unfoldable pub put : Bytes → Writer
put xs buffer = some (buffer ++ xs)

abbrev pub u8 : ℕ → Writer
u8 v = put (le_bytes 1 v)

abbrev pub u32 : ℕ → Writer
u32 v = put (le_bytes 4 v)

abbrev pub u64 : ℕ → Writer
u64 v = put (le_bytes 8 v)

-- The bits of an `int32_t`.
abbrev pub bits_of : ℤ → ℕ
bits_of (pos n) = n
bits_of (negsuc n) = 2 ^ 32 - 1 - n

abbrev pub i32 : ℤ → Writer
i32 v = u32 (bits_of v)

abbrev pub flag : Bool → Writer
flag true = u8 1
flag false = u8 0

unfoldable pub string : Text → Writer
string value =
    fail_if (ltb max_string_bytes (length value))
    ▸ fail_if (contains_nul value)
    ▸ u32 (length value)
    ▸ put value

-- The byte that says whether there is a value, and the value.
abbrev pub optional : {A : Type 0} → (A → Writer) → Option A → Writer
optional w none = u8 0
optional w (some a) = u8 1 ▸ w a

unfoldable pub bytes : Bytes → Writer
bytes value = fail_if (ltb max_bytes_field_bytes (length value)) ▸ u32 (length value) ▸ put value

-- A loop over a list.
unfoldable pub each : {A : Type 0} → (A → Writer) → List A → Writer
each w [] = nothing
each w (x ∷ xs) = w x ▸ each w xs

-- A field that versions from `first` on carry.
abbrev pub since : ℕ → ℕ → Writer → Writer
since first version w = if leb first version then w else nothing
