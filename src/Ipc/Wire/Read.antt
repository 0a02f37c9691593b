-- ===== src/Ipc/Wire/Read.antt =====
-- The operations of `Reader` (src/ipc/ipc_protocol.cpp).
use yori.Common.{
  ℕ, zero, suc, ◌-◌, ◌^◌, ℤ, pos, negsuc, Bool, true, false, Option, none, some, List, [], ◌∷◌,
}
use yori.Common.{
  Text, ok, err, length, take, drop, ltb, leb, ◌==◌, nat_eq, if◌then◌else◌, contains_nul,
}
use yori.Ipc.Wire.{
  Bytes, Reader, of_le_bytes, IpcDecodeError, truncated, oversize, bad_string, too_many_items,
  trailing_bytes, invalid_value, max_string_bytes, max_bytes_field_bytes,
}

unfoldable pub pure : {A : Type 0} → A → Reader A
pure a xs = ok (a, xs)

infixl 5 ◌>>=◌ ◌>>◌
unfoldable pub ◌>>=◌ : {A B : Type 0} → Reader A → (A → Reader B) → Reader B
(r >>= next) xs = elim (r xs) [ err e ↦ err e | ok (a, rest) ↦ next a rest ]

-- `if (b) return e;`
unfoldable pub fail_if : Bool → IpcDecodeError → Reader (Unit {0})
fail_if b e xs = if b then err e else ok (tt, xs)

unfoldable pub ◌>>◌ : {B : Type 0} → Reader (Unit {0}) → Reader B → Reader B
(r >> next) xs = elim (r xs) [ err e ↦ err e | ok (_, rest) ↦ next rest ]

-- A number of `n` bytes; every caller returns `truncated` where too few remain.
unfoldable pub uint : ℕ → Reader ℕ
uint n xs = elim (of_le_bytes n xs) [ none ↦ err truncated | some found ↦ ok found ]

abbrev pub u8 : Reader ℕ
u8 = uint 1

abbrev pub u32 : Reader ℕ
u32 = uint 4

abbrev pub u64 : Reader ℕ
u64 = uint 8

-- The `int32_t` of the bits.
abbrev pub of_bits : ℕ → ℤ
of_bits n = if ltb n (2 ^ 31) then pos n else negsuc (2 ^ 32 - 1 - n)

abbrev pub i32 : Reader ℤ
i32 = do bits ← u32; pure (of_bits bits)

-- `length` bytes, if that many remain.
unfoldable pub get : ℕ → Reader Bytes
get n xs = if ltb (length xs) n then err truncated else ok (take n xs, drop n xs)

unfoldable pub string : Reader Text
string = do
  n ← u32
  fail_if (ltb max_string_bytes n) oversize
  value ← get n
  fail_if (contains_nul value) bad_string
  pure value

unfoldable pub bytes : Reader Bytes
bytes = do n ← u32; fail_if (ltb max_bytes_field_bytes n) oversize; get n

unfoldable pub count : ℕ → Reader ℕ
count cap = do n ← u32; fail_if (ltb cap n) too_many_items; pure n

unfoldable pub flag : Reader Bool
flag = do value ← u8; fail_if (ltb 1 value) invalid_value; pure (value == 1)

abbrev pub if_set : {A : Type 0} → Reader A → Bool → Reader (Option A)
if_set r false = pure none
if_set r true = do a ← r; pure (some a)

-- The byte that says whether there is a value, and the value.
unfoldable pub optional : {A : Type 0} → Reader A → Reader (Option A)
optional r = flag >>= if_set r

-- A loop that reads `n` values.
unfoldable pub times : {A : Type 0} → ℕ → Reader A → Reader (List A)
times zero r = pure []
times (suc n) r = do x ← r; rest ← times n r; pure (x ∷ rest)

-- A field that versions from `first` on carry, with what it is without.
abbrev pub since : {A : Type 0} → ℕ → ℕ → A → Reader A → Reader A
since first version absent r = if leb first version then r else pure absent

unfoldable pub exhausted : Reader (Unit {0})
exhausted [] = ok (tt, [])
exhausted (x ∷ xs) = err trailing_bytes
