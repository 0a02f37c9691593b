-- ===== src/Common/Bytes.antt =====
-- `std::string` as its bytes, and 64-bit unsigned arithmetic.
use Prim.Native.Nat.{ℕ, zero, suc, ◌+◌, ◌-◌, ◌/◌, ◌%◌, ◌^◌}
use Prim.Native.Char.{code}
use Prim.Native.String.{String}
use mathlib.Core.Bool.{true, ◌&&◌, ◌||◌}
use mathlib.Core.Path.{◌≡◌, refl}
use mathlib.Core.Logic.{◌≢◌, ◌↔◌}
use mathlib.Core.Bool.{Bool, false}
use mathlib.Core.List.{List, [], ◌∷◌}
use native.Mathlib.Omega.{arith}
use yori.Common.Lists.{All, any}
use yori.Common.Equality.{◌==◌, nat_eq}

abbrev pub Text : Type 0
Text = List ℕ

-- `find('\0') != npos`; job.cpp, state_store.cpp and gpu_uuid.hpp each have a copy.
unfoldable pub contains_nul : Text → Bool
contains_nul t = any (λ c. c == 0) t

-- The bytes of a literal.
unfoldable pub text : String → Text
text String.[] = []
text (String.◌∷◌ c s) = code c ∷ text s

-- The digits of a number, the last first; `fuel` bounds their count.
unfoldable pub digits : ℕ → ℕ → Text → Text
digits zero n tail = tail
digits (suc fuel) n tail =
    let more = digits fuel (n / 10) ((b'0' + n % 10) ∷ tail) in
    elim (n / 10) [ zero ↦ (b'0' + n % 10) ∷ tail | suc m ↦ more ]

-- `std::to_string` of a `std::uint32_t`, which has at most ten digits.
abbrev pub to_string : ℕ → Text
to_string n = digits 10 n []

abbrev pub starts_with : Text → Text → Bool
starts_with [] xs = true
starts_with (c ∷ needle) [] = false
starts_with (c ∷ needle) (x ∷ xs) = c == x && starts_with needle xs

-- `find(needle) != npos`.
unfoldable pub contains_text : Text → Text → Bool
contains_text needle [] = starts_with needle []
contains_text needle (x ∷ xs) = starts_with needle (x ∷ xs) || contains_text needle xs

abbrev pub IsNulFree : Text → Type 0
IsNulFree t = All (λ c. c ≢ 0) t

pub contains_nul_iff : (t : Text) → (contains_nul t ≡ false) ↔ IsNulFree t
unfolding contains_nul
contains_nul_iff [] = ((λ h. tt), (λ h. refl))
contains_nul_iff (c ∷ t) = ground (arith, contains_nul_iff t)

abbrev pub u64_modulus : ℕ
u64_modulus = 2 ^ 64

-- `++n` and `n + 1` of a `std::uint64_t`.
abbrev pub next_u64 : ℕ → ℕ
next_u64 n = (n + 1) % u64_modulus

-- `a - b` of `std::size_t`.
abbrev pub sub_size : ℕ → ℕ → ℕ
sub_size a b = (a + u64_modulus - b) % u64_modulus
