-- ===== src/Ipc/Wire/Fields.antt =====
-- The fields of the protocol come back as they were written (src/ipc/ipc_protocol.cpp).
use yori.Common.{
  ℕ, zero, suc, ◌/◌, ◌^◌, ◌<◌, ◌≡◌, refl, ap, subst, inl, inr, ℤ, pos, negsuc, Bool, true, false,
  Option, none, some, List, [], ◌∷◌, ◌++◌, map, arith,
}
use yori.Common.{
  Text, ok, length, length-append, take, drop, ltb, leb, nat_eq, All, Bool-cases, if◌then◌else◌,
}
use yori.Ipc.Wire.{Bytes, Writer, Reader, le_bytes, of_le_bytes}
use yori.Ipc.Wire.Write
use yori.Ipc.Wire.Read
use yori.Ipc.Wire.Read.{◌>>=◌, ◌>>◌, pure}
use yori.Ipc.Wire.RoundTrip.{
  RoundTrips, nothing-pure, ▸->>=, fail_if-▸, fail_if->>, last, then_pure,
}

of_le_bytes-le_bytes :
    (n v : ℕ) (rest : Bytes) → v < 256 ^ n → of_le_bytes n (le_bytes n v ++ rest) ≡ some (v, rest)
unfolding of_le_bytes le_bytes
of_le_bytes-le_bytes zero v rest h = ground arith
of_le_bytes-le_bytes (suc n) v rest h =
    let below : v / 256 < 256 ^ n = omega arith in
    let again = of_le_bytes-le_bytes n (v / 256) rest below in
    rw again (ap (λ x. some (x, rest)) (omega arith))

put-RoundTrips :
    {A : Type 0} (r : Reader A) (a : A) (xs : Bytes)
    → ((rest : Bytes) → r (xs ++ rest) ≡ ok (a, rest))
    → RoundTrips (Write.put xs) r a
unfolding Write.put
put-RoundTrips r a xs h = record {
  back = λ buffer longer e. record { written = xs; appended = cc; reads = h };
}

pub uint-RoundTrips :
    (n v : ℕ) → v < 256 ^ n → RoundTrips (Write.put (le_bytes n v)) (Read.uint n) v
unfolding Read.uint
uint-RoundTrips n v h =
    put-RoundTrips (Read.uint n) v (le_bytes n v)
      (λ rest. rw (of_le_bytes-le_bytes n v rest h, Read.uint))

-- The values of `std::uint8_t`, `std::uint32_t`, `std::uint64_t` and `std::int32_t`.
abbrev pub IsU8 : ℕ → Type 0
IsU8 v = v < 256

abbrev pub IsU32 : ℕ → Type 0
IsU32 v = v < 2 ^ 32

abbrev pub IsU64 : ℕ → Type 0
IsU64 v = v < 2 ^ 64

abbrev pub IsI32 : ℤ → Type 0
IsI32 (pos n) = n < 2 ^ 31
IsI32 (negsuc n) = n < 2 ^ 31

pub u8-RoundTrips : {v : ℕ} → IsU8 v → RoundTrips (Write.u8 v) Read.u8 v
u8-RoundTrips {v} h = uint-RoundTrips 1 v h

pub u32-RoundTrips : {v : ℕ} → IsU32 v → RoundTrips (Write.u32 v) Read.u32 v
u32-RoundTrips {v} h = uint-RoundTrips 4 v h

pub u64-RoundTrips : {v : ℕ} → IsU64 v → RoundTrips (Write.u64 v) Read.u64 v
u64-RoundTrips {v} h = uint-RoundTrips 8 v h

of_bits-bits_of : (v : ℤ) → IsI32 v → Read.of_bits (Write.bits_of v) ≡ v
of_bits-bits_of (pos n) h = ground arith
of_bits-bits_of (negsuc n) h = ground arith

bits_of-IsU32 : (v : ℤ) → IsI32 v → IsU32 (Write.bits_of v)
bits_of-IsU32 (pos n) h = omega arith
bits_of-IsU32 (negsuc n) h = omega arith

pub i32-RoundTrips : {v : ℤ} → IsI32 v → RoundTrips (Write.i32 v) Read.i32 v
i32-RoundTrips {v} h =
    subst (λ x. RoundTrips (Write.i32 v) Read.i32 x) (of_bits-bits_of v h)
      (then_pure Read.of_bits (u32-RoundTrips (bits_of-IsU32 v h)))

take-append : (xs rest : Bytes) → take (length xs) (xs ++ rest) ≡ xs
take-append [] rest = refl
take-append (x ∷ xs) rest = ap (λ ys. x ∷ ys) (take-append xs rest)

drop-append : (xs rest : Bytes) → drop (length xs) (xs ++ rest) ≡ rest
drop-append [] rest = refl
drop-append (x ∷ xs) rest = drop-append xs rest

get-RoundTrips : (xs : Bytes) → RoundTrips (Write.put xs) (Read.get (length xs)) xs
unfolding Read.get
get-RoundTrips xs =
    put-RoundTrips (Read.get (length xs)) xs xs
      (λ rest. ground (arith, take-append xs rest, drop-append xs rest, length-append xs rest))

pub string-RoundTrips : (value : Text) → RoundTrips (Write.string value) Read.string value
unfolding Write.string Read.string
string-RoundTrips value = fail_if-▸ _ (λ short. fail_if-▸ _ (λ nul_free.
    ▸->>= _ (u32-RoundTrips (ground arith)) (
      fail_if->> _ _ short
        (last (▸->>= _ (get-RoundTrips value) (fail_if->> _ _ nul_free (nothing-pure value)))))))

pub bytes-RoundTrips : (value : Bytes) → RoundTrips (Write.bytes value) Read.bytes value
unfolding Write.bytes Read.bytes
bytes-RoundTrips value =
    fail_if-▸ _ (λ short.
      ▸->>= _ (u32-RoundTrips (ground arith)) (fail_if->> _ _ short (get-RoundTrips value)))

pub flag-RoundTrips : (b : Bool) → RoundTrips (Write.flag b) Read.flag b
unfolding Read.flag
flag-RoundTrips true =
    last (▸->>= _ (u8-RoundTrips (omega arith)) (fail_if->> _ _ refl (nothing-pure true)))
flag-RoundTrips false =
    last (▸->>= _ (u8-RoundTrips (omega arith)) (fail_if->> _ _ refl (nothing-pure false)))

pub optional-RoundTrips :
    {A : Type 0} (w : A → Writer) (r : Reader A) (value : Option A)
    → ((a : A) → value ≡ some a → RoundTrips (w a) r a)
    → RoundTrips (Write.optional w value) (Read.optional r) value
unfolding Read.optional
optional-RoundTrips w r none h = last (▸->>= _ (flag-RoundTrips false) (nothing-pure none))
optional-RoundTrips w r (some a) h = ▸->>= _ (flag-RoundTrips true) (then_pure some (h a refl))

pub count-RoundTrips :
    (cap n : ℕ) → IsU32 cap → ltb cap n ≡ false → RoundTrips (Write.u32 n) (Read.count cap) n
unfolding Read.count
count-RoundTrips cap n fits h =
    last (▸->>= _ (u32-RoundTrips (ground arith)) (fail_if->> _ _ h (nothing-pure n)))

pub each-times :
    {A : Type 0} (w : A → Writer) (r : Reader A) (xs : List A)
    → All (λ x. RoundTrips (w x) r x) xs
    → RoundTrips (Write.each w xs) (Read.times (length xs) r) xs
unfolding Write.each Read.times
each-times w r [] h = nothing-pure []
each-times w r (x ∷ xs) (h, hs) = ▸->>= _ h (then_pure (λ ys. x ∷ ys) (each-times w r xs hs))

-- A field of later versions, which has its default in earlier ones.
pub since-RoundTrips :
    {A : Type 0} (first version : ℕ) (absent : A) {w : Writer} {r : Reader A} {a : A}
    → (leb first version ≡ false → absent ≡ a)
    → (leb first version ≡ true → RoundTrips w r a)
    → RoundTrips (Write.since first version w) (Read.since first version absent r) a
since-RoundTrips first version absent {w} {r} {a} early late =
    elim (Bool-cases (leb first version)) [
      | inl e ↦ rw e (late e)
      | inr e ↦
          rw e
            (subst (λ x. RoundTrips Write.nothing (pure absent) x) (early e) (nothing-pure absent))
    ]

-- What a field of later versions comes back as.
abbrev pub carried_since : {A : Type 0} → ℕ → ℕ → A → A → A
carried_since first version absent a = if leb first version then a else absent

pub carried_since-RoundTrips :
    {A : Type 0} (first version : ℕ) (absent : A) {w : Writer} {r : Reader A} {a : A}
    → RoundTrips w r a
    → RoundTrips
        (Write.since first version w)
        (Read.since first version absent r)
        (carried_since first version absent a)
carried_since-RoundTrips first version absent {w} {r} {a} k =
    elim (Bool-cases (leb first version)) [ inl e ↦ rw e k | inr e ↦ rw e (nothing-pure absent) ]

-- A loop whose values come back changed.
pub each-times-map :
    {A B : Type 0} (f : A → B) (w : A → Writer) (r : Reader B) (xs : List A)
    → All (λ x. RoundTrips (w x) r (f x)) xs
    → RoundTrips (Write.each w xs) (Read.times (length xs) r) (map f xs)
unfolding Write.each Read.times
each-times-map f w r [] h = nothing-pure []
each-times-map f w r (x ∷ xs) (h, hs) =
    ▸->>= _ h (then_pure (λ ys. f x ∷ ys) (each-times-map f w r xs hs))

-- A property of the value, if there is one.
abbrev pub IfSet : {A : Type 0} → (A → Type 0) → Option A → Type 0
IfSet P none = Unit
IfSet P (some a) = P a

pub IfSet-RoundTrips :
    {A : Type 0} (P : A → Type 0) (w : A → Writer) (r : Reader A) (value : Option A)
    → ((a : A) → P a → RoundTrips (w a) r a)
    → IfSet P value
    → RoundTrips (Write.optional w value) (Read.optional r) value
IfSet-RoundTrips P w r none h k = optional-RoundTrips w r none (λ a e. absurd (ground arith))
IfSet-RoundTrips P w r (some a) h k =
    optional-RoundTrips w r (some a)
      (λ b e. subst (λ x. RoundTrips (w x) r x) (ground arith) (h a k))
