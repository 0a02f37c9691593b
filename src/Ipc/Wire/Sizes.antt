-- ===== src/Ipc/Wire/Sizes.antt =====
-- Writers that succeed, and how many bytes they append (src/ipc/ipc_protocol.cpp).
use yori.Common.{
  ℕ, zero, suc, ◌+◌, ◌≤◌, ◌≡◌, refl, sym, ap, ◌∙◌, Bool, true, false, Option, none, some, inl, inr,
  [], ◌++◌, arith,
}
use mathlib.Core.List.{append_assoc, append-nil}
use yori.Common.{Text, length, length-append, contains_nul_iff, IsNulFree, leb, Bool-cases}
use yori.Ipc.Wire.{Bytes, Writer, ◌▸◌, le_bytes, max_string_bytes}
use yori.Ipc.Wire.Write

-- Whatever is in the buffer, the write succeeds and appends `n` bytes at most.
pub record Appends (w : Writer) (n : ℕ) : Type 0 where
  pub adds :
      (buffer : Bytes)
      → (written : Bytes) × (w buffer ≡ some (buffer ++ written)) × (length written ≤ n)

pub nothing-Appends : Appends Write.nothing 0
unfolding Write.nothing
nothing-Appends = record { adds = λ buffer. ([], ap some (sym (append-nil buffer)), omega arith) }

pub put-Appends : (xs : Bytes) (n : ℕ) → length xs ≤ n → Appends (Write.put xs) n
unfolding Write.put
put-Appends xs n h = record { adds = λ buffer. (xs, refl, h) }

pub fail_if-Appends : (b : Bool) → b ≡ false → Appends (Write.fail_if b) 0
unfolding Write.fail_if
fail_if-Appends true h = cc
fail_if-Appends false h = record {
  adds = λ buffer. ([], ap some (sym (append-nil buffer)), omega arith);
}

pub ▸-Appends : {w v : Writer} {n m : ℕ} → Appends w n → Appends v m → Appends (w ▸ v) (n + m)
unfolding ◌▸◌
▸-Appends {w = w} {v = v} {n = n} {m = m} first second = record {
  adds = λ buffer.
      let (x, e, few) = first.adds buffer in
      let (y, f, less) = second.adds (buffer ++ x) in
      (
        x ++ y,
        rw (◌▸◌, e) (f ∙ ap some (append_assoc buffer x y)),
        omega (arith, length-append x y),
      );
}

-- More room than needed.
pub room : {w : Writer} {n m : ℕ} → n ≤ m → Appends w n → Appends w m
room h k = record { adds = λ buffer. let (x, e, few) = k.adds buffer in (x, e, omega arith) }

length-le_bytes : (n v : ℕ) → length (le_bytes n v) ≡ n
unfolding le_bytes
length-le_bytes zero v = refl
length-le_bytes (suc n) v = omega (arith, length-le_bytes n _)

pub number-Appends : (n v : ℕ) → Appends (Write.put (le_bytes n v)) n
number-Appends n v = put-Appends (le_bytes n v) n (omega (arith, length-le_bytes n v))

-- What `Writer::string` takes.
pub record IsText (t : Text) : Type 0 where
  pub short : length t ≤ max_string_bytes
  pub nul_free : IsNulFree t

pub string-Appends : (t : Text) → IsText t → Appends (Write.string t) (4 + length t)
unfolding Write.string
string-Appends t h =
    let short = h.short in
    let clean = (contains_nul_iff t).1 h.nul_free in
    room (omega arith) (
      ▸-Appends (fail_if-Appends _ (ground arith)) (
        ▸-Appends (fail_if-Appends _ clean)
          (▸-Appends (number-Appends 4 (length t)) (put-Appends t (length t) (omega arith)))))

pub optional-Appends :
    {A : Type 0} (w : A → Writer) (value : Option A) (n : ℕ)
    → ((a : A) → value ≡ some a → Appends (w a) n)
    → Appends (Write.optional w value) (1 + n)
optional-Appends w none n h = room (omega arith) (number-Appends 1 0)
optional-Appends w (some a) n h = ▸-Appends (number-Appends 1 1) (h a refl)

pub since-Appends :
    (first version : ℕ) {w : Writer} (n : ℕ) → Appends w n → Appends (Write.since first version w) n
since-Appends first version n k = elim (Bool-cases (leb first version)) [
  | inl e ↦ rw e k
  | inr e ↦ rw e (room (omega arith) nothing-Appends)
]
