-- ===== src/Ipc/Map.antt =====
-- The environment of a submission: a map is written in key order and read by `emplace`
-- (src/ipc/ipc_protocol.cpp).
use yori.Common.{ℕ, zero, suc, ◌≡◌, refl, sym, subst, true, false, [], ◌∷◌, ◌++◌, arith}
use mathlib.Core.List.{append_assoc, append-nil}
use yori.Common.{Text, length, All, list_beq, list_beq_iff, list_eq, nat_eq}
use yori.Common.Map.{Map, emplace, bytes_less, bytes_less_instance}
use yori.Ipc.Wire.{Writer, Reader, ◌▸◌}
use yori.Ipc.Wire.Write
use yori.Ipc.Wire.Read
use yori.Ipc.Wire.Read.{◌>>=◌, ◌>>◌, pure}
use yori.Ipc.Wire.RoundTrip.{RoundTrips, nothing-pure, ▸->>=}
use yori.Ipc.Wire.Fields.{string-RoundTrips}

-- The loop over the pairs of a map.
unfoldable pub write_pairs : Map Text Text → Writer
write_pairs [] = Write.nothing
write_pairs ((name, value) ∷ rest) = Write.string name ▸ Write.string value ▸ write_pairs rest

-- The loop that reads `n` pairs into a map.
unfoldable pub read_pairs : ℕ → Map Text Text → Reader (Map Text Text)
read_pairs zero env = pure env
read_pairs (suc n) env = do
  name ← Read.string
  value ← Read.string
  read_pairs n (emplace name value env)

-- The keys ascend, as those of a map do.
abbrev pub IsAscending : Map Text Text → Type 0
IsAscending [] = Unit
IsAscending (p ∷ rest) = All (λ q. bytes_less p.0 q.0 ≡ true) rest × IsAscending rest

bytes_less_irrefl : (xs : Text) → bytes_less xs xs ≡ false
bytes_less_irrefl [] = refl
bytes_less_irrefl (x ∷ xs) = ground (arith, bytes_less_irrefl xs)

bytes_less_asymm : (xs ys : Text) → bytes_less xs ys ≡ true → bytes_less ys xs ≡ false
bytes_less_asymm [] [] h = refl
bytes_less_asymm [] (y ∷ ys) h = refl
bytes_less_asymm (x ∷ xs) [] h = cc
bytes_less_asymm (x ∷ xs) (y ∷ ys) h = ground (arith, bytes_less_asymm xs ys)

bytes_less-ne : (xs ys : Text) → bytes_less xs ys ≡ true → list_beq xs ys ≡ false
bytes_less-ne xs ys h = ground (arith, list_beq_iff xs ys, bytes_less_irrefl xs)

-- A key above all others goes to the end.
emplace_last :
    (name value : Text) (env : Map Text Text)
    → All (λ q. bytes_less q.0 name ≡ true) env
    → emplace name value env ≡ env ++ (name, value) ∷ []
unfolding emplace
emplace_last name value [] h = refl
emplace_last name value ((j, w) ∷ env) (h, hs) =
    ground
      (arith, emplace_last name value env hs, bytes_less-ne j name h, bytes_less_asymm j name h)

above_last :
    (env : Map Text Text) (name value : Text) (rest : Map Text Text)
    → IsAscending (env ++ (name, value) ∷ rest)
    → All (λ q. bytes_less q.0 name ≡ true) env
above_last [] name value rest h = tt
above_last (p ∷ env) name value rest (h, hs) = (first env h, above_last env name value rest hs)
  where
    first :
        (xs : Map Text Text)
        → All (λ q. bytes_less p.0 q.0 ≡ true) (xs ++ (name, value) ∷ rest)
        → bytes_less p.0 name ≡ true
    first [] a = a.0
    first (x ∷ xs) a = first xs a.1

pairs-RoundTrips :
    (env rest : Map Text Text)
    → IsAscending (env ++ rest)
    → RoundTrips (write_pairs rest) (read_pairs (length rest) env) (env ++ rest)
unfolding write_pairs read_pairs
pairs-RoundTrips env [] h =
    subst (λ x. RoundTrips Write.nothing (pure env) x) (sym (append-nil env)) (nothing-pure env)
pairs-RoundTrips env ((name, value) ∷ rest) h = ▸->>= _ (string-RoundTrips name) (
    ▸->>= _ (string-RoundTrips value) (
      subst
        (λ x.
          RoundTrips (write_pairs rest) (read_pairs (length rest) x) (env ++ (name, value) ∷ rest))
        (sym (emplace_last name value env (above_last env name value rest h)))
        (subst
          (λ x.
            RoundTrips (write_pairs rest) (read_pairs (length rest) (env ++ (name, value) ∷ [])) x)
          (append_assoc env ((name, value) ∷ []) rest)
          (pairs-RoundTrips (env ++ (name, value) ∷ []) rest
            (subst IsAscending (sym (append_assoc env ((name, value) ∷ []) rest)) h)))))

-- A map comes back as it was.
pub write_pairs-RoundTrips :
    (env : Map Text Text)
    → IsAscending env
    → RoundTrips (write_pairs env) (read_pairs (length env) []) env
write_pairs-RoundTrips env h = pairs-RoundTrips [] env h
