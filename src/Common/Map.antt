-- ===== src/Common/Map.antt =====
-- `std::map`: the entries in the order of their keys, looked up by equality.
use Prim.Native.Nat.{ℕ, suc, ◌≤◌}
use mathlib.Core.Path.{◌≡◌, refl}
use mathlib.Core.Bool.{Bool, true, false}
use mathlib.Core.List.{List, [], ◌∷◌, map}
use mathlib.Core.Option.{Option, none, some}
use native.Mathlib.Omega.{arith}
use yori.Common.Tests.{ltb, if◌then◌else◌, has_value}
use yori.Common.Lists.{length, All}
use yori.Common.Equality.{Eq}

-- `operator<` of a key type.
pub record Less {ℓ} (K : Type ℓ) : Type ℓ where
  pub less : K → K → Bool

instance abbrev pub nat_less : Less ℕ
nat_less = record { less = ltb }

-- `std::string` compares its bytes from the left.
abbrev pub bytes_less : List ℕ → List ℕ → Bool
bytes_less xs [] = false
bytes_less [] (y ∷ ys) = true
bytes_less (x ∷ xs) (y ∷ ys) =
    let rest = bytes_less xs ys in if ltb x y then true else if ltb y x then false else rest

instance abbrev pub bytes_less_instance : Less (List ℕ)
bytes_less_instance = record { less = bytes_less }

abbrev pub Map {ℓ} : Type ℓ → Type ℓ → Type ℓ
Map K V = List (K × V)

abbrev pub values {ℓ} : {K V : Type ℓ} → Map K V → List V
values m = map (λ p. p.1) m

module _ {ℓ} {K V : Type ℓ} ⦃e : Eq K⦄ where
  unfoldable pub find : K → Map K V → Option V
  find k [] = none
  find k ((j, v) ∷ m) = if e.beq j k then some v else find k m

  abbrev pub contains : K → Map K V → Bool
  contains k m = has_value (find k m)

  -- `emplace` leaves an entry under the same key as it is.
  unfoldable pub emplace : ⦃l : Less K⦄ → K → V → Map K V → Map K V
  emplace k v [] = (k, v) ∷ []
  emplace ⦃l⦄ k v ((j, w) ∷ m) =
      let rest = emplace ⦃l = l⦄ k v m in
      if e.beq j k then (j, w) ∷ m else if l.less k j then (k, v) ∷ (j, w) ∷ m else (j, w) ∷ rest

  -- `it->second = v` at the iterator that `find k` returned.
  unfoldable pub assign : K → V → Map K V → Map K V
  assign k v [] = []
  assign k v ((j, w) ∷ m) = if e.beq j k then (j, v) ∷ m else (j, w) ∷ assign k v m

  -- `erase` of the iterator that `find k` returned.
  unfoldable pub erase : K → Map K V → Map K V
  erase k [] = []
  erase k ((j, w) ∷ m) = if e.beq j k then m else (j, w) ∷ erase k m

  -- No key twice.
  abbrev pub IsUnique : Map K V → Type ℓ
  IsUnique [] = Unit
  IsUnique ((k, v) ∷ m) = (find k m ≡ none) × IsUnique m

  -- What holds of whatever is found holds of every value.
  pub values-All {κ} :
      (P : V → Type κ) (m : Map K V)
      → IsUnique m
      → ((k : K) (v : V) → find k m ≡ some v → P v)
      → All P (values m)
  unfolding find
  values-All P [] u f = tt
  values-All P ((k, v) ∷ m) u f = (
    f k v (ground (arith, e.beq_iff k k)),
    values-All P m u.1 (λ j w h. f j w (ground (arith, e.beq_iff k j, u.0, h))),
  )

  pub find-emplace :
      ⦃l : Less K⦄ (k j : K) (v : V) (m : Map K V)
      → find k m ≡ none
      → find j (emplace k v m) ≡ (if e.beq k j then some v else find j m)
  unfolding find emplace
  find-emplace k j v [] h = refl
  find-emplace ⦃l⦄ k j v ((i, w) ∷ m) h =
      ground (arith, find-emplace ⦃l = l⦄ k j v m, e.beq_iff i k, e.beq_iff i j, e.beq_iff k j)

  pub find-assign :
      (k j : K) (v w : V) (m : Map K V)
      → find k m ≡ some w
      → find j (assign k v m) ≡ (if e.beq k j then some v else find j m)
  unfolding find assign
  find-assign k j v w [] h = cc
  find-assign k j v w ((i, u) ∷ m) h =
      ground (arith, find-assign k j v w m, e.beq_iff i k, e.beq_iff i j, e.beq_iff k j)

  pub find-erase :
      (k j : K) (m : Map K V)
      → IsUnique m
      → find j (erase k m) ≡ (if e.beq k j then none else find j m)
  unfolding find erase
  find-erase k j [] h = ground arith
  find-erase k j ((i, u) ∷ m) h =
      ground (arith, find-erase k j m h.1, e.beq_iff i k, e.beq_iff i j, e.beq_iff k j)

  pub emplace-IsUnique :
      ⦃l : Less K⦄ (k : K) (v : V) (m : Map K V)
      → find k m ≡ none
      → IsUnique m
      → IsUnique (emplace k v m)
  unfolding find emplace
  emplace-IsUnique k v [] h u = (refl, tt)
  emplace-IsUnique ⦃l⦄ k v ((i, w) ∷ m) h u = ground (
    arith,
    emplace-IsUnique ⦃l = l⦄ k v m,
    find-emplace ⦃l = l⦄ k i v m,
    e.beq_iff i k,
    e.beq_iff k i,
  )

  pub assign-IsUnique : (k : K) (v : V) (m : Map K V) → IsUnique m → IsUnique (assign k v m)
  unfolding find assign
  assign-IsUnique k v [] u = tt
  assign-IsUnique k v ((i, w) ∷ m) u =
      ground (arith, assign-IsUnique k v m u.1, find-assign_none k i v m)
    where
      find-assign_none :
          (k j : K) (v : V) (m : Map K V) → find j m ≡ none → find j (assign k v m) ≡ none
      find-assign_none k j v [] h = refl
      find-assign_none k j v ((i, u) ∷ m) h = ground (arith, find-assign_none k j v m)

  pub erase-IsUnique : (k : K) (m : Map K V) → IsUnique m → IsUnique (erase k m)
  unfolding find erase
  erase-IsUnique k [] u = tt
  erase-IsUnique k ((i, w) ∷ m) u =
      ground (arith, erase-IsUnique k m u.1, find-erase k i m u.1, e.beq_iff k i)

  pub length-emplace :
      ⦃l : Less K⦄ (k : K) (v : V) (m : Map K V) → length (emplace k v m) ≤ suc (length m)
  unfolding emplace
  length-emplace k v [] = omega arith
  length-emplace ⦃l⦄ k v ((i, w) ∷ m) = ground (arith, length-emplace ⦃l = l⦄ k v m)

  pub length-assign : (k : K) (v : V) (m : Map K V) → length (assign k v m) ≡ length m
  unfolding assign
  length-assign k v [] = refl
  length-assign k v ((i, w) ∷ m) = ground (arith, length-assign k v m)

  pub length-erase : (k : K) (m : Map K V) → length (erase k m) ≤ length m
  unfolding erase
  length-erase k [] = omega arith
  length-erase k ((i, w) ∷ m) = ground (arith, length-erase k m)
