-- ===== src/Common/Results.antt =====
-- Early returns as values: `err e` is the returned failure, `ok a` goes on with `a`.
use mathlib.Core.Path.{◌≡◌, refl, subst}
use mathlib.Core.Logic.{◌↔◌, ◌≢◌}
use mathlib.Core.Bool.{Bool, true, false}
use mathlib.Core.Option.{Option, none, some}
use mathlib.Core.List.{List, [], ◌∷◌}
use native.Mathlib.Omega.{arith}

pub data Result {ℓ} (E A : Type ℓ) : Type ℓ where
  err : E → Result E A
  ok : A → Result E A

-- A guard `if (b) return e;`.
abbrev pub fail_if : {E : Type 0} → Bool → E → Result E (Unit {0})
fail_if true e = err e
fail_if false e = ok tt

-- A call whose failure is returned, and what follows with its result.
infixl 5 ◌>>=◌ ◌>>◌
abbrev pub ◌>>=◌ {ℓ} : {E X Y : Type ℓ} (call : Result E X) (rest : X → Result E Y) → Result E Y
err failure >>= rest = err failure
ok value >>= rest = rest value

abbrev pub ◌>>◌ : {E B : Type 0} → Result E (Unit {0}) → Result E B → Result E B
ok a >> k = k
err e >> k = err e

-- A step that fails where its optional result is missing.
abbrev pub or_fail {ℓ} : {E A : Type ℓ} → Option A → E → Result E A
or_fail none e = err e
or_fail (some a) e = ok a

pub >>=-eq-ok {ℓ} :
    {E X Y : Type ℓ} (call : Result E X) (rest : X → Result E Y) {y : Y}
    → (call >>= rest) ≡ ok y
    → (x : X) × (call ≡ ok x) × (rest x ≡ ok y)
>>=-eq-ok (err failure) rest e = cc
>>=-eq-ok (ok value) rest e = (value, refl, e)

pub >>-eq-ok :
    {E B : Type 0} (m : Result E (Unit {0})) (k : Result E B) (b : B)
    → ((m >> k) ≡ ok b) ↔ ((m ≡ ok tt) × (k ≡ ok b))
>>-eq-ok (ok a) k b = ((λ h. (refl, h)), (λ h. h.1))
>>-eq-ok (err e) k b = ((λ h. cc), (λ h. cc))

pub fail_if-eq-ok : {E : Type 0} (c : Bool) (e : E) → (fail_if c e ≡ ok tt) ↔ (c ≡ false)
fail_if-eq-ok true e = ((λ h. cc), (λ h. cc))
fail_if-eq-ok false e = ((λ h. refl), (λ h. refl))

-- A loop whose body may return early, over a state.
unfoldable pub fold_result {ℓ} : {E A S : Type ℓ} → (A → S → Result E S) → List A → S → Result E S
fold_result f [] s = ok s
fold_result f (a ∷ rest) s = f a s >>= fold_result f rest

-- What every round keeps holds at the end.
pub fold_result_inv {ℓ κ} :
    {E A S : Type ℓ} (P : S → Type κ) (f : A → S → Result E S) (list : List A) (s t : S)
    → ((a : A) (u v : S) → f a u ≡ ok v → P u → P v)
    → fold_result f list s ≡ ok t
    → P s
    → P t
unfolding fold_result
fold_result_inv P f [] s t keep h p = subst P (ground arith) p
fold_result_inv P f (a ∷ list) s t keep h p =
    let (u, first, rest) = >>=-eq-ok (f a s) (fold_result f list) h in
    fold_result_inv P f list u t keep rest (keep a s u first p)

-- A chain does not fail with an error that none of its steps fails with.
pub >>=-ne-err {ℓ} :
    {E A B : Type ℓ} (m : Result E A) (f : A → Result E B) (e : E)
    → m ≢ err e
    → ((a : A) → f a ≢ err e)
    → (m >>= f) ≢ err e
>>=-ne-err (ok a) f e h k = k a
>>=-ne-err (err d) f e h k = λ q. h (ground arith)

pub fold_result-ne-err {ℓ} :
    {E A S : Type ℓ} (f : A → S → Result E S) (list : List A) (s : S) (e : E)
    → ((a : A) (u : S) → f a u ≢ err e)
    → fold_result f list s ≢ err e
unfolding fold_result
fold_result-ne-err f [] s e h = λ q. cc
fold_result-ne-err f (a ∷ list) s e h =
    >>=-ne-err (f a s) (fold_result f list) e (h a s) (λ u. fold_result-ne-err f list u e h)
