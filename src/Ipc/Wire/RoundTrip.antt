-- ===== src/Ipc/Wire/RoundTrip.antt =====
-- What a reader makes of what a writer wrote: one lemma for each way in which the protocol composes
-- them (src/ipc/ipc_protocol.cpp).
use yori.Common.{◌≡◌, refl, sym, ap, subst, ◌∙◌, inl, inr, Bool, true, false, some, [], ◌++◌, arith}
use mathlib.Core.List.{append_assoc, append-nil}
use yori.Common.{ok, nat_eq, Option-cases}
use yori.Ipc.Wire.{Bytes, Writer, Reader, ◌▸◌, IpcDecodeError}
use yori.Ipc.Wire.Write
use yori.Ipc.Wire.Read
use yori.Ipc.Wire.Read.{◌>>=◌, ◌>>◌, pure}

-- The bytes that a write appended, which the reader turns into the value whatever follows them.
pub record Appended {A : Type 0} (r : Reader A) (a : A) (buffer longer : Bytes) : Type 0 where
  pub written : Bytes
  pub appended : longer ≡ buffer ++ written
  pub reads : (rest : Bytes) → r (written ++ rest) ≡ ok (a, rest)

-- Wherever the write succeeds, the reader gets the value back.
pub record RoundTrips {A : Type 0} (w : Writer) (r : Reader A) (a : A) : Type 0 where
  pub back : (buffer longer : Bytes) → w buffer ≡ some longer → Appended r a buffer longer

some_same : {A : Type 0} {x y : A} → some x ≡ some y → x ≡ y
some_same h = cc

pub nothing-pure : {A : Type 0} (a : A) → RoundTrips Write.nothing (pure a) a
unfolding Write.nothing pure
nothing-pure a = record {
  back = λ buffer longer h. record {
    written = [];
    appended = sym (some_same h) ∙ sym (append-nil buffer);
    reads = λ rest. refl;
  };
}

▸-eq-some :
    (w v : Writer) (buffer longer : Bytes)
    → (w ▸ v) buffer ≡ some longer
    → (middle : Bytes) × (w buffer ≡ some middle) × (v middle ≡ some longer)
unfolding ◌▸◌
▸-eq-some w v buffer longer h = elim (Option-cases (w buffer)) [
  | inl e ↦ absurd (ground arith)
  | inr (middle, e) ↦ (middle, e, ground arith)
]

>>=-step :
    {A B : Type 0} (r : Reader A) (next : A → Reader B) (a : A) (xs rest : Bytes)
    → r xs ≡ ok (a, rest)
    → (r >>= next) xs ≡ next a rest
unfolding ◌>>=◌
>>=-step r next a xs rest h = rw (h, ◌>>=◌)

-- One value after another.
pub ▸->>= :
    {A B : Type 0} {w v : Writer} {r : Reader A} (next : A → Reader B) {a : A} {b : B}
    → RoundTrips w r a
    → RoundTrips v (next a) b
    → RoundTrips (w ▸ v) (r >>= next) b
▸->>= {w = w} {v = v} {r = r} next {a = a} first second = record {
  back = λ buffer longer h.
      let (middle, e, f) = ▸-eq-some w v buffer longer h in
      let p = first.back buffer middle e in
      let q = second.back middle longer f in
      record {
        written = p.written ++ q.written;
        appended =
            q.appended
            ∙ ap (λ x. x ++ q.written) p.appended
            ∙ append_assoc buffer p.written q.written;
        reads = λ rest.
            ap (r >>= next) (append_assoc p.written q.written rest)
            ∙ >>=-step r next a _ _ (p.reads (q.written ++ rest))
            ∙ q.reads rest;
      };
}

-- A test of the writer holds in what follows.
pub fail_if-▸ :
    {A : Type 0} (b : Bool) {w : Writer} {r : Reader A} {a : A}
    → (b ≡ false → RoundTrips w r a)
    → RoundTrips (Write.fail_if b ▸ w) r a
unfolding Write.fail_if ◌▸◌
fail_if-▸ true k = record { back = λ buffer longer h. cc }
fail_if-▸ false k = k refl

-- A test of the reader that the value passes.
pub fail_if->> :
    {A : Type 0} (b : Bool) (e : IpcDecodeError) {w : Writer} {r : Reader A} {a : A}
    → b ≡ false
    → RoundTrips w r a
    → RoundTrips w (Read.fail_if b e >> r) a
unfolding Read.fail_if ◌>>◌
fail_if->> true e h k = cc
fail_if->> false e h k = record {
  back = λ buffer longer f.
      let p = k.back buffer longer f in
      record { written = p.written; appended = p.appended; reads = λ rest. p.reads rest };
}

▸-nothing : (w : Writer) (buffer : Bytes) → (w ▸ Write.nothing) buffer ≡ w buffer
unfolding ◌▸◌ Write.nothing
▸-nothing w buffer = elim (Option-cases (w buffer)) [
  | inl e ↦ rw (e, ◌▸◌)
  | inr (x, e) ↦ rw (e, ◌▸◌)
]

-- A write after which nothing is written.
pub last :
    {A : Type 0} {w : Writer} {r : Reader A} {a : A}
    → RoundTrips (w ▸ Write.nothing) r a
    → RoundTrips w r a
last {w = w} k = record { back = λ buffer longer h. k.back buffer longer (▸-nothing w buffer ∙ h) }

-- A value that is made into another one.
pub then_pure :
    {A B : Type 0} {w : Writer} {r : Reader A} (f : A → B) {a : A}
    → RoundTrips w r a
    → RoundTrips w (r >>= λ x. pure (f x)) (f a)
then_pure f {a = a} k = last (▸->>= (λ x. pure (f x)) k (nothing-pure (f a)))

pure->>= : {A B : Type 0} (a : A) (next : A → Reader B) → (pure a >>= next) ≡ next a
unfolding pure ◌>>=◌
pure->>= a next = refl

-- A reader that consumes nothing and gives a value.
pub known->>= :
    {A B : Type 0} {w : Writer} {r : Reader A} (next : A → Reader B) (a : A) {b : B}
    → r ≡ pure a
    → RoundTrips w (next a) b
    → RoundTrips w (r >>= next) b
known->>= {w = w} next a {b = b} h k =
    subst (λ x. RoundTrips w x b) (sym (ap (λ x. x >>= next) h ∙ pure->>= a next)) k
