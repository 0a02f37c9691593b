-- ===== src/Service/Inspect/Sensitive.antt =====
-- Which names `is_sensitive_env_name` matches (src/ipc/ipc_service.cpp), without its lower-casing.
use yori.Common.{
  ℕ, ◌+◌, ◌≤◌, ◌≡◌, ◌⊎◌, ◌↔◌, refl, ap, sym, subst, true, List, [], ◌∷◌, ◌++◌, inl, inr, arith,
}
use yori.Common.{Text, starts_with, contains_text, nat_eq, nat_beq_iff, any, Bool-cases}
use yori.Service.{IpcServiceConfig}
use yori.Service.Inspect.{lower, to_lower_ascii, is_sensitive_env_name}

-- The same byte, or the two cases of an ASCII letter.
abbrev pub SameLetter : ℕ → ℕ → Type 0
SameLetter c d =
    (c ≡ d) ⊎ ((65 ≤ c) × (c ≤ 90) × (d ≡ c + 32)) ⊎ ((65 ≤ d) × (d ≤ 90) × (c ≡ d + 32))

-- The same text up to the case of ASCII letters.
abbrev pub SameText : Text → Text → Type 0
SameText [] [] = Unit
SameText (c ∷ s) (d ∷ t) = SameLetter c d × SameText s t
SameText _ _ = ⊥

-- A part of the name is the pattern, whatever the case of its letters.
abbrev pub Mentions : Text → Text → Type 0
Mentions name pattern =
    (before : Text) × (part : Text) × (after : Text) × (name ≡ before ++ part ++ after)
    × SameText pattern part

-- The name mentions one of the patterns.
abbrev pub MentionsAny : List Text → Text → Type 0
MentionsAny [] name = ⊥
MentionsAny (pattern ∷ rest) name = Mentions name pattern ⊎ MentionsAny rest name

lower_iff : (c d : ℕ) → (lower c ≡ lower d) ↔ SameLetter c d
lower_iff c d = ground arith

starts_with-part :
    (pattern part after : Text)
    → SameText pattern part
    → starts_with (to_lower_ascii pattern) (to_lower_ascii (part ++ after)) ≡ true
starts_with-part [] part after h = refl
starts_with-part (c ∷ pattern) [] after h = absurd h
starts_with-part (c ∷ pattern) (d ∷ part) after (h, hs) =
    let same = (lower_iff c d).1 h in
    let rest = starts_with-part pattern part after hs in
    ground (arith, nat_beq_iff (lower c) (lower d))

starts_with-SameText :
    (pattern t : Text)
    → starts_with (to_lower_ascii pattern) (to_lower_ascii t) ≡ true
    → (part : Text) × (after : Text) × (t ≡ part ++ after) × SameText pattern part
starts_with-SameText [] t h = ([], t, refl, tt)
starts_with-SameText (c ∷ pattern) [] h = cc
starts_with-SameText (c ∷ pattern) (d ∷ t) h =
    let same : lower c ≡ lower d = ground (arith, nat_beq_iff (lower c) (lower d)) in
    let rest : starts_with (to_lower_ascii pattern) (to_lower_ascii t) ≡ true = ground arith in
    let (part, after, e, hs) = starts_with-SameText pattern t rest in
    (d ∷ part, after, ap (λ x. d ∷ x) e, ((lower_iff c d).0 same, hs))

starts_with-contains :
    (needle t : Text) → starts_with needle t ≡ true → contains_text needle t ≡ true
unfolding contains_text
starts_with-contains needle [] h = h
starts_with-contains needle (x ∷ t) h = ground arith

contains-part :
    (pattern before part after : Text)
    → SameText pattern part
    → contains_text (to_lower_ascii pattern) (to_lower_ascii (before ++ part ++ after)) ≡ true
unfolding contains_text
contains-part pattern [] part after h =
    starts_with-contains (to_lower_ascii pattern) (to_lower_ascii (part ++ after))
      (starts_with-part pattern part after h)
contains-part pattern (x ∷ before) part after h =
    let rest = contains-part pattern before part after h in ground arith

contains-Mentions :
    (pattern t : Text)
    → contains_text (to_lower_ascii pattern) (to_lower_ascii t) ≡ true
    → Mentions t pattern
unfolding contains_text
contains-Mentions pattern [] h =
    let (part, after, e, hs) = starts_with-SameText pattern [] h in ([], part, after, e, hs)
contains-Mentions pattern (x ∷ t) h =
    elim (Bool-cases (starts_with (to_lower_ascii pattern) (to_lower_ascii (x ∷ t)))) [
      | inl found ↦
          let (part, after, e, hs) = starts_with-SameText pattern (x ∷ t) found in
          ([], part, after, e, hs)
      | inr missed ↦
          let later : contains_text (to_lower_ascii pattern) (to_lower_ascii t) ≡ true =
            ground arith in
          let (before, part, after, e, hs) = contains-Mentions pattern t later in
          (x ∷ before, part, after, ap (λ y. x ∷ y) e, hs)
    ]

contains_text_iff :
    (name pattern : Text)
    → (contains_text (to_lower_ascii pattern) (to_lower_ascii name) ≡ true) ↔ Mentions name pattern
contains_text_iff name pattern = (
  contains-Mentions pattern name,
  λ (before, part, after, e, hs).
      subst (λ x. contains_text (to_lower_ascii pattern) (to_lower_ascii x) ≡ true) (sym e)
        (contains-part pattern before part after hs),
)

any_iff :
    (patterns : List Text) (name : Text)
    → (any (λ pattern. contains_text (to_lower_ascii pattern) (to_lower_ascii name)) patterns
        ≡ true)
      ↔ MentionsAny patterns name
any_iff [] name = ((λ e. cc), (λ h. absurd h))
any_iff (pattern ∷ rest) name = (
  (λ h. elim (Bool-cases (contains_text (to_lower_ascii pattern) (to_lower_ascii name))) [
    | inl found ↦ inl ((contains_text_iff name pattern).0 found)
    | inr missed ↦ inr ((any_iff rest name).0 (ground arith))
  ]),
  (λ h. elim h [
    | inl here ↦ let found = (contains_text_iff name pattern).1 here in ground arith
    | inr there ↦ let found = (any_iff rest name).1 there in ground arith
  ]),
)

-- A name is sensitive exactly if it mentions one of the configured patterns.
pub is_sensitive_env_name_iff :
    (config : IpcServiceConfig) (name : Text)
    → (is_sensitive_env_name config name ≡ true) ↔ MentionsAny config.sensitive_env_patterns name
unfolding is_sensitive_env_name
is_sensitive_env_name_iff config name = any_iff config.sensitive_env_patterns name
