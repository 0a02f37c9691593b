-- ===== src/Job/Validate/Components.antt =====
-- The path components of a TensorBoard directory: the loop against the list of components.
use yori.Common.{
  ℕ, zero, suc, ◌≤◌, ◌<◌, ◌≡◌, refl, ◌≢◌, ◌↔◌, true, false, Option, none, some, List, [], ◌∷◌,
  arith,
}
use yori.Common.{Text, contains_nul_iff, IsNulFree, length, All, ◌==◌, list_beq_iff}
use yori.Common.{if◌then◌else◌, nat_eq, list_eq, Option-cases, inl, inr}
use yori.Job.Spec.{max_tensorboard_logdir_bytes}
use yori.Job.Validate.{
  first_component, after_slash, dot_dot, no_dot_dot, starts_with_slash, is_valid_tensorboard_logdir,
}

-- The components of a path: its text split at every '/'.
abbrev pub put_byte : ℕ → List Text → List Text
put_byte c [] = (c ∷ []) ∷ []
put_byte c (t ∷ ts) = (c ∷ t) ∷ ts

abbrev pub components : Text → List Text
components [] = [] ∷ []
components (c ∷ t) = let rest = components t in if c == b'/' then [] ∷ rest else put_byte c rest

-- The components after the first.
abbrev pub components_after : Option Text → List Text
components_after none = []
components_after (some t) = components t

components_lem : (t : Text) → components t ≡ first_component t ∷ components_after (after_slash t)
unfolding first_component after_slash
components_lem [] = refl
components_lem (c ∷ t) = ground (arith, components_lem t)

after_slash_shorter : (t u : Text) → after_slash t ≡ some u → length u < length t
unfolding after_slash
after_slash_shorter [] u h = cc
after_slash_shorter (c ∷ t) u h = ground (arith, after_slash_shorter t u)

abbrev pub HasNoDotDot : Text → Type 0
HasNoDotDot path = All (λ component. component ≢ dot_dot) (components path)

no_dot_dot_iff :
    (fuel : ℕ) (path : Text) → length path < fuel → (no_dot_dot fuel path ≡ true) ↔ HasNoDotDot path
unfolding no_dot_dot
no_dot_dot_iff zero path h = absurd (omega arith)
no_dot_dot_iff (suc fuel) path h =
    rw (components_lem path) (elim (Option-cases (after_slash path)) [
      | inl e ↦ rw e (ground (arith, list_beq_iff (first_component path) dot_dot))
      | inr (u, e) ↦
          let shorter = after_slash_shorter path u e in
          let ih = no_dot_dot_iff fuel u (omega arith) in
          rw e (ground (arith, ih, list_beq_iff (first_component path) dot_dot))
    ])

pub record IsLogdir (path : Text) : Type 0 where
  pub some_byte : path ≢ []
  pub within : length path ≤ max_tensorboard_logdir_bytes
  pub nul_free : IsNulFree path
  pub relative : starts_with_slash path ≡ false
  pub no_parent : HasNoDotDot path

pub is_valid_tensorboard_logdir_iff :
    (path : Text) → (is_valid_tensorboard_logdir path ≡ true) ↔ IsLogdir path
unfolding is_valid_tensorboard_logdir
is_valid_tensorboard_logdir_iff [] = ((λ h. ground arith), (λ h. absurd (h.some_byte refl)))
is_valid_tensorboard_logdir_iff (c ∷ t) =
    let loop = no_dot_dot_iff (suc (length (c ∷ t))) (c ∷ t) (omega arith) in
    ground (arith, contains_nul_iff (c ∷ t), loop)
