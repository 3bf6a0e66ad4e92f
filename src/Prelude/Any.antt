-- ===== src/Prelude/Any.antt =====
-- `any` and `all` against the families that they decide.
use nostr_mesh.Prelude.Tests.{Bool-cases}
use nostr_mesh.Prelude.Lists.{any, All}
use mathlib.Core.Path.{◌≡◌, refl}
use mathlib.Core.Logic.{◌↔◌, ◌⊎◌, inl, inr}
use mathlib.Core.Bool.{Bool, true, false}
use mathlib.Core.List.{List, [], ◌∷◌}
use native.Mathlib.Omega.{arith}

-- Some item has the property, with the place kept.
abbrev pub Any {ℓ} : {A : Type ℓ} → (A → Type 0) → List A → Type 0
Any P [] = ⊥
Any P (x ∷ xs) = P x ⊎ Any P xs

module _ {ℓ} {A : Type ℓ} (q : A → Bool) (P : A → Type 0) where
  any_sound : ((x : A) → q x ≡ true → P x) → (xs : List A) → any q xs ≡ true → Any P xs
  any_sound f [] h = cc
  any_sound f (x ∷ xs) h = elim (Bool-cases (q x)) [
    | inl e ↦ inl (f x e)
    | inr e ↦ inr (any_sound f xs (ground (arith, e)))
  ]

  any_complete : ((x : A) → P x → q x ≡ true) → (xs : List A) → Any P xs → any q xs ≡ true
  any_complete f [] h = absurd h
  any_complete f (x ∷ xs) (inl p) = rw (f x p)
  any_complete f (x ∷ xs) (inr h) = let e = any_complete f xs h in ground arith

  pub any_iff : ((x : A) → (q x ≡ true) ↔ P x) → (xs : List A) → (any q xs ≡ true) ↔ Any P xs
  any_iff f xs = (any_sound (λ x. (f x).0) xs, any_complete (λ x. (f x).1) xs)

  none_sound : ((x : A) → q x ≡ false → P x) → (xs : List A) → any q xs ≡ false → All P xs
  none_sound f [] h = tt
  none_sound f (x ∷ xs) h = (f x (ground arith), none_sound f xs (ground arith))

  none_complete : ((x : A) → P x → q x ≡ false) → (xs : List A) → All P xs → any q xs ≡ false
  none_complete f [] h = refl
  none_complete f (x ∷ xs) (p, h) = rw (f x p) (none_complete f xs h)

  -- No item passes the test exactly if all have the property that refutes it.
  pub none_iff : ((x : A) → (q x ≡ false) ↔ P x) → (xs : List A) → (any q xs ≡ false) ↔ All P xs
  none_iff f xs = (none_sound (λ x. (f x).0) xs, none_complete (λ x. (f x).1) xs)
