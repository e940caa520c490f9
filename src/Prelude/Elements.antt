-- ===== src/Prelude/Elements.antt =====
-- The elements of a list, and a test of them.
use mathlib.Core.Path.{◌≡◌, refl}
use mathlib.Core.Logic.{◌⊎◌, inl, inr}
use mathlib.Core.Bool.{Bool, true, false, ◌||◌}
use mathlib.Core.List.{List, [], ◌∷◌}
use simple_ldapd.Prelude.Tests.{Bool-cases}

-- an element of a list
pub data Among {ℓ} {A : Type ℓ} (x : A) : List A → Type ℓ where
  here : {xs : List A} → Among x (x ∷ xs)
  there : {y : A} {xs : List A} → Among x xs → Among x (y ∷ xs)

module _ {ℓ} {A : Type ℓ} (x : A) where
  abbrev Cases : List A → Type ℓ
  Cases [] = Among x []
  Cases (y ∷ xs) = (x ≡ y) ⊎ Among x xs

  Among-head : (xs : List A) → Among x xs → Cases xs
  Among-head _ here = inl refl
  Among-head _ (there among) = inr among

  -- an element is the first one, or is behind it
  pub Among-cases : (y : A) (xs : List A) → Among x (y ∷ xs) → (x ≡ y) ⊎ Among x xs
  Among-cases y xs among = Among-head (y ∷ xs) among

  abbrev IsCons : List A → Type 0
  IsCons [] = ⊥
  IsCons (y ∷ xs) = Unit

  Among-IsCons : (xs : List A) → Among x xs → IsCons xs
  Among-IsCons _ here = tt
  Among-IsCons _ (there among) = tt

  -- nothing is an element of the empty list
  pub Among-nil : Among x [] → ⊥
  Among-nil among = Among-IsCons [] among

-- some element has the property
abbrev pub any_of {ℓ} : {A : Type ℓ} → (A → Bool) → List A → Bool
any_of p [] = false
any_of p (x ∷ xs) = p x || any_of p xs

pub any_of_sound {ℓ} :
    {A : Type ℓ} (p : A → Bool) (xs : List A)
    → any_of p xs ≡ true
    → (x : A) × Among x xs × (p x ≡ true)
any_of_sound p [] h = absurd (cc)
any_of_sound p (x ∷ xs) h = elim (Bool-cases (p x)) [
  | inl e ↦ (x, here, e)
  | inr e ↦ let (y, among, holds) = any_of_sound p xs (rw e at h) in (y, there among, holds)
]

pub any_of_complete {ℓ} :
    {A : Type ℓ} (p : A → Bool) (x : A) (xs : List A) → Among x xs → p x ≡ true → any_of p xs ≡ true
any_of_complete p x _ here e = rw e refl
any_of_complete p x _ (there {y = y} {xs = xs} among) e =
    let later = any_of_complete p x xs among e in
    elim (Bool-cases (p y)) [ inl f ↦ rw f refl | inr f ↦ rw f later ]
