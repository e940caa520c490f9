-- ===== src/Text/Scan.antt =====
-- Scanning a text of which every character has, or lacks, a property.
use simple_ldapd.Prelude.{ℕ, ◌≡◌, refl, ap, ◌∙◌, Bool, true, not, ◌&&◌, [], ◌∷◌, ◌++◌, arith}
use simple_ldapd.Prelude.Bytes.{Bytes}
use simple_ldapd.Text.{drop_while, take_until, drop_until}
use mathlib.Core.List.{reverse, reverse_aux, reverse-reverse}

unfoldable pub every : (ℕ → Bool) → Bytes → Bool
every p [] = true
every p (c ∷ s) = p c && every p s

-- no character has the property
abbrev pub Free : (ℕ → Bool) → Bytes → Type 0
Free p s = every (λ c. not (p c)) s ≡ true

pub every-append :
    (p : ℕ → Bool) (s t : Bytes) → every p s ≡ true → every p t ≡ true → every p (s ++ t) ≡ true
unfolding every
every-append p [] t h k = k
every-append p (c ∷ s) t h k = ground (arith, every-append p s t)

pub every-weaken :
    (p q : ℕ → Bool) (s : Bytes)
    → ((c : ℕ) → p c ≡ true → q c ≡ true)
    → every p s ≡ true
    → every q s ≡ true
unfolding every
every-weaken p q [] w h = refl
every-weaken p q (c ∷ s) w h = ground (arith, w c, every-weaken p q s w)

every-reverse_aux :
    (p : ℕ → Bool) (s t : Bytes)
    → every p s ≡ true
    → every p t ≡ true
    → every p (reverse_aux s t) ≡ true
unfolding every
every-reverse_aux p [] t h k = k
every-reverse_aux p (c ∷ s) t h k = every-reverse_aux p s (c ∷ t) (ground arith) (ground arith)

pub every-reverse : (p : ℕ → Bool) (s : Bytes) → every p s ≡ true → every p (reverse s) ≡ true
unfolding every
every-reverse p s h = every-reverse_aux p s [] h refl

pub drop_while-Free : (p : ℕ → Bool) (s : Bytes) → Free p s → drop_while p s ≡ s
unfolding every drop_while
drop_while-Free p [] h = refl
drop_while-Free p (c ∷ s) h = ground arith

pub take_until-Free : (p : ℕ → Bool) (s : Bytes) → Free p s → take_until p s ≡ s
unfolding every take_until
take_until-Free p [] h = refl
take_until-Free p (c ∷ s) h = ground (arith, take_until-Free p s)

-- The scan stops at the first character with the property.
pub take_until-append :
    (p : ℕ → Bool) (s : Bytes) (c : ℕ) (t : Bytes)
    → Free p s
    → p c ≡ true
    → take_until p (s ++ (c ∷ t)) ≡ s
unfolding every take_until
take_until-append p [] c t h k = ground arith
take_until-append p (x ∷ s) c t h k = ground (arith, take_until-append p s c t)

pub drop_until-append :
    (p : ℕ → Bool) (s : Bytes) (c : ℕ) (t : Bytes)
    → Free p s
    → p c ≡ true
    → drop_until p (s ++ (c ∷ t)) ≡ c ∷ t
unfolding every drop_until
drop_until-append p [] c t h k = ground arith
drop_until-append p (x ∷ s) c t h k = ground (arith, drop_until-append p s c t)

-- Nothing is cut from an end that has no such character.
pub drop_while-reverse :
    (p : ℕ → Bool) (s : Bytes) → Free p s → reverse (drop_while p (reverse s)) ≡ s
drop_while-reverse p s h =
    ap reverse (drop_while-Free p (reverse s) (every-reverse (λ c. not (p c)) s h))
    ∙ reverse-reverse s
