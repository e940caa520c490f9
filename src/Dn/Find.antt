-- ===== src/Dn/Find.antt =====
-- `find_char` cuts a string at the first occurrence of a character.
use simple_ldapd.Prelude.{
  ℕ, zero, suc, ◌<◌, ◌≡◌, refl, none, some, [], ◌∷◌, ◌++◌, arith, ◌==◌, length, take, drop,
}
use simple_ldapd.Prelude.Bytes.{Bytes}
use simple_ldapd.Dn.{find_char, to_lower, to_lower_ascii, dn_parent, dn_rdn}

pub find_char-append :
    (c : ℕ) (pre post : Bytes)
    → find_char c pre ≡ none
    → find_char c (pre ++ (c ∷ post)) ≡ some (length pre)
unfolding find_char
find_char-append c [] post h = ground arith
find_char-append c (x ∷ pre) post h = ground (arith, find_char-append c pre post)

-- The index found lies inside, the character stands there, and none stands before.
pub find_char-eq_some :
    (c : ℕ) (s : Bytes) (i : ℕ)
    → find_char c s ≡ some i
    → (s ≡ take i s ++ (c ∷ drop (suc i) s)) × (find_char c (take i s) ≡ none) × (i < length s)
unfolding find_char
find_char-eq_some c [] i h = cc
find_char-eq_some c (x ∷ s) zero h = ground arith
find_char-eq_some c (x ∷ s) (suc i) h = ground (arith, find_char-eq_some c s i)

pub find_char-append_none :
    (c : ℕ) (a b : Bytes)
    → find_char c (a ++ b) ≡ none
    → (find_char c a ≡ none) × (find_char c b ≡ none)
unfolding find_char
find_char-append_none c [] b h = (refl, h)
find_char-append_none c (x ∷ a) b h = ground (arith, find_char-append_none c a b)

-- Lower-casing moves no comma and no equals sign.
pub to_lower_comma : (x : ℕ) → (to_lower x == b',') ≡ (x == b',')
unfolding to_lower
to_lower_comma x = ground arith

pub find_char-to_lower_ascii : (s : Bytes) → find_char b',' (to_lower_ascii s) ≡ find_char b',' s
unfolding find_char to_lower_ascii
find_char-to_lower_ascii [] = refl
find_char-to_lower_ascii (x ∷ s) = rw (to_lower_comma x, find_char-to_lower_ascii s)

pub drop-suc-append :
    (pre : Bytes) (c : ℕ) (s : Bytes) → drop (suc (length pre)) (pre ++ (c ∷ s)) ≡ s
drop-suc-append [] c s = refl
drop-suc-append (x ∷ pre) c s = drop-suc-append pre c s

pub dn_parent-some :
    (dn : Bytes) (i : ℕ) → find_char b',' dn ≡ some i → dn_parent dn ≡ drop (suc i) dn
unfolding dn_parent
dn_parent-some dn i e = rw (e, dn_parent)

pub dn_rdn-some : (dn : Bytes) (i : ℕ) → find_char b',' dn ≡ some i → dn_rdn dn ≡ take i dn
unfolding dn_rdn
dn_rdn-some dn i e = rw (e, dn_rdn)

pub dn_none : (dn : Bytes) → find_char b',' dn ≡ none → (dn_rdn dn ≡ dn) × (dn_parent dn ≡ [])
unfolding dn_rdn dn_parent
dn_none dn e = (rw (e, dn_rdn), rw (e, dn_parent))
