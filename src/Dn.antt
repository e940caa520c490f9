-- ===== src/Dn.antt =====
-- utils/dn.cpp: case-insensitive names and the string-level structure of a distinguished name.
pub mod Find
pub mod Suffix
pub mod Children
pub mod Parent
pub mod Parts
pub mod Sameness
use simple_ldapd.Prelude.{
  ℕ, zero, suc, ◌+◌, ◌-◌, ◌≡◌, refl, ap, ◌∙◌, sym, ◌↔◌, Bool, true, false, not, ◌&&◌, ◌||◌, Option,
  none, some, List, [], ◌∷◌, ◌++◌, map, arith, ltb, leb, ◌==◌, if◌then◌else◌, length, take, drop,
}
use simple_ldapd.Prelude.Bytes.{Bytes, codes, is_empty, equal, equal_iff}

-- `std::tolower` in the C locale
unfoldable pub to_lower : ℕ → ℕ
to_lower c = if leb b'A' c && leb c b'Z' then c + 32 else c

unfoldable pub to_lower_ascii : Bytes → Bytes
unfolding to_lower
to_lower_ascii = map to_lower

unfoldable pub iequals : Bytes → Bytes → Bool
unfolding equal to_lower_ascii
iequals left right = equal (to_lower_ascii left) (to_lower_ascii right)

unfoldable pub dn_equals : Bytes → Bytes → Bool
unfolding iequals
dn_equals left right = iequals left right

-- `s.find(c)`; `none` is `npos`
unfoldable pub find_char : ℕ → Bytes → Option ℕ
find_char c [] = none
find_char c (x ∷ s) =
    if x == c then some 0 else elim (find_char c s) [ none ↦ none | some i ↦ some (suc i) ]

-- `s[i]`, at an index below the length
abbrev pub char_at : Bytes → ℕ → ℕ
char_at [] i = 0
char_at (x ∷ s) zero = x
char_at (x ∷ s) (suc i) = char_at s i

unfoldable pub dn_ends_with : Bytes → Bytes → Bool
unfolding to_lower_ascii equal
dn_ends_with dn base =
    if is_empty base
    then true
    else let hay = to_lower_ascii dn in
      let needle = to_lower_ascii base in
      let cut = length hay - length needle in
      if equal hay needle
      then true
      else ltb (length needle) (length hay)
        && equal (drop cut hay) needle
        && char_at hay (cut - 1) == b','

abbrev is_none : Option ℕ → Bool
is_none none = true
is_none (some i) = false

unfoldable pub dn_is_one_level_child : Bytes → Bytes → Bool
unfolding find_char dn_ends_with dn_equals
dn_is_one_level_child dn base =
    if is_empty base
    then is_none (find_char b',' dn) && not (is_empty dn)
    else if not (dn_ends_with dn base) || dn_equals dn base
    then false
    else let hay = to_lower_ascii dn in
      let needle = to_lower_ascii base in
      is_none (find_char b',' (take (length hay - length needle - 1) hay))

unfoldable pub dn_parent : Bytes → Bytes
unfolding find_char
dn_parent dn = elim (find_char b',' dn) [ none ↦ [] | some comma ↦ drop (suc comma) dn ]

unfoldable pub dn_rdn : Bytes → Bytes
unfolding find_char
dn_rdn dn = elim (find_char b',' dn) [ none ↦ dn | some comma ↦ take comma dn ]

unfoldable pub compose_dn : Bytes → Bytes → Bytes
compose_dn rdn parent =
    if is_empty parent then rdn else if is_empty rdn then parent else rdn ++ (b',' ∷ parent)

-- `none` is the result `false`, with the two out-parameters not to be read
split_at : Bytes → ℕ → Option (Bytes × Bytes)
split_at rdn eq =
    if eq == 0 || leb (length rdn) (eq + 1) then none else some (take eq rdn, drop (suc eq) rdn)

unfoldable pub parse_rdn : Bytes → Option (Bytes × Bytes)
unfolding find_char split_at
parse_rdn rdn = elim (find_char b'=' rdn) [ none ↦ none | some eq ↦ split_at rdn eq ]

-- Names are compared by their lower-case forms.
pub iequals_iff : (a b : Bytes) → (iequals a b ≡ true) ↔ (to_lower_ascii a ≡ to_lower_ascii b)
unfolding iequals
iequals_iff a b = equal_iff (to_lower_ascii a) (to_lower_ascii b)

pub dn_equals_iff : (a b : Bytes) → (dn_equals a b ≡ true) ↔ (to_lower_ascii a ≡ to_lower_ascii b)
unfolding dn_equals
dn_equals_iff a b = iequals_iff a b

pub iequals_refl : (a : Bytes) → iequals a a ≡ true
iequals_refl a = (iequals_iff a a).1 refl

pub dn_equals_refl : (a : Bytes) → dn_equals a a ≡ true
dn_equals_refl a = (dn_equals_iff a a).1 refl
