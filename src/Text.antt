-- ===== src/Text.antt =====
-- Helpers on characters that several sources write out: `std::isspace`, trimming, reading a word.
pub mod Scan
pub mod Numbers
pub mod Lines
use simple_ldapd.Prelude.{ℕ, Bool, ◌&&◌, ◌||◌, [], ◌∷◌, leb, ◌==◌, if◌then◌else◌}
use simple_ldapd.Prelude.Bytes.{Bytes}
use mathlib.Core.List.{reverse}

-- in the C locale
unfoldable pub is_space : ℕ → Bool
is_space c = c == b' ' || (leb 9 c && leb c 13)

-- the text from the first character without the property
unfoldable pub drop_while : (ℕ → Bool) → Bytes → Bytes
drop_while p [] = []
drop_while p (c ∷ s) = if p c then drop_while p s else c ∷ s

-- the text up to the first character with the property
unfoldable pub take_until : (ℕ → Bool) → Bytes → Bytes
take_until p [] = []
take_until p (c ∷ s) = if p c then [] else c ∷ take_until p s

unfoldable pub drop_until : (ℕ → Bool) → Bytes → Bytes
drop_until p [] = []
drop_until p (c ∷ s) = if p c then c ∷ s else drop_until p s

unfoldable pub trim_copy : Bytes → Bytes
unfolding is_space drop_while
trim_copy value = reverse (drop_while is_space (reverse (drop_while is_space value)))

-- `in >> word`: the word and the text behind it; an empty word is a failed extraction
unfoldable pub read_word : Bytes → Bytes × Bytes
unfolding is_space drop_while take_until drop_until
read_word text =
    let start = drop_while is_space text in (take_until is_space start, drop_until is_space start)
