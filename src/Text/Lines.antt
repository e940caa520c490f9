-- ===== src/Text/Lines.antt =====
-- `std::getline` until the end of the text.
use simple_ldapd.Prelude.{ℕ, ◌≡◌, refl, Bool, List, [], ◌∷◌, ◌++◌, arith, ◌==◌, if◌then◌else◌}
use simple_ldapd.Prelude.Bytes.{Bytes}
use simple_ldapd.Text.Scan.{every, Free}

abbrev pub on_first : ℕ → List Bytes → List Bytes
on_first c [] = (c ∷ []) ∷ []
on_first c (line ∷ lines) = (c ∷ line) ∷ lines

-- the lines without their ends; a text that ends with the end of a line has no line behind it
unfoldable pub lines_of : Bytes → List Bytes
lines_of [] = []
lines_of (c ∷ text) = let rest = lines_of text in if c == b'\n' then [] ∷ rest else on_first c rest

abbrev pub ends_line : ℕ → Bool
ends_line c = c == b'\n'

-- A line that is written out with its end is read back.
pub lines_of-append :
    (line text : Bytes)
    → Free ends_line line
    → lines_of (line ++ (b'\n' ∷ text)) ≡ line ∷ lines_of text
unfolding lines_of every
lines_of-append [] text h = refl
lines_of-append (c ∷ line) text h = ground (arith, lines_of-append line text)
