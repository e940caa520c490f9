-- ===== src/Prelude/Bytes.antt =====
-- `std::string` and `std::vector<uint8_t>`: lists of bytes.
use Prim.Native.Char.{code}
use Prim.Native.String.{String}
use Prim.Native.Nat.{ℕ}
use mathlib.Core.Path.{◌≡◌, refl}
use mathlib.Core.Logic.{◌↔◌, ◌≢◌}
use mathlib.Core.Bool.{Bool, true, false, ◌&&◌}
use mathlib.Core.List.{List, [], ◌∷◌}
use native.Mathlib.Omega.{arith}
use simple_ldapd.Prelude.Tests.{◌==◌}

abbrev pub Bytes : Type 0
Bytes = List ℕ

-- The code points of a literal: its bytes, since every literal here is ASCII.
abbrev pub codes : String → Bytes
codes String.[] = []
codes (String.◌∷◌ c s) = code c ∷ codes s

-- `value.empty()`
abbrev pub is_empty {ℓ} : {A : Type ℓ} → List A → Bool
is_empty [] = true
is_empty (c ∷ s) = false

-- `operator==` of two strings
unfoldable pub equal : Bytes → Bytes → Bool
equal [] right = is_empty right
equal (l ∷ left) [] = false
equal (l ∷ left) (r ∷ right) = (l == r) && equal left right

-- It tells equal strings from others.
pub equal_iff : (left right : Bytes) → (equal left right ≡ true) ↔ (left ≡ right)
unfolding equal
equal_iff [] [] = ground arith
equal_iff [] (r ∷ right) = ground arith
equal_iff (l ∷ left) [] = ground arith
equal_iff (l ∷ left) (r ∷ right) = let behind = equal_iff left right in ground (arith, behind)

pub equal_refl : (a : Bytes) → equal a a ≡ true
equal_refl a = (equal_iff a a).1 refl

pub equal_ne : (a b : Bytes) → a ≢ b → equal a b ≡ false
equal_ne a b h = ground (arith, equal_iff a b)
