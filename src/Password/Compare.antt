-- ===== src/Password/Compare.antt =====
-- auth/password.cpp: the comparisons that do not stop at the first difference.
use Prim.Native.Nat.{bit_or, bit_xor, digits, differ, max, bit_or-bitwise, bit_xor-bitwise}
use simple_ldapd.Prelude.{
  ℕ, zero, suc, ◌*◌, ◌/◌, ◌%◌, ◌≤◌, ◌<◌, ◌≡◌, refl, ap, ◌∙◌, sym, ◌↔◌, Bool, true, [], ◌∷◌, arith,
  ltb, ◌==◌, if◌then◌else◌, length, ==_iff,
}
use simple_ldapd.Prelude.Bytes.{Bytes}
use simple_ldapd.Text.Scan.{every}
use simple_ldapd.Password.Base64.{AreBytes}

-- the byte at the start, 0 behind the end
abbrev pub first_byte : Bytes → ℕ
first_byte [] = 0
first_byte (c ∷ s) = c

abbrev pub behind_first : Bytes → Bytes
behind_first [] = []
behind_first (c ∷ s) = s

-- the loop of both functions, from the value of `acc`
unfoldable pub differences : ℕ → ℕ → Bytes → Bytes → ℕ
differences acc zero left right = acc
differences acc (suc size) left right =
    differences (bit_or acc (bit_xor (first_byte left) (first_byte right)) % 256) size
      (behind_first left) (behind_first right)

unfoldable pub constant_time_equal : Bytes → Bytes → ℕ → Bool
unfolding differences
constant_time_equal left right size = differences 0 size left right == 0

unfoldable pub passwords_equal : Bytes → Bytes → Bool
unfolding differences
passwords_equal left right =
    let size = if ltb (length right) (length left) then length left else length right in
    differences (bit_xor (length left) (length right) % 256) size left right == 0

differ_zero : (x y : ℕ) → differ x y ≡ 0 → x ≡ y
differ_zero zero y h = sym h
differ_zero (suc x) zero h = absurd (omega arith)
differ_zero (suc x) (suc y) h = ap suc (differ_zero x y h)

differ_self : (x : ℕ) → differ x x ≡ 0
differ_self zero = refl
differ_self (suc x) = differ_self x

abbrev xor_digits : ℕ → ℕ → ℕ → ℕ
xor_digits n a b = digits (λ b. b) differ n a b

abbrev or_digits : ℕ → ℕ → ℕ → ℕ
or_digits n a b = digits (λ b. b) max n a b

xor_digits_zero : (n x y : ℕ) → x ≤ n → xor_digits n x y ≡ 0 → x ≡ y
xor_digits_zero zero zero y l h = sym h
xor_digits_zero zero (suc x) y l h = absurd (omega arith)
xor_digits_zero (suc n) zero y l h = sym h
xor_digits_zero (suc n) (suc x) y l h =
    let high = xor_digits_zero n (suc x / 2) (y / 2) (omega arith) (omega arith) in
    let low = differ_zero (suc x % 2) (y % 2) (omega arith) in omega arith

xor_digits_self : (n x : ℕ) → x ≤ n → xor_digits n x x ≡ 0
xor_digits_self zero zero l = refl
xor_digits_self zero (suc x) l = absurd (omega arith)
xor_digits_self (suc n) zero l = refl
xor_digits_self (suc n) (suc x) l =
    omega (arith, xor_digits_self n (suc x / 2) (omega arith), differ_self (suc x % 2))

or_digits_zero : (n x y : ℕ) → x ≤ n → or_digits n x y ≡ 0 → (x ≡ 0) × (y ≡ 0)
or_digits_zero zero zero y l h = (refl, h)
or_digits_zero zero (suc x) y l h = absurd (omega arith)
or_digits_zero (suc n) zero y l h = (refl, h)
or_digits_zero (suc n) (suc x) y l h =
    let high = or_digits_zero n (suc x / 2) (y / 2) (omega arith) (omega arith) in
    absurd (omega (arith, high.0))

-- a power of two, to bound the digits
abbrev two_to : ℕ → ℕ
two_to zero = 1
two_to (suc k) = two_to k * 2

differ_lt : (x y : ℕ) → x < 2 → y < 2 → differ x y < 2
differ_lt zero y h k = k
differ_lt (suc x) zero h k = h
differ_lt (suc x) (suc y) h k = differ_lt x y (omega arith) (omega arith)

xor_digits_lt : (n k x y : ℕ) → x < two_to k → y < two_to k → xor_digits n x y < two_to k
xor_digits_lt zero k x y p q = q
xor_digits_lt (suc n) k zero y p q = q
xor_digits_lt (suc n) zero (suc x) y p q = absurd (omega arith)
xor_digits_lt (suc n) (suc k) (suc x) y p q =
    let high = xor_digits_lt n k (suc x / 2) (y / 2) (omega arith) (omega arith) in
    let low = differ_lt (suc x % 2) (y % 2) (omega arith) (omega arith) in omega arith

or_digits_lt : (n k x y : ℕ) → x < two_to k → y < two_to k → or_digits n x y < two_to k
or_digits_lt zero k x y p q = q
or_digits_lt (suc n) k zero y p q = q
or_digits_lt (suc n) zero (suc x) y p q = absurd (omega arith)
or_digits_lt (suc n) (suc k) (suc x) y p q =
    let high = or_digits_lt n k (suc x / 2) (y / 2) (omega arith) (omega arith) in omega arith

-- the laws of the two operations that the comparisons rest on
pub bit_xor_zero : (a b : ℕ) → (bit_xor a b ≡ 0) ↔ (a ≡ b)
bit_xor_zero a b = (
  λ h. xor_digits_zero a a b (omega arith) (omega (arith, bit_xor-bitwise a b)),
  λ h. omega (
    arith,
    ap (λ c. bit_xor a c) (sym h),
    bit_xor-bitwise a a,
    xor_digits_self a a (omega arith),
  ),
)

pub bit_or_zero : (a b : ℕ) → (bit_or a b ≡ 0) ↔ ((a ≡ 0) × (b ≡ 0))
bit_or_zero a b = (
  λ h. or_digits_zero a a b (omega arith) (omega (arith, bit_or-bitwise a b)),
  λ h. omega (arith, h.0, h.1, ap (λ c. bit_or c b) h.0, bit_or-bitwise 0 b),
)

pub bit_xor_lt : (a b : ℕ) → a < 256 → b < 256 → bit_xor a b < 256
bit_xor_lt a b p q = omega (arith, bit_xor-bitwise a b, xor_digits_lt a 8 a b p q)

pub bit_or_lt : (a b : ℕ) → a < 256 → b < 256 → bit_or a b < 256
bit_or_lt a b p q = omega (arith, bit_or-bitwise a b, or_digits_lt a 8 a b p q)

-- the first bytes of a string, with 0 behind its end
abbrev pub padded : ℕ → Bytes → Bytes
padded zero s = []
padded (suc size) s = first_byte s ∷ padded size (behind_first s)

AreBytes-first_byte : (s : Bytes) → AreBytes s → first_byte s < 256
unfolding every
AreBytes-first_byte [] h = omega arith
AreBytes-first_byte (c ∷ s) h = ground arith

AreBytes-behind_first : (s : Bytes) → AreBytes s → AreBytes (behind_first s)
unfolding every
AreBytes-behind_first [] h = refl
AreBytes-behind_first (c ∷ s) h = ground arith

-- nothing differs exactly if the padded strings are equal
differences_zero :
    (size acc : ℕ) (left right : Bytes)
    → acc < 256
    → AreBytes left
    → AreBytes right
    → (differences acc size left right ≡ 0) ↔ ((acc ≡ 0) × (padded size left ≡ padded size right))
unfolding differences
differences_zero zero acc left right l p q = (λ h. (h, refl), λ h. h.0)
differences_zero (suc size) acc left right l p q =
    let x = bit_xor (first_byte left) (first_byte right) in
    let a = AreBytes-first_byte left p in
    let b = AreBytes-first_byte right q in
    let xor_small = bit_xor_lt (first_byte left) (first_byte right) a b in
    let small = bit_or_lt acc x l xor_small in
    let next : bit_or acc x % 256 ≡ bit_or acc x = omega arith in
    let both = bit_or_zero acc x in
    let same = bit_xor_zero (first_byte left) (first_byte right) in
    let behind =
      differences_zero size (bit_or acc x % 256) (behind_first left) (behind_first right)
        (omega arith) (AreBytes-behind_first left p) (AreBytes-behind_first right q) in
    ground (arith, behind, both, same, next)

pub padded-length : (s : Bytes) → padded (length s) s ≡ s
padded-length [] = refl
padded-length (c ∷ s) = ap (λ t. c ∷ t) (padded-length s)

same_of_padded :
    (left right : Bytes)
    → length left ≡ length right
    → padded (length left) left ≡ padded (length left) right
    → left ≡ right
same_of_padded left right e h =
    sym (padded-length left) ∙ h ∙ ap (λ n. padded n right) e ∙ padded-length right

-- The comparison of two passwords of fewer than 256 bytes each holds exactly if they are the same
-- string.
pub passwords_equal_iff :
    (left right : Bytes)
    → AreBytes left
    → AreBytes right
    → length left < 256
    → length right < 256
    → (passwords_equal left right ≡ true) ↔ (left ≡ right)
unfolding passwords_equal
passwords_equal_iff left right p q l r =
    let low = bit_xor_lt (length left) (length right) l r in
    let lengths = bit_xor_zero (length left) (length right) in
    let size = if ltb (length right) (length left) then length left else length right in
    let all =
      differences_zero size (bit_xor (length left) (length right) % 256) left right (omega arith) p
        q in
    let zero_iff =
      ==_iff (differences (bit_xor (length left) (length right) % 256) size left right) 0 in
    (
      λ h.
          let (x, same) = all.0 (zero_iff.0 h) in
          let e = lengths.0 (omega arith) in
          let at : size ≡ length left = ground (arith, e) in
          same_of_padded left right e
            (ap (λ n. padded n left) (sym at) ∙ same ∙ ap (λ n. padded n right) at),
      λ e. let x = lengths.1 (ap length e) in zero_iff.1 (all.1 (omega arith, ap (padded size) e)),
    )

-- A password compares as equal with itself, whatever its length.
pub passwords_equal_refl : (s : Bytes) → AreBytes s → passwords_equal s s ≡ true
unfolding passwords_equal
passwords_equal_refl s p =
    let x = (bit_xor_zero (length s) (length s)).1 refl in
    let size = if ltb (length s) (length s) then length s else length s in
    (==_iff (differences (bit_xor (length s) (length s) % 256) size s s) 0).1 (
      (differences_zero size (bit_xor (length s) (length s) % 256) s s (omega arith) p p).1
        (omega arith, refl))

-- The comparison of two digests of one size holds exactly if they are the same.
pub constant_time_equal_iff :
    (left right : Bytes) (size : ℕ)
    → AreBytes left
    → AreBytes right
    → (constant_time_equal left right size ≡ true) ↔ (padded size left ≡ padded size right)
unfolding constant_time_equal
constant_time_equal_iff left right size p q =
    let zero_iff = ==_iff (differences 0 size left right) 0 in
    let all = differences_zero size 0 left right (omega arith) p q in
    (λ h. (all.0 (zero_iff.0 h)).1, λ h. zero_iff.1 (all.1 (refl, h)))
