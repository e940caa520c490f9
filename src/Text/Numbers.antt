-- ===== src/Text/Numbers.antt =====
-- `std::strtol` on a whole string, and `std::to_string`.
use simple_ldapd.Prelude.{
  ℕ, zero, suc, ◌+◌, ◌-◌, ◌*◌, ◌/◌, ◌%◌, ◌<◌, ◌≡◌, refl, ap, ◌∙◌, Bool, true, false, not, ◌&&◌,
  ◌||◌, Option, none, some, [], ◌∷◌, ◌++◌, arith, ltb, leb, ◌==◌, if◌then◌else◌,
}
use simple_ldapd.Prelude.Bytes.{Bytes, is_empty}
use simple_ldapd.Text.{is_space, drop_while, take_until}
use simple_ldapd.Text.Scan.{every, every-append, every-weaken, take_until-Free, drop_while-Free}

abbrev pub is_digit : ℕ → Bool
is_digit c = leb b'0' c && leb c b'9'

abbrev pub number_of : ℕ → Bytes → ℕ
number_of value [] = value
number_of value (c ∷ text) = number_of (value * 10 + (c - b'0')) text

-- the largest `long` of 64 bits, to which `strtol` cuts a number
abbrev pub long_max : ℕ
long_max = 9223372036854775807

abbrev pub clamp : ℕ → ℕ
clamp value = if leb value long_max then value else long_max

-- digits up to the end of the string; the sign makes a number other than 0 negative
unfoldable pub unsigned_number : Bool → Bytes → Option ℕ
unfolding every
unsigned_number negative text =
    if is_empty text || not (every is_digit text)
    then none
    else if negative && not (number_of 0 text == 0)
    then none
    else some (clamp (number_of 0 text))

unfoldable pub signed_number : Bytes → Option ℕ
unfolding unsigned_number
signed_number [] = none
signed_number (c ∷ text) =
    if c == b'-'
    then unsigned_number true text
    else if c == b'+'
    then unsigned_number false text
    else unsigned_number false (c ∷ text)

-- `strtol(text.c_str(), &end, 10)`, if it reads something, reads to the end of the C string, and is
-- not negative
unfoldable pub whole_number : Bytes → Option ℕ
unfolding signed_number take_until drop_while is_space
whole_number text = signed_number (drop_while is_space (take_until (λ c. c == 0) text))

-- `std::to_string` of a number of at most so many digits
unfoldable pub decimal_digits : ℕ → ℕ → Bytes
decimal_digits zero n = []
decimal_digits (suc fuel) n =
    let front = decimal_digits fuel (n / 10) in
    (if ltb n 10 then [] else front) ++ ((b'0' + n % 10) ∷ [])

-- of an `int` that is not negative: at most ten digits
unfoldable pub decimal : ℕ → Bytes
unfolding decimal_digits
decimal n = decimal_digits 10 n

number_of-append :
    (value : ℕ) (s : Bytes) (c : ℕ)
    → number_of value (s ++ (c ∷ [])) ≡ number_of value s * 10 + (c - b'0')
number_of-append value [] c = refl
number_of-append value (x ∷ s) c = number_of-append (value * 10 + (x - b'0')) s c

abbrev power_of_ten : ℕ → ℕ
power_of_ten zero = 1
power_of_ten (suc k) = power_of_ten k * 10

number_of-decimal_digits :
    (fuel n : ℕ) → n < power_of_ten fuel → number_of 0 (decimal_digits fuel n) ≡ n
unfolding decimal_digits
number_of-decimal_digits zero n h = omega arith
number_of-decimal_digits (suc fuel) n h = ground (
  arith,
  number_of-append 0 (decimal_digits fuel (n / 10)) (b'0' + n % 10),
  number_of-decimal_digits fuel (n / 10),
)

every-decimal_digits : (fuel n : ℕ) → every is_digit (decimal_digits fuel n) ≡ true
unfolding decimal_digits every
every-decimal_digits zero n = refl
every-decimal_digits (suc fuel) n =
    let last : every is_digit ((b'0' + n % 10) ∷ []) ≡ true = ground arith in
    ground (
      arith,
      last,
      every-append is_digit (decimal_digits fuel (n / 10)) ((b'0' + n % 10) ∷ [])
          (every-decimal_digits fuel (n / 10)) last,
    )

is_empty-append : (s : Bytes) (c : ℕ) → is_empty (s ++ (c ∷ [])) ≡ false
is_empty-append [] c = refl
is_empty-append (x ∷ s) c = refl

decimal_digits-is_empty : (fuel n : ℕ) → is_empty (decimal_digits (suc fuel) n) ≡ false
unfolding decimal_digits
decimal_digits-is_empty fuel n =
    is_empty-append (if ltb n 10 then [] else decimal_digits fuel (n / 10)) (b'0' + n % 10)

-- a string of digits has a value, cut at the largest `long`
pub whole_number-digits :
    (s : Bytes)
    → every is_digit s ≡ true
    → is_empty s ≡ false
    → whole_number s ≡ some (clamp (number_of 0 s))
unfolding whole_number signed_number unsigned_number every
whole_number-digits [] h k = cc
whole_number-digits (c ∷ s) h k =
    let whole =
      take_until-Free (λ c. c == 0) (c ∷ s)
        (every-weaken is_digit (λ c. not (c == 0)) (c ∷ s) (λ c. ground arith) h) in
    let start : drop_while is_space (c ∷ s) ≡ c ∷ s =
      drop_while-Free is_space (c ∷ s)
        (every-weaken is_digit (λ c. not (is_space c)) (c ∷ s) (λ c. ground arith) h) in
    ground (arith, whole, start, h)

-- A number below 2 ^ 31 that is written in decimal digits is read back.
pub whole_number-decimal : (n : ℕ) → n < 2147483648 → whole_number (decimal n) ≡ some n
unfolding decimal
whole_number-decimal n h =
    let value = number_of-decimal_digits 10 n (omega arith) in
    whole_number-digits (decimal_digits 10 n) (every-decimal_digits 10 n)
      (decimal_digits-is_empty 9 n)
    ∙ ap (λ v. some (clamp v)) value
    ∙ ground arith
