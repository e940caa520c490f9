-- ===== src/Password/Base64.antt =====
-- auth/password.cpp: base 64, and its round trip.
use simple_ldapd.Prelude.{
  ℕ, zero, suc, ◌+◌, ◌-◌, ◌*◌, ◌/◌, ◌%◌, ◌^◌, ◌≤◌, ◌<◌, ◌≡◌, refl, ap, ◌∙◌, Bool, Bool-cases, inl,
  inr, true, false, not, ◌&&◌, ◌||◌, Option, none, some, [], ◌∷◌, arith, ltb, leb, ◌==◌,
  if◌then◌else◌,
}
use simple_ldapd.Prelude.Bytes.{Bytes, codes}
use simple_ldapd.Dn.{char_at}
use simple_ldapd.Text.Scan.{every}

abbrev table : Bytes
table = codes "ABCDEFGHIJKLMNOPQRSTUVWXYZabcdefghijklmnopqrstuvwxyz0123456789+/"

-- `kTable[digit & 63]`
unfoldable pub base64_char : ℕ → ℕ
base64_char digit = char_at table (digit % 64)

-- three bytes side by side: `n`, whose parts do not overlap
abbrev joined : ℕ → ℕ → ℕ → ℕ
joined a b c = a * 65536 + b * 256 + c

-- `base64Encode`, one round of the loop to a clause
unfoldable pub base64_encode : Bytes → Bytes
unfolding base64_char
base64_encode [] = []
base64_encode (a ∷ []) =
    let n = joined a 0 0 in base64_char (n / 262144) ∷ base64_char (n / 4096) ∷ b'=' ∷ b'=' ∷ []
base64_encode (a ∷ b ∷ []) =
    let n = joined a b 0 in
    base64_char (n / 262144) ∷ base64_char (n / 4096) ∷ base64_char (n / 64) ∷ b'=' ∷ []
base64_encode (a ∷ b ∷ c ∷ bytes) =
    let n = joined a b c in
    base64_char (n / 262144)
    ∷ base64_char (n / 4096)
    ∷ base64_char (n / 64)
    ∷ base64_char n
    ∷ base64_encode bytes

-- `none` is -1
unfoldable pub base64_value : ℕ → Option ℕ
base64_value ch =
    if leb b'A' ch && leb ch b'Z'
    then some (ch - b'A')
    else if leb b'a' ch && leb ch b'z'
    then some (ch - b'a' + 26)
    else if leb b'0' ch && leb ch b'9'
    then some (ch - b'0' + 52)
    else if ch == b'+'
    then some 62
    else if ch == b'/'
    then some 63
    else none

abbrev is_skipped : ℕ → Bool
is_skipped ch = ch == b'=' || (ch == b'\n' || (ch == b'\r' || ch == b' '))

abbrev prepend : ℕ → Option Bytes → Option Bytes
prepend byte none = none
prepend byte (some out) = some (byte ∷ out)

-- The loop of `base64Decode`. `val` is the bit pattern of the `int`, on which the shift wraps;
-- `bits` is 8 more than the source's. `none` is the early return.
unfoldable pub decode_loop : ℕ → ℕ → Bytes → Option Bytes
unfolding base64_value
decode_loop val bits [] = some []
decode_loop val bits (ch ∷ text) = elim (is_skipped ch) [
  | true ↦ decode_loop val bits text
  | false ↦ elim (base64_value ch) [
    | none ↦ none
    | some digit ↦ elim (leb 8 (bits + 6)) [
      | true ↦
          prepend (((val * 64 + digit) % 2 ^ 32) / 2 ^ (bits - 2) % 256)
            (decode_loop ((val * 64 + digit) % 2 ^ 32) (bits - 2) text)
      | false ↦ decode_loop ((val * 64 + digit) % 2 ^ 32) (bits + 6) text
    ]
  ]
]

abbrev or_empty : Option Bytes → Bytes
or_empty none = []
or_empty (some out) = out

unfoldable pub base64_decode : Bytes → Bytes
unfolding decode_loop
base64_decode text = or_empty (decode_loop 0 0 text)

-- the characters of `unsigned char`
abbrev pub AreBytes : Bytes → Type 0
AreBytes s = every (λ c. ltb c 256) s ≡ true

-- every digit of the table is read back, and none of them is skipped
digits_pass : (ℕ → Bool) → ℕ → Bool
digits_pass test zero = true
digits_pass test (suc top) = if test top then digits_pass test top else false

digits_pass_at :
    (test : ℕ → Bool) (top d : ℕ) → d < top → digits_pass test top ≡ true → test d ≡ true
unfolding digits_pass
digits_pass_at test zero d low pass = absurd (omega arith)
digits_pass_at test (suc top) d low pass = elim (Bool-cases (test top)) [
  | inl passes ↦ ground (arith, passes, digits_pass_at test top d)
  | inr fails ↦ absurd (ground (arith, fails, pass))
]

abbrev is_value : ℕ → Option ℕ → Bool
is_value d none = false
is_value d (some v) = v == d

is_value_sound : (d : ℕ) (v : Option ℕ) → is_value d v ≡ true → v ≡ some d
is_value_sound d none h = cc
is_value_sound d (some v) h = ap some (ground arith)

read_back : ℕ → Bool
unfolding base64_value base64_char
read_back d = is_value d (base64_value (base64_char d))

not_skipped : ℕ → Bool
unfolding base64_char
not_skipped d = not (is_skipped (base64_char d))

digit_back : (d : ℕ) → d < 64 → base64_value (base64_char d) ≡ some d
unfolding read_back
digit_back d h =
    let table_back : digits_pass read_back 64 ≡ true =
      unfold digits_pass read_back base64_value base64_char in refl in
    is_value_sound d (base64_value (base64_char d)) (digits_pass_at read_back 64 d h table_back)

digit_kept : (d : ℕ) → d < 64 → is_skipped (base64_char d) ≡ false
unfolding not_skipped
digit_kept d h =
    let table_kept : digits_pass not_skipped 64 ≡ true =
      unfold digits_pass not_skipped base64_char in refl in
    let kept = digits_pass_at not_skipped 64 d h table_kept in ground (arith, kept)

-- one digit of the text
decode_wait :
    (val bits digit : ℕ) (text : Bytes)
    → digit < 64
    → bits < 2
    → decode_loop val bits (base64_char digit ∷ text)
      ≡ decode_loop ((val * 64 + digit) % 2 ^ 32) (bits + 6) text
unfolding decode_loop
decode_wait val bits digit text h l = ground (arith, digit_back digit h, digit_kept digit h)

decode_push :
    (val bits digit : ℕ) (text : Bytes)
    → digit < 64
    → 2 ≤ bits
    → decode_loop val bits (base64_char digit ∷ text)
      ≡ prepend
          (((val * 64 + digit) % 2 ^ 32) / 2 ^ (bits - 2) % 256)
          (decode_loop ((val * 64 + digit) % 2 ^ 32) (bits - 2) text)
unfolding decode_loop
decode_push val bits digit text h l = ground (arith, digit_back digit h, digit_kept digit h)

-- the value of the `int` behind one more digit
abbrev shifted : ℕ → ℕ → ℕ
shifted val digit = (val * 64 + digit) % 2 ^ 32

decode_two :
    (val a b : ℕ) (text : Bytes)
    → a < 64
    → b < 64
    → decode_loop val 0 (base64_char a ∷ base64_char b ∷ text)
      ≡ prepend (a * 4 + b / 16) (decode_loop (shifted (shifted val a) b) 4 text)
decode_two val a b text p q =
    let byte : shifted (shifted val a) b / 2 ^ 4 % 256 ≡ a * 4 + b / 16 = omega arith in
    decode_wait val 0 a (base64_char b ∷ text) p (omega arith)
    ∙ decode_push (shifted val a) 6 b text q (omega arith)
    ∙ ap (λ c. prepend c (decode_loop (shifted (shifted val a) b) 4 text)) byte

-- a group of three bytes, and the two shorter ends
decode_three :
    (val a b c : ℕ) (text : Bytes)
    → a < 64
    → b < 64
    → c < 64
    → decode_loop val 0 (base64_char a ∷ base64_char b ∷ base64_char c ∷ text)
      ≡ prepend (a * 4 + b / 16) (
          prepend
            (b % 16 * 16 + c / 4)
            (decode_loop (shifted (shifted (shifted val a) b) c) 2 text))
decode_three val a b c text p q r =
    let byte : shifted (shifted (shifted val a) b) c / 2 ^ 2 % 256 ≡ b % 16 * 16 + c / 4 =
      omega arith in
    decode_two val a b (base64_char c ∷ text) p q
    ∙ ap (prepend (a * 4 + b / 16)) (
        decode_push (shifted (shifted val a) b) 4 c text r (omega arith)
        ∙ ap (λ d. prepend d (decode_loop (shifted (shifted (shifted val a) b) c) 2 text)) byte)

decode_four :
    (val a b c d : ℕ) (text : Bytes)
    → a < 64
    → b < 64
    → c < 64
    → d < 64
    → decode_loop val 0 (base64_char a ∷ base64_char b ∷ base64_char c ∷ base64_char d ∷ text)
      ≡ prepend (a * 4 + b / 16) (
          prepend (b % 16 * 16 + c / 4) (
            prepend
              (c % 4 * 64 + d)
              (decode_loop (shifted (shifted (shifted (shifted val a) b) c) d) 0 text)))
decode_four val a b c d text p q r s =
    let byte : shifted (shifted (shifted (shifted val a) b) c) d / 2 ^ 0 % 256 ≡ c % 4 * 64 + d =
      omega arith in
    decode_three val a b c (base64_char d ∷ text) p q r
    ∙ ap (λ t. prepend (a * 4 + b / 16) (prepend (b % 16 * 16 + c / 4) t))
        (decode_push (shifted (shifted (shifted val a) b) c) 2 d text s (omega arith)
          ∙ ap
              (λ e.
                prepend e (decode_loop (shifted (shifted (shifted (shifted val a) b) c) d) 0 text))
              byte)

base64_char-mod : (d : ℕ) → base64_char d ≡ base64_char (d % 64)
unfolding base64_char
base64_char-mod d = let e : d % 64 ≡ d % 64 % 64 = omega arith in ap (char_at table) e

decode_end : (val bits : ℕ) → decode_loop val bits (codes "==") ≡ some []
unfolding decode_loop
decode_end val bits = refl

decode_end_one : (val bits : ℕ) → decode_loop val bits (codes "=") ≡ some []
unfolding decode_loop
decode_end_one val bits = refl

cons3_eq :
    (a b c a' b' c' : ℕ) (s : Bytes) → a ≡ a' → b ≡ b' → c ≡ c' → a ∷ b ∷ c ∷ s ≡ a' ∷ b' ∷ c' ∷ s
cons3_eq a b c a' b' c' s p q r = rw (p, q, r) refl

decode_loop-base64_encode :
    (val : ℕ) (bytes : Bytes)
    → AreBytes bytes
    → decode_loop val 0 (base64_encode bytes) ≡ some bytes
unfolding base64_encode every
decode_loop-base64_encode val [] h = unfold decode_loop in refl
decode_loop-base64_encode val (a ∷ []) h =
    let small : a < 256 = ground arith in
    let n = joined a 0 0 in
    let byte : n / 262144 * 4 + n / 4096 % 64 / 16 ≡ a = omega arith in
    rw (base64_char-mod (n / 4096)) (
      decode_two val (n / 262144) (n / 4096 % 64) (codes "==") (omega arith) (omega arith)
      ∙ ap (prepend (n / 262144 * 4 + n / 4096 % 64 / 16)) (decode_end _ 4)
      ∙ ap (λ c. some (c ∷ [])) byte)
decode_loop-base64_encode val (a ∷ b ∷ []) h =
    let small : a < 256 = ground arith in
    let small' : b < 256 = ground arith in
    let n = joined a b 0 in
    let first : n / 262144 * 4 + n / 4096 % 64 / 16 ≡ a = omega arith in
    let second : n / 4096 % 64 % 16 * 16 + n / 64 % 64 / 4 ≡ b = omega arith in
    rw (base64_char-mod (n / 4096), base64_char-mod (n / 64))
      (decode_three val (n / 262144) (n / 4096 % 64) (n / 64 % 64) (codes "=") (omega arith)
          (omega arith) (omega arith)
        ∙ ap
            (λ t.
              prepend (n / 262144 * 4 + n / 4096 % 64 / 16)
                (prepend (n / 4096 % 64 % 16 * 16 + n / 64 % 64 / 4) t))
            (decode_end_one _ 2)
        ∙ ap (λ c. some (c ∷ (n / 4096 % 64 % 16 * 16 + n / 64 % 64 / 4) ∷ [])) first
        ∙ ap (λ c. some (a ∷ c ∷ [])) second)
decode_loop-base64_encode val (a ∷ b ∷ c ∷ bytes) h =
    let small : a < 256 = ground arith in
    let small' : b < 256 = ground arith in
    let small'' : c < 256 = ground arith in
    let n = joined a b c in
    let first : n / 262144 * 4 + n / 4096 % 64 / 16 ≡ a = omega arith in
    let second : n / 4096 % 64 % 16 * 16 + n / 64 % 64 / 4 ≡ b = omega arith in
    let third : n / 64 % 64 % 4 * 64 + n % 64 ≡ c = omega arith in
    let rest = λ (v : ℕ). decode_loop-base64_encode v bytes (ground arith) in
    rw (base64_char-mod (n / 4096), base64_char-mod (n / 64), base64_char-mod n)
      (decode_four val (n / 262144) (n / 4096 % 64) (n / 64 % 64) (n % 64) (base64_encode bytes)
          (omega arith) (omega arith) (omega arith) (omega arith)
        ∙ ap
            (λ t. prepend (n / 262144 * 4 + n / 4096 % 64 / 16) (
              prepend (n / 4096 % 64 % 16 * 16 + n / 64 % 64 / 4)
                (prepend (n / 64 % 64 % 4 * 64 + n % 64) t)))
            (rest _)
        ∙ ap some (cons3_eq _ _ _ a b c bytes first second third))

-- Base 64 of any bytes is decoded to the same bytes.
pub base64_decode-base64_encode :
    (bytes : Bytes) → AreBytes bytes → base64_decode (base64_encode bytes) ≡ bytes
unfolding base64_decode
base64_decode-base64_encode bytes h = ap or_empty (decode_loop-base64_encode 0 bytes h)
