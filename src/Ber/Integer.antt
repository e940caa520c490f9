-- ===== src/Ber/Integer.antt =====
-- ber.cpp: the two's complement bytes of an integer.
use native.Mathlib.Nat.{div-div-eq-div-mul, pow-suc}
use simple_ldapd.Prelude.{
  ℕ, zero, suc, ◌+◌, ◌-◌, ◌*◌, ◌/◌, ◌%◌, ◌^◌, ◌≤◌, ◌<◌, ◌≡◌, ◌≢◌, Bool, refl, sym, ap, ◌∙◌, true,
  ◌||◌, ◌&&◌, [], ◌∷◌, arith, ltb, leb, ◌==◌, if◌then◌else◌, length, Bool-cases, inl, inr,
}
use simple_ldapd.Prelude.Bytes.{Bytes}
use simple_ldapd.Text.Scan.{every}
use simple_ldapd.Ber.{integer_bytes, strip_sign, encode_integer}
use simple_ldapd.Ber.Reader.{head_byte, length_value, shift_bytes, decode_integer}

abbrev M : ℕ
M = 2 ^ 64

abbrev seed : ℕ → ℕ
seed a = if ltb a 0x80 then 0 else 2 ^ 64 - 1

seed_step :
    (a b : ℕ)
    → ((a == 0x00 && ltb b 0x80) || (a == 0xff && leb 0x80 b)) ≡ true
    → (seed a * 256 + a) % M ≡ seed b
seed_step a b h = ground arith

-- A first byte that only repeats the sign does not count.
decode-sign :
    (a b : ℕ) (raw : Bytes)
    → ((a == 0x00 && ltb b 0x80) || (a == 0xff && leb 0x80 b)) ≡ true
    → decode_integer (a ∷ b ∷ raw) ≡ decode_integer (b ∷ raw)
unfolding decode_integer shift_bytes
decode-sign a b raw h = ap (λ s. shift_bytes ((s * 256 + b) % M) raw) (seed_step a b h)

pub decode-strip_sign : (raw : Bytes) → decode_integer (strip_sign raw) ≡ decode_integer raw
unfolding strip_sign
decode-strip_sign [] = refl
decode-strip_sign (a ∷ []) = refl
decode-strip_sign (a ∷ b ∷ raw) =
    elim (Bool-cases ((a == 0x00 && ltb b 0x80) || (a == 0xff && leb 0x80 b))) [
      | inl h ↦ rw h (decode-strip_sign (b ∷ raw) ∙ sym (decode-sign a b raw h))
      | inr h ↦ rw h refl
    ]

strip_sign_le :
    (a : ℕ) (raw : Bytes)
    → (0 < length (strip_sign (a ∷ raw))) × (length (strip_sign (a ∷ raw)) ≤ suc (length raw))
unfolding strip_sign
strip_sign_le a [] = omega arith
strip_sign_le a (b ∷ raw) = ground (arith, strip_sign_le b raw)

strip_sign_size :
    (raw : Bytes)
    → length raw ≡ 8
    → 0 < length raw
    → (0 < length (strip_sign raw)) × (length (strip_sign raw) ≤ 8)
strip_sign_size [] e h = absurd (omega arith)
strip_sign_size (a ∷ raw) e h = omega (arith, strip_sign_le a raw)

length-integer_bytes : (n bits : ℕ) → length (integer_bytes n bits) ≡ n
unfolding integer_bytes
length-integer_bytes zero bits = refl
length-integer_bytes (suc n) bits = ap suc (length-integer_bytes n bits)

-- The 64-bit loop is the unbounded one, reduced once.
shift_bytes-length_value :
    (s : ℕ) (bytes : Bytes) → shift_bytes (s % M) bytes ≡ length_value s bytes % M
unfolding shift_bytes length_value
shift_bytes-length_value s [] = refl
shift_bytes-length_value s (b ∷ bytes) =
    let step : (s % M * 256 + b) % M ≡ (s * 256 + b) % M = omega arith in
    rw step (shift_bytes-length_value (s * 256 + b) bytes)

length_value-integer_bytes :
    (n bits : ℕ) → length_value (bits / 256 ^ n) (integer_bytes n bits) ≡ bits
unfolding integer_bytes length_value
length_value-integer_bytes zero bits = omega arith
length_value-integer_bytes (suc n) bits =
    let p : 256 ^ suc n ≡ 256 ^ n * 256 = pow-suc 256 n in
    let q : bits / 256 ^ suc n ≡ bits / 256 ^ n / 256 =
      ap (λ k. bits / k) p ∙ sym (div-div-eq-div-mul bits (256 ^ n) 256) in
    let e : bits / 256 ^ suc n * 256 + bits / 256 ^ n % 256 ≡ bits / 256 ^ n = omega arith in
    ap (λ t. length_value t (integer_bytes n bits)) e ∙ length_value-integer_bytes n bits

eight :
    (s a b c d e f g h : ℕ)
    → length_value s (a ∷ b ∷ c ∷ d ∷ e ∷ f ∷ g ∷ h ∷ [])
      ≡ s * M + length_value 0 (a ∷ b ∷ c ∷ d ∷ e ∷ f ∷ g ∷ h ∷ [])
unfolding length_value
eight s a b c d e f g h = omega arith

eight_bytes :
    (s bits : ℕ)
    → length_value s (integer_bytes 8 bits) ≡ s * M + length_value 0 (integer_bytes 8 bits)
eight_bytes s bits = unfold integer_bytes in eight s _ _ _ _ _ _ _ _

shift_bytes-integer_bytes :
    (s bits : ℕ) → s < M → bits < M → shift_bytes s (integer_bytes 8 bits) ≡ bits
shift_bytes-integer_bytes s bits hs hb =
    let start : s % M ≡ s = omega arith in
    let top : bits / 256 ^ 8 ≡ 0 = omega arith in
    let whole : length_value 0 (integer_bytes 8 bits) ≡ bits =
      ap (λ t. length_value t (integer_bytes 8 bits)) (sym top)
      ∙ length_value-integer_bytes 8 bits in
    let linear = eight_bytes s bits in
    ap (λ t. shift_bytes t (integer_bytes 8 bits)) (sym start)
    ∙ shift_bytes-length_value s (integer_bytes 8 bits)
    ∙ omega (arith, whole, linear)

seed-lt : (a : ℕ) → seed a < M
seed-lt a = ground arith

decode-encode :
    (bits : ℕ)
    → decode_integer (encode_integer bits)
      ≡ shift_bytes (seed (head_byte (integer_bytes 8 bits))) (integer_bytes 8 bits)
decode-encode bits =
    unfold encode_integer in
    decode-strip_sign (integer_bytes 8 bits) ∙ unfold decode_integer in refl

pub decode_integer-encode_integer :
    (bits : ℕ) → bits < 2 ^ 64 → decode_integer (encode_integer bits) ≡ bits
decode_integer-encode_integer bits h =
    decode-encode bits
    ∙ shift_bytes-integer_bytes (seed (head_byte (integer_bytes 8 bits))) bits
        (seed-lt (head_byte (integer_bytes 8 bits))) h

-- An integer takes from one to eight bytes.
pub length-encode_integer :
    (bits : ℕ) → (0 < length (encode_integer bits)) × (length (encode_integer bits) ≤ 8)
length-encode_integer bits =
    let size = length-integer_bytes 8 bits in
    unfold encode_integer in strip_sign_size (integer_bytes 8 bits) size (omega arith)

-- the rule of the encoding: its first nine bits are neither all 0 nor all 1
abbrev pub IsShortest : Bytes → Type 0
IsShortest [] = ⊥
IsShortest (a ∷ []) = Unit
IsShortest (a ∷ b ∷ bytes) = ((a * 256 + b) / 128 ≢ 0) × ((a * 256 + b) / 128 ≢ 511)

abbrev is_byte : ℕ → Bool
is_byte c = ltb c 256

strip_sign-IsShortest :
    (a : ℕ) (raw : Bytes) → every is_byte (a ∷ raw) ≡ true → IsShortest (strip_sign (a ∷ raw))
unfolding strip_sign every
strip_sign-IsShortest a [] h = tt
strip_sign-IsShortest a (b ∷ raw) h =
    elim (Bool-cases ((a == 0x00 && ltb b 0x80) || (a == 0xff && leb 0x80 b))) [
      | inl e ↦ rw e (strip_sign-IsShortest b raw (ground arith))
      | inr e ↦ rw e (ground arith, ground arith)
    ]

every-integer_bytes : (n bits : ℕ) → every is_byte (integer_bytes n bits) ≡ true
unfolding integer_bytes every
every-integer_bytes zero bits = refl
every-integer_bytes (suc n) bits = ground (arith, every-integer_bytes n bits)

encode_integer-IsShortest : (bits : ℕ) → IsShortest (encode_integer bits)
unfolding encode_integer
encode_integer-IsShortest bits =
    let all = every-integer_bytes 8 bits in unfold integer_bytes in strip_sign-IsShortest _ _ all

-- The encoding of a 64-bit pattern decodes to the pattern, and is the shortest one by the rule of
-- BER: it is not empty, and if it has two bytes or more, its first nine bits are neither all 0 nor
-- all 1.
pub encode_integer_lem :
    (bits : ℕ)
    → bits < 2 ^ 64
    → (decode_integer (encode_integer bits) ≡ bits) × IsShortest (encode_integer bits)
encode_integer_lem bits h = (decode_integer-encode_integer bits h, encode_integer-IsShortest bits)
