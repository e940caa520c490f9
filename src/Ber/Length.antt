-- ===== src/Ber/Length.antt =====
-- ber.cpp: a length that the writer encodes is the length that the reader decodes.
use mathlib.Core.List.{reverse, reverse-cons}
use simple_ldapd.Prelude.{
  ℕ, zero, suc, ◌+◌, ◌*◌, ◌/◌, ◌%◌, ◌^◌, ◌≤◌, ◌<◌, ◌≡◌, refl, sym, ap, ◌∙◌, some, [], ◌∷◌, ◌++◌,
  arith, ltb, if◌then◌else◌, length, length-append, take-append_of_eq, drop-append_of_eq,
  Bool-cases, inl, inr,
}
use simple_ldapd.Prelude.Bytes.{Bytes}
use simple_ldapd.Ber.{raw_length, size_bytes, encode_length}
use simple_ldapd.Ber.Reader.{
  BerReader, reader, consume, length_value, read_long_length, read_length,
}

-- Reading as many bytes as stand in front returns them.
pub consume-append :
    (n : ℕ) (bytes rest : Bytes)
    → n ≡ length bytes
    → consume n (reader (bytes ++ rest)) ≡ (some bytes, reader rest)
unfolding consume
consume-append n bytes rest e = ground (
  arith,
  e,
  length-append bytes rest,
  take-append_of_eq n bytes rest e,
  drop-append_of_eq n bytes rest e,
)

-- The number has at most `k` bytes.
abbrev Fits : ℕ → ℕ → Type 0
Fits zero value = value ≡ 0
Fits (suc k) value = Fits k (value / 256)

raw_length-zero : (rounds : ℕ) → raw_length rounds 0 ≡ []
unfolding raw_length
raw_length-zero zero = refl
raw_length-zero (suc rounds) = refl

length-raw_length : (k rounds value : ℕ) → Fits k value → length (raw_length rounds value) ≤ k
unfolding raw_length
length-raw_length k zero value f = omega arith
length-raw_length zero (suc rounds) value f = ground arith
length-raw_length (suc k) (suc rounds) value f =
    ground (arith, length-raw_length k rounds (value / 256) f)

-- The value of bytes that come lowest first.
low_first : Bytes → ℕ
low_first [] = 0
low_first (b ∷ raw) = b + 256 * low_first raw

low_first-raw_length :
    (k rounds value : ℕ) → Fits k value → k ≤ rounds → low_first (raw_length rounds value) ≡ value
unfolding raw_length low_first
low_first-raw_length zero rounds value f le = rw (f, raw_length-zero rounds) refl
low_first-raw_length (suc k) zero value f le = absurd (omega arith)
low_first-raw_length (suc k) (suc rounds) value f le =
    ground (arith, low_first-raw_length k rounds (value / 256) f)

pub length_value-append :
    (s : ℕ) (bytes : Bytes) (b : ℕ)
    → length_value s (bytes ++ (b ∷ [])) ≡ length_value s bytes * 256 + b
unfolding length_value
length_value-append s [] b = refl
length_value-append s (x ∷ bytes) b = length_value-append (s * 256 + x) bytes b

length_value-reverse : (raw : Bytes) → length_value 0 (reverse raw) ≡ low_first raw
unfolding length_value low_first
length_value-reverse [] = refl
length_value-reverse (b ∷ raw) =
    rw (reverse-cons, length_value-append 0 (reverse raw) b)
      (omega (arith, length_value-reverse raw))

length-reverse : (raw : Bytes) → length (reverse raw) ≡ length raw
length-reverse [] = refl
length-reverse (b ∷ raw) =
    rw reverse-cons (omega (arith, length-append (reverse raw) (b ∷ []), length-reverse raw))

read_long_length-append :
    (count : ℕ) (bytes rest : Bytes)
    → count ≡ length bytes
    → 0 < count
    → count ≤ 4
    → read_long_length count (reader (bytes ++ rest)) ≡ (some (length_value 0 bytes), reader rest)
read_long_length-append count bytes rest e lo hi =
    let got = consume-append count bytes rest e in unfold read_long_length in ground (arith, got)

read_length-cons :
    (first : ℕ) (bytes : Bytes)
    → read_length (reader (first ∷ bytes)) ≡ (
        if ltb first 0x80
        then (some first, reader bytes)
        else read_long_length (first % 0x80) (reader bytes))
read_length-cons first bytes =
    let got = consume-append 1 (first ∷ []) bytes refl in unfold read_length in ground (arith, got)

low_first-pos : (raw : Bytes) → 0 < low_first raw → 0 < length raw
unfolding low_first
low_first-pos [] h = absurd (omega arith)
low_first-pos (b ∷ raw) h = omega arith

-- A first byte of the long form.
long_head :
    (count : ℕ) (r : BerReader)
    → count ≤ 4
    → (if ltb (0x80 + count) 0x80
        then (some (0x80 + count), record r { rest = r.rest })
        else read_long_length ((0x80 + count) % 0x80) r)
      ≡ read_long_length count r
long_head count r h = let low : (0x80 + count) % 0x80 ≡ count = omega arith in ground (arith, low)

encode_length-long :
    (size : ℕ)
    → 128 ≤ size
    → encode_length size
      ≡ (0x80 + length (raw_length size_bytes size)) ∷ reverse (raw_length size_bytes size)
encode_length-long size lo = unfold encode_length in ground arith

read_length-long :
    (size : ℕ) (rest : Bytes)
    → 128 ≤ size
    → size < 2 ^ 32
    → read_length (reader (encode_length size ++ rest)) ≡ (some size, reader rest)
read_length-long size rest lo hi =
    let raw = raw_length size_bytes size in
    let four : Fits 4 size = omega arith in
    let count : length raw ≤ 4 = length-raw_length 4 size_bytes size four in
    let value : low_first raw ≡ size = low_first-raw_length 4 size_bytes size four (omega arith) in
    let some_byte : 0 < length raw = low_first-pos raw (omega arith) in
    let got =
      read_long_length-append (length raw) (reverse raw) rest (sym (length-reverse raw)) some_byte
        count in
    rw (encode_length-long size lo) (
      read_length-cons (0x80 + length raw) (reverse raw ++ rest)
      ∙ long_head (length raw) (reader (reverse raw ++ rest)) count
      ∙ got
      ∙ ap (λ v. (some v, reader rest)) (length_value-reverse raw ∙ value))

-- A length below 2 ^ 32 is read back, whatever follows it.
pub read_length-encode_length :
    (size : ℕ) (rest : Bytes)
    → size < 2 ^ 32
    → read_length (reader (encode_length size ++ rest)) ≡ (some size, reader rest)
read_length-encode_length size rest hi = elim (Bool-cases (ltb size 128)) [
  | inl short ↦ unfold read_length encode_length in ground (arith, short)
  | inr long ↦ read_length-long size rest (ground arith) hi
]
