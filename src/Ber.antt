-- ===== src/Ber.antt =====
-- protocol/ber.hpp and ber.cpp: the writer, and as children the reader and its laws.
pub mod Tags
pub mod Reader
pub mod Loop
pub mod Length
pub mod Integer
pub mod Element
pub mod RoundTrip
use simple_ldapd.Prelude.{
  ℕ, zero, suc, ◌+◌, ◌-◌, ◌*◌, ◌/◌, ◌%◌, ◌^◌, Bool, true, false, ◌&&◌, ◌||◌, List, [], ◌∷◌, ◌++◌,
  ltb, leb, ◌==◌, if◌then◌else◌, length,
}
use simple_ldapd.Prelude.Bytes.{Bytes, is_empty}
use mathlib.Core.List.{reverse}
use Tags.{ber_integer, ber_enumerated, ber_boolean, ber_octet_string, ber_null}

-- The bytes written so far. Each operation returns them with its own bytes behind.
abbrev pub BerWriter : Type 0
BerWriter = Bytes

unfoldable pub write_byte : BerWriter → ℕ → BerWriter
write_byte w value = w ++ (value ∷ [])

unfoldable pub write_bytes : BerWriter → Bytes → BerWriter
write_bytes w bytes = w ++ bytes

-- The loop `while (value > 0)` of `encodeLength`. A `size_t` has 64 bits, so that 8 rounds end it.
unfoldable pub raw_length : ℕ → ℕ → Bytes
raw_length zero value = []
raw_length (suc rounds) value =
    let rest = raw_length rounds (value / 256) in if value == 0 then [] else (value % 256) ∷ rest

abbrev pub size_bytes : ℕ
size_bytes = 8

-- `0x80 | raw.size()` is a sum, since the size is below 128.
unfoldable pub encode_length : ℕ → Bytes
unfolding raw_length
encode_length size =
    if ltb size 128
    then size ∷ []
    else let raw = raw_length size_bytes size in (0x80 + length raw) ∷ reverse raw

unfoldable pub write_tag_length : BerWriter → ℕ → ℕ → BerWriter
unfolding write_byte write_bytes encode_length
write_tag_length w tag size = write_bytes (write_byte w tag) (encode_length size)

-- The eight bytes of the loop over `i`, where `n` is the number of rounds left, so that the shift
-- by 56 - i * 8 bits is the division by 256 ^ (n - 1). An `int64_t` is its bit pattern, a number
-- below 2 ^ 64.
unfoldable pub integer_bytes : ℕ → ℕ → Bytes
integer_bytes zero bits = []
integer_bytes (suc n) bits = (bits / 256 ^ n % 256) ∷ integer_bytes n bits

-- The loop over `start`: a first byte goes while the second has the same sign.
unfoldable pub strip_sign : Bytes → Bytes
strip_sign [] = []
strip_sign (a ∷ []) = a ∷ []
strip_sign (a ∷ b ∷ raw) =
    let rest = strip_sign (b ∷ raw) in
    if (a == 0x00 && ltb b 0x80) || (a == 0xff && leb 0x80 b) then rest else a ∷ b ∷ raw

unfoldable pub encode_integer : ℕ → Bytes
unfolding integer_bytes strip_sign
encode_integer value = strip_sign (integer_bytes 8 value)

unfoldable pub write_integer : BerWriter → ℕ → BerWriter
unfolding write_bytes write_tag_length encode_integer
write_integer w value =
    let encoded = encode_integer value in
    write_bytes (write_tag_length w ber_integer (length encoded)) encoded

-- An `int` is its bit pattern, a number below 2 ^ 32; the cast to `int64_t` extends the sign.
abbrev pub int64_of_int : ℕ → ℕ
int64_of_int value = if ltb value 0x80000000 then value else value + 0xffffffff00000000

unfoldable pub write_enumerated : BerWriter → ℕ → BerWriter
unfolding write_bytes write_tag_length encode_integer
write_enumerated w value =
    let encoded = encode_integer (int64_of_int value) in
    write_bytes (write_tag_length w ber_enumerated (length encoded)) encoded

unfoldable pub write_boolean : BerWriter → Bool → BerWriter
unfolding write_byte write_tag_length
write_boolean w value = write_byte (write_tag_length w ber_boolean 1) (if value then 0xff else 0x00)

-- `writeOctetString(tag, value)`; the test for an empty value saves a copy of nothing
unfoldable pub write_octet_string : BerWriter → ℕ → Bytes → BerWriter
unfolding write_bytes write_tag_length
write_octet_string w tag value =
    let head = write_tag_length w tag (length value) in
    if is_empty value then head else write_bytes head value

unfoldable pub write_null : BerWriter → ℕ → BerWriter
unfolding write_tag_length
write_null w tag = write_tag_length w tag 0

unfoldable pub write_constructed : BerWriter → ℕ → Bytes → BerWriter
unfolding write_bytes write_tag_length
write_constructed w tag inner =
    let head = write_tag_length w tag (length inner) in
    if is_empty inner then head else write_bytes head inner

-- `writeOctetString` with the tag that it has where none is given
abbrev pub write_octets : BerWriter → Bytes → BerWriter
write_octets w value = write_octet_string w ber_octet_string value
