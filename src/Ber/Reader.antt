-- ===== src/Ber/Reader.antt =====
-- ber.cpp: the reader. The state is the bytes from `offset_` on and `ok_`. A read returns `none` for
-- `false`, with the state that it leaves. No reader is read before its bytes are set, so the null
-- pointer is not modelled; `offset_ + n` does not pass 2 ^ 64, since a length has 32 bits.
use simple_ldapd.Prelude.{
  ℕ, ◌+◌, ◌-◌, ◌*◌, ◌%◌, ◌^◌, Bool, true, false, not, ◌&&◌, ◌||◌, Option, none, some, [], ◌∷◌, ltb,
  leb, ◌==◌, if◌then◌else◌, length, take, drop,
}
use simple_ldapd.Prelude.Bytes.{Bytes}
use simple_ldapd.Ber.Tags.{ber_integer, ber_enumerated, ber_boolean, ber_octet_string}

pub record BerReader : Type 0 where
  pub rest : Bytes
  pub ok : Bool

-- `BerReader(data)`
abbrev pub reader : Bytes → BerReader
reader bytes = record { rest = bytes; ok = true }

abbrev pub Read : Type 0 → Type 0
Read A = BerReader → Option A × BerReader

abbrev pub continue : {A B : Type 0} → Option A × BerReader → (A → Read B) → Option B × BerReader
continue (some a, r) f = f a r
continue (none, r) f = (none, r)

infixl 5 ◌>>=◌ ◌>>◌
abbrev pub ◌>>=◌ : {A B : Type 0} → Read A → (A → Read B) → Read B
◌>>=◌ m f r = continue (m r) f

abbrev pub ◌>>◌ : {A B : Type 0} → Read A → Read B → Read B
m >> n = m >>= λ _. n

abbrev pub pure : {A : Type 0} → A → Read A
pure a r = (some a, r)

-- `return false`
abbrev pub fail : {A : Type 0} → Read A
fail r = (none, r)

-- `ok_ = false; return false;`
abbrev pub reject : {A : Type 0} → Read A
reject r = (none, record r { ok = false })

abbrev pub check : Bool → Read (Unit {0})
check true = pure tt
check false = reject

unfoldable pub at_end : BerReader → Bool
at_end r = not r.ok || leb (length r.rest) 0

-- `peekTag`, which is 0 at the end
unfoldable pub peek_tag : BerReader → ℕ
peek_tag r = if r.ok then (elim r.rest [ [] ↦ 0 | b ∷ _ ↦ b ]) else 0

-- `consume`, with the bytes that `ptr` points to
unfoldable pub consume : ℕ → Read Bytes
consume n r =
    if not r.ok || ltb (length r.rest) n
    then (none, record r { ok = false })
    else (some (take n r.rest), record r { rest = drop n r.rest })

-- one byte, `ptr[0]`
abbrev pub head_byte : Bytes → ℕ
head_byte [] = 0
head_byte (b ∷ bytes) = b

-- the loop over `ptr[i]`; a `size_t` holds four bytes
unfoldable pub length_value : ℕ → Bytes → ℕ
length_value size [] = size
length_value size (b ∷ bytes) = length_value (size * 256 + b) bytes

-- `first & 0x80` tells bytes below 128 from the others, and `first & 0x7f` is the remainder.
unfoldable pub read_long_length : ℕ → Read ℕ
unfolding consume length_value
read_long_length count =
    if count == 0 || ltb 4 count
    then reject
    else do bytes ← consume count; pure (length_value 0 bytes)

unfoldable pub read_length : Read ℕ
unfolding consume length_value read_long_length
read_length = do
  ptr ← consume 1
  let first = head_byte ptr
  if ltb first 0x80 then pure first else read_long_length (first % 0x80)

unfoldable pub read_tag_length : Read (ℕ × ℕ)
unfolding consume read_length
read_tag_length = do ptr ← consume 1; size ← read_length; pure (head_byte ptr, size)

-- the test after a header: a failed `readTagLength` and a wrong tag both reject
abbrev pub or_reject : {A : Type 0} → Option A × BerReader → Option A × BerReader
or_reject (some a, r) = (some a, r)
or_reject (none, r) = (none, record r { ok = false })

abbrev pub expect : ℕ → (ℕ → Bool) → Read ℕ
expect tag fits r = or_reject (
    (do (actual, size) ← read_tag_length; if actual == tag && fits size then pure size else reject)
      r)

-- the reader over the contents is the result
unfoldable pub read_constructed : ℕ → Read BerReader
unfolding read_tag_length
read_constructed tag = do
  size ← expect tag (λ size. true)
  (λ r.
      if ltb (length r.rest) size
      then (none, record r { ok = false })
      else (some (reader (take size r.rest)), record r { rest = drop size r.rest }))

-- the loop `bits = (bits << 8) | ptr[i]` in 64 bits
unfoldable pub shift_bytes : ℕ → Bytes → ℕ
shift_bytes bits [] = bits
shift_bytes bits (b ∷ bytes) = shift_bytes ((bits * 256 + b) % 2 ^ 64) bytes

unfoldable pub decode_integer : Bytes → ℕ
unfolding shift_bytes
decode_integer bytes = shift_bytes (if ltb (head_byte bytes) 0x80 then 0 else 2 ^ 64 - 1) bytes

-- the test `length == 0 || length > 8`, negated
abbrev pub integer_size : ℕ → Bool
integer_size size = ltb 0 size && leb size 8

unfoldable pub read_integer : Read ℕ
unfolding read_tag_length consume decode_integer
read_integer = do
  size ← expect ber_integer integer_size
  bytes ← consume size
  pure (decode_integer bytes)

-- The cast to `int` keeps the low 32 bits.
unfoldable pub read_enumerated : Read ℕ
unfolding read_tag_length consume shift_bytes
read_enumerated = do
  size ← expect ber_enumerated integer_size
  bytes ← consume size
  pure (shift_bytes 0 bytes % 2 ^ 32)

unfoldable pub read_boolean : Read Bool
unfolding read_tag_length consume
read_boolean = do
  size ← expect ber_boolean (λ size. size == 1)
  bytes ← consume size
  pure (not (head_byte bytes == 0))

unfoldable pub read_octet_string : ℕ → Read Bytes
unfolding read_tag_length consume
read_octet_string tag = do
  size ← expect tag (λ size. true)
  if size == 0 then pure [] else consume size

unfoldable pub skip : Read (Unit {0})
unfolding read_tag_length consume
skip = do (tag, size) ← read_tag_length; consume size; pure tt

-- A read from a reader of its own leaves the outer reader alone.
abbrev pub within : {A : Type 0} → BerReader → Read A → Read A
within inner m r = ((m inner).0, r)

-- `return reader.ok()`
abbrev pub check_ok : Read (Unit {0})
check_ok r = if r.ok then (some tt, r) else (none, r)

-- a reader over the contents, and its `ok()` at the end
abbrev pub inside : {A : Type 0} → ℕ → Read A → Read A
inside tag body = do inner ← read_constructed tag; within inner (do a ← body; check_ok; pure a)

-- a reader over the contents, whose `ok()` is not asked for
abbrev pub over : {A : Type 0} → ℕ → Read A → Read A
over tag body = do inner ← read_constructed tag; within inner body

-- `readOctetString` with the tag that it has where none is given
abbrev pub read_octets : Read Bytes
read_octets = read_octet_string ber_octet_string
