-- ===== src/Ber/RoundTrip.antt =====
-- ber.cpp: what the writer writes, the reader reads.
use simple_ldapd.Prelude.{
  ℕ, ◌^◌, ◌<◌, ◌≡◌, refl, sym, ap, ◌∙◌, Bool, true, false, not, Option, some, [], ◌∷◌, ◌++◌, arith,
  ◌==◌, ==_refl, ==_suc, if◌then◌else◌, length, append_assoc, append-nil, length-append,
  take-append_of_eq, drop-append_of_eq,
}
use simple_ldapd.Prelude.Bytes.{Bytes}
use simple_ldapd.Ber.Tags.{ber_integer, ber_boolean}
use simple_ldapd.Ber.{encode_length, encode_integer}
use simple_ldapd.Ber.Reader.{
  BerReader, reader, Read, continue, consume, read_tag_length, expect, integer_size,
  read_constructed, read_integer, read_boolean, read_octet_string, skip, peek_tag, inside, over,
  at_end,
}
use simple_ldapd.Ber.Length.{consume-append, read_length-encode_length}
use simple_ldapd.Ber.Integer.{decode_integer-encode_integer, length-encode_integer}
use simple_ldapd.Ber.Element.{element, boolean_byte}

read_tag_length-element :
    (tag : ℕ) (contents rest : Bytes)
    → length contents < 2 ^ 32
    → read_tag_length (reader (element tag contents ++ rest))
      ≡ (some (tag, length contents), reader (contents ++ rest))
read_tag_length-element tag contents rest h =
    let size = encode_length (length contents) in
    let first = consume-append 1 (tag ∷ []) (size ++ (contents ++ rest)) refl in
    let second = read_length-encode_length (length contents) (contents ++ rest) h in
    unfold element read_tag_length in rw append_assoc (rw (first, second) refl)

pub expect-element :
    (tag : ℕ) (fits : ℕ → Bool) (contents rest : Bytes)
    → length contents < 2 ^ 32
    → fits (length contents) ≡ true
    → expect tag fits (reader (element tag contents ++ rest))
      ≡ (some (length contents), reader (contents ++ rest))
expect-element tag fits contents rest h ok =
    rw (read_tag_length-element tag contents rest h, ==_refl tag, ok) refl

octet_body :
    (value rest : Bytes)
    → consume (length value) (reader (value ++ rest)) ≡ (some value, reader rest)
    → continue
        (some (length value), reader (value ++ rest))
        (λ size. if size == 0 then (λ r. (some [], r)) else consume size)
      ≡ (some value, reader rest)
octet_body [] rest h = refl
octet_body (c ∷ value) rest h = rw (==_suc (length value)) h

boolean_back :
    (value : Bool) (rest : Bytes)
    → ◌≡◌ {A = Option Bool × BerReader}
        (some (not (boolean_byte value == 0)), reader rest)
        (some value, reader rest)
boolean_back true rest = refl
boolean_back false rest = refl

-- An octet string is read back, whatever its bytes and whatever follows.
pub read_octet_string-element :
    (tag : ℕ) (value rest : Bytes)
    → length value < 2 ^ 32
    → read_octet_string tag (reader (element tag value ++ rest)) ≡ (some value, reader rest)
read_octet_string-element tag value rest h =
    let head = expect-element tag (λ size. true) value rest h refl in
    let body = consume-append (length value) value rest refl in
    unfold read_octet_string in rw head (octet_body value rest body)

-- A constructed element gives a reader over its contents.
pub read_constructed-element :
    (tag : ℕ) (inner rest : Bytes)
    → length inner < 2 ^ 32
    → read_constructed tag (reader (element tag inner ++ rest)) ≡ (some (reader inner), reader rest)
read_constructed-element tag inner rest h =
    let head = expect-element tag (λ size. true) inner rest h refl in
    unfold read_constructed in
    rw head (
      ground (
        arith,
        length-append inner rest,
        take-append_of_eq (length inner) inner rest refl,
        drop-append_of_eq (length inner) inner rest refl,
      ))

-- A 64-bit integer is read back.
pub read_integer-element :
    (value : ℕ) (rest : Bytes)
    → value < 2 ^ 64
    → read_integer (reader (element ber_integer (encode_integer value) ++ rest))
      ≡ (some value, reader rest)
read_integer-element value rest h =
    let (lo, hi) = length-encode_integer value in
    let bytes = encode_integer value in
    let head = expect-element ber_integer integer_size bytes rest (omega arith) (ground arith) in
    let body = consume-append (length bytes) bytes rest refl in
    unfold read_integer in
    rw (head, body) (ap (λ v. (some v, reader rest)) (decode_integer-encode_integer value h))

pub read_boolean-element :
    (value : Bool) (rest : Bytes)
    → read_boolean (reader (element ber_boolean (boolean_byte value ∷ []) ++ rest))
      ≡ (some value, reader rest)
read_boolean-element value rest =
    let head =
      expect-element ber_boolean (λ size. size == 1) (boolean_byte value ∷ []) rest (omega arith)
        refl in
    let body = consume-append 1 (boolean_byte value ∷ []) rest refl in
    unfold read_boolean in rw (head, body) (boolean_back value rest)

pub skip-element :
    (tag : ℕ) (contents rest : Bytes)
    → length contents < 2 ^ 32
    → skip (reader (element tag contents ++ rest)) ≡ (some tt, reader rest)
skip-element tag contents rest h =
    let head = read_tag_length-element tag contents rest h in
    let body = consume-append (length contents) contents rest refl in
    unfold skip in rw (head, body) refl

pub peek_tag-element :
    (tag : ℕ) (contents rest : Bytes) → peek_tag (reader (element tag contents ++ rest)) ≡ tag
unfolding peek_tag element
peek_tag-element tag contents rest = refl

pub at_end-element :
    (tag : ℕ) (contents rest : Bytes) → at_end (reader (element tag contents ++ rest)) ≡ false
unfolding at_end element
at_end-element tag contents rest = ground arith

-- An element is longer than its contents.
pub length-element : (tag : ℕ) (contents : Bytes) → length contents < length (element tag contents)
unfolding element
length-element tag contents =
    let size = length-append (encode_length (length contents)) contents in omega arith

-- A read of the contents of an element that succeeds is the read of the element.
pub inside-element :
    {A : Type 0} (tag : ℕ) (body : Read A) (contents rest left : Bytes) (a : A)
    → length contents < 2 ^ 32
    → body (reader contents) ≡ (some a, reader left)
    → inside tag body (reader (element tag contents ++ rest)) ≡ (some a, reader rest)
inside-element tag body contents rest left a h e =
    rw (read_constructed-element tag contents rest h, e) refl

pub over-element :
    {A : Type 0} (tag : ℕ) (body : Read A) (contents rest left : Bytes) (a : A)
    → length contents < 2 ^ 32
    → body (reader contents) ≡ (some a, reader left)
    → over tag body (reader (element tag contents ++ rest)) ≡ (some a, reader rest)
over-element tag body contents rest left a h e =
    rw (read_constructed-element tag contents rest h, e) refl

-- An element that is the last.
pub over-last :
    {A : Type 0} (tag : ℕ) (body : Read A) (contents left : Bytes) (a : A)
    → length contents < 2 ^ 32
    → body (reader contents) ≡ (some a, reader left)
    → over tag body (reader (element tag contents)) ≡ (some a, reader [])
over-last tag body contents left a h e =
    ap (λ t. over tag body (reader t)) (sym (append-nil (element tag contents)))
    ∙ over-element tag body contents [] left a h e
