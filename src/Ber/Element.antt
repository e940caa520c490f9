-- ===== src/Ber/Element.antt =====
-- ber.cpp: each operation of the writer writes one element, which is a tag, the length of its contents
-- and the contents.
use simple_ldapd.Prelude.{
  ℕ, ◌≡◌, refl, sym, ap, ◌∙◌, Bool, [], ◌∷◌, ◌++◌, if◌then◌else◌, length, append_assoc, append-nil,
}
use simple_ldapd.Prelude.Bytes.{Bytes, is_empty}
use simple_ldapd.Ber.Tags.{ber_integer, ber_enumerated, ber_boolean}
use simple_ldapd.Ber.{
  BerWriter, write_byte, write_bytes, encode_length, write_tag_length, encode_integer,
  write_integer, int64_of_int, write_enumerated, write_boolean, write_octet_string, write_null,
  write_constructed,
}

-- An element of the encoding.
unfoldable pub element : ℕ → Bytes → Bytes
element tag contents = tag ∷ (encode_length (length contents) ++ contents)

write_tag_length-eq :
    (w : BerWriter) (tag size : ℕ) → write_tag_length w tag size ≡ w ++ (tag ∷ encode_length size)
unfolding write_tag_length
write_tag_length-eq w tag size = append_assoc w (tag ∷ []) (encode_length size)

element-append :
    (w : BerWriter) (tag : ℕ) (contents : Bytes)
    → (w ++ (tag ∷ encode_length (length contents))) ++ contents ≡ w ++ element tag contents
unfolding element
element-append w tag contents = append_assoc w (tag ∷ encode_length (length contents)) contents

-- The test for empty contents changes nothing.
contents-element :
    (w : BerWriter) (tag : ℕ) (contents : Bytes)
    → (if is_empty contents
        then write_tag_length w tag (length contents)
        else write_tag_length w tag (length contents) ++ contents)
      ≡ w ++ element tag contents
contents-element w tag [] =
    write_tag_length-eq w tag 0 ∙ sym (append-nil _) ∙ element-append w tag []
contents-element w tag (c ∷ contents) =
    ap (λ t. t ++ (c ∷ contents)) (write_tag_length-eq w tag (length (c ∷ contents)))
    ∙ element-append w tag (c ∷ contents)

-- Each operation of the writer puts one element behind the bytes written so far.
pub write_octet_string-element :
    (w : BerWriter) (tag : ℕ) (value : Bytes)
    → write_octet_string w tag value ≡ w ++ element tag value
write_octet_string-element w tag value =
    unfold write_octet_string write_bytes in contents-element w tag value

pub write_constructed-element :
    (w : BerWriter) (tag : ℕ) (inner : Bytes)
    → write_constructed w tag inner ≡ w ++ element tag inner
write_constructed-element w tag inner =
    unfold write_constructed write_bytes in contents-element w tag inner

pub write_null-element : (w : BerWriter) (tag : ℕ) → write_null w tag ≡ w ++ element tag []
write_null-element w tag = unfold write_null in contents-element w tag []

header_then :
    (w : BerWriter) (tag : ℕ) (contents : Bytes)
    → write_tag_length w tag (length contents) ++ contents ≡ w ++ element tag contents
header_then w tag contents =
    ap (λ t. t ++ contents) (write_tag_length-eq w tag (length contents))
    ∙ element-append w tag contents

pub write_integer-element :
    (w : BerWriter) (value : ℕ)
    → write_integer w value ≡ w ++ element ber_integer (encode_integer value)
write_integer-element w value =
    unfold write_integer write_bytes in header_then w ber_integer (encode_integer value)

pub write_enumerated-element :
    (w : BerWriter) (value : ℕ)
    → write_enumerated w value ≡ w ++ element ber_enumerated (encode_integer (int64_of_int value))
write_enumerated-element w value =
    unfold write_enumerated write_bytes in
    header_then w ber_enumerated (encode_integer (int64_of_int value))

abbrev pub boolean_byte : Bool → ℕ
boolean_byte value = if value then 0xff else 0x00

pub write_boolean-element :
    (w : BerWriter) (value : Bool)
    → write_boolean w value ≡ w ++ element ber_boolean (boolean_byte value ∷ [])
write_boolean-element w value =
    unfold write_boolean write_byte in header_then w ber_boolean (boolean_byte value ∷ [])

pub write_octet_string-append :
    (w : BerWriter) (tag : ℕ) (value : Bytes)
    → write_octet_string w tag value ≡ w ++ write_octet_string [] tag value
write_octet_string-append w tag value =
    rw (write_octet_string-element w tag value, write_octet_string-element [] tag value) refl

pub write_constructed-append :
    (w : BerWriter) (tag : ℕ) (inner : Bytes)
    → write_constructed w tag inner ≡ w ++ write_constructed [] tag inner
write_constructed-append w tag inner =
    rw (write_constructed-element w tag inner, write_constructed-element [] tag inner) refl
