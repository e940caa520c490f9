-- ===== src/Message/Entries/RoundTrip.antt =====
-- message.cpp: lists of values and attributes, and requests to add an entry, are read back.
use simple_ldapd.Prelude.{
  ◌^◌, ◌<◌, ◌≡◌, refl, sym, ap, ◌∙◌, some, List, [], ◌∷◌, ◌++◌, arith, length, append_assoc,
  append-nil, length-append,
}
use simple_ldapd.Prelude.Bytes.{Bytes}
use simple_ldapd.Ber.Tags.{ber_sequence, ber_set, ber_octet_string, ber_add_request}
use simple_ldapd.Ber.{write_octets, write_constructed}
use simple_ldapd.Ber.Reader.{reader, read_octets}
use simple_ldapd.Ber.Loop.{read_list, encodings, ReadsBack, read_list-encodings}
use simple_ldapd.Ber.Element.{element, write_octet_string-element, write_constructed-element}
use simple_ldapd.Ber.RoundTrip.{read_octet_string-element, length-element, over-element, over-last}
use simple_ldapd.Message.{PartialAttribute, AddRequestData}
use simple_ldapd.Message.Entries.{
  write_values, write_partial, write_attributes, encode_attributes, read_partial, partial_body,
  decode_attributes, encode_add_request, decode_add_request,
}

-- an octet string with the usual tag
abbrev pub octets : Bytes → Bytes
octets value = element ber_octet_string value

pub write_values-encodings :
    (w : Bytes) (values : List Bytes) → write_values w values ≡ w ++ encodings octets values
unfolding write_values
write_values-encodings w [] = sym (append-nil w)
write_values-encodings w (v ∷ values) =
    let head = write_octet_string-element w ber_octet_string v in
    write_values-encodings (write_octets w v) values
    ∙ ap (λ t. t ++ encodings octets values) head
    ∙ append_assoc w (octets v) (encodings octets values)

values-ReadsBack :
    (values : List Bytes)
    → length (encodings octets values) < 2 ^ 32
    → ReadsBack read_octets octets values
values-ReadsBack [] h = tt
values-ReadsBack (v ∷ values) h =
    let size = length-append (octets v) (encodings octets values) in
    let inner = length-element ber_octet_string v in
    (
      λ rest. read_octet_string-element ber_octet_string v rest (omega arith),
      omega arith,
      values-ReadsBack values (omega arith),
    )

-- A list of values is read back.
pub read_list-write_values :
    (values : List Bytes)
    → length (write_values [] values) < 2 ^ 32
    → read_list read_octets (reader (write_values [] values)) ≡ (some values, reader [])
read_list-write_values values h =
    let e = write_values-encodings [] values in
    let size = ap length e in
    ap (λ t. read_list read_octets (reader t)) e
    ∙ read_list-encodings read_octets octets values (values-ReadsBack values (omega arith))

-- The element of an attribute.
partial_contents : PartialAttribute → Bytes
partial_contents a = octets a.type ++ element ber_set (write_values [] a.values)

partial_element : PartialAttribute → Bytes
unfolding partial_contents
partial_element a = element ber_sequence (partial_contents a)

write_partial-contents : (a : PartialAttribute) → write_partial a.type a.values ≡ partial_contents a
unfolding partial_contents
write_partial-contents a =
    write_constructed-element (write_octets [] a.type) ber_set (write_values [] a.values)
    ∙ ap (λ t. t ++ element ber_set (write_values [] a.values))
        (write_octet_string-element [] ber_octet_string a.type)

write_attributes-encodings :
    (w : Bytes) (attributes : List PartialAttribute)
    → write_attributes w attributes ≡ w ++ encodings partial_element attributes
unfolding write_attributes partial_element
write_attributes-encodings w [] = sym (append-nil w)
write_attributes-encodings w (a ∷ attributes) =
    let item = write_partial a.type a.values in
    let more = encodings partial_element attributes in
    write_attributes-encodings (write_constructed w ber_sequence item) attributes
    ∙ ap (λ t. t ++ more) (write_constructed-element w ber_sequence item)
    ∙ ap (λ t. (w ++ element ber_sequence t) ++ more) (write_partial-contents a)
    ∙ append_assoc w (element ber_sequence (partial_contents a)) more

read_partial-element :
    (a : PartialAttribute) (rest : Bytes)
    → length (partial_element a) < 2 ^ 32
    → read_partial (reader (partial_element a ++ rest)) ≡ (some a, reader rest)
unfolding read_partial partial_element partial_contents
read_partial-element a rest h =
    let values = write_values [] a.values in
    let c = octets a.type ++ element ber_set values in
    let whole = length-element ber_sequence c in
    let size = length-append (octets a.type) (element ber_set values) in
    let one = length-element ber_octet_string a.type in
    let two = length-element ber_set values in
    let first =
      read_octet_string-element ber_octet_string a.type (element ber_set values) (omega arith) in
    let second =
      over-last ber_set (read_list read_octets) values [] a.values (omega arith)
        (read_list-write_values a.values (omega arith)) in
    over-element ber_sequence partial_body c rest [] a (omega arith) (rw (first, second) refl)

attributes-ReadsBack :
    (attributes : List PartialAttribute)
    → length (encodings partial_element attributes) < 2 ^ 32
    → ReadsBack read_partial partial_element attributes
attributes-ReadsBack [] h = tt
attributes-ReadsBack (a ∷ attributes) h =
    let size = length-append (partial_element a) (encodings partial_element attributes) in
    (
      λ rest. read_partial-element a rest (omega arith),
      unfold partial_element in
          let inner = length-element ber_sequence (partial_contents a) in omega arith,
      attributes-ReadsBack attributes (omega arith),
    )

-- A list of attributes is read back.
pub decode_attributes-encode_attributes :
    (attributes : List PartialAttribute)
    → length (encode_attributes attributes) < 2 ^ 32
    → decode_attributes (reader (encode_attributes attributes)) ≡ (some attributes, reader [])
unfolding decode_attributes encode_attributes
decode_attributes-encode_attributes attributes h =
    let e = write_attributes-encodings [] attributes in
    let size = ap length e in
    let loop =
      read_list-encodings read_partial partial_element attributes
        (attributes-ReadsBack attributes (omega arith)) in
    rw (e, loop) refl

-- The contents of a request to add an entry are read back.
pub add_contents : AddRequestData → Bytes
add_contents add = octets add.dn ++ element ber_sequence (encode_attributes add.attributes)

pub encode_add_request-element :
    (add : AddRequestData) → encode_add_request add ≡ element ber_add_request (add_contents add)
unfolding encode_add_request add_contents
encode_add_request-element add =
    let list = encode_attributes add.attributes in
    write_constructed-element [] ber_add_request _
    ∙ ap (element ber_add_request) (
        write_constructed-element (write_octets [] add.dn) ber_sequence list
        ∙ ap (λ t. t ++ element ber_sequence list)
            (write_octet_string-element [] ber_octet_string add.dn))

pub decode_add_request-contents :
    (add : AddRequestData)
    → length (add_contents add) < 2 ^ 32
    → decode_add_request (reader (add_contents add)) ≡ (some add, reader [])
unfolding decode_add_request add_contents
decode_add_request-contents add h =
    let list = encode_attributes add.attributes in
    let size = length-append (octets add.dn) (element ber_sequence list) in
    let one = length-element ber_octet_string add.dn in
    let two = length-element ber_sequence list in
    let first =
      read_octet_string-element ber_octet_string add.dn (element ber_sequence list) (omega arith) in
    let second =
      over-last ber_sequence decode_attributes list [] add.attributes (omega arith)
        (decode_attributes-encode_attributes add.attributes (omega arith)) in
    rw (first, second) refl
