-- ===== src/Filter/Wire/Parts.antt =====
-- protocol/filter.cpp: the parts of a substring filter, written and read back.
use simple_ldapd.Prelude.{
  map, ℕ, ◌^◌, ◌<◌, ◌≡◌, refl, sym, ap, ◌∙◌, some, List, [], ◌∷◌, ◌++◌, arith, length, append_assoc,
  append-nil, length-append,
}
use simple_ldapd.Prelude.Bytes.{Bytes}
use simple_ldapd.Ber.Tags.{ber_substring_initial, ber_substring_any, ber_substring_final, ber_null}
use simple_ldapd.Ber.{BerWriter, write_octet_string}
use simple_ldapd.Ber.Reader.{reader, read_octet_string}
use simple_ldapd.Ber.Loop.{read_list, encodings, ReadsBack, read_list-encodings}
use simple_ldapd.Ber.Element.{element, write_octet_string-element}
use simple_ldapd.Ber.RoundTrip.{
  read_octet_string-element, skip-element, peek_tag-element, length-element,
}
use simple_ldapd.Filter.Wire.{
  write_part, write_any, substring_parts, Part, initial_part, any_part, final_part, skipped,
  decode_part, put_parts,
}

encode_part : Part → Bytes
encode_part (initial_part v) = element ber_substring_initial v
encode_part (any_part v) = element ber_substring_any v
encode_part (final_part v) = element ber_substring_final v
encode_part skipped = element ber_null []

if_any : (Bytes → Part) → Bytes → List Part
if_any f [] = []
if_any f (c ∷ v) = f (c ∷ v) ∷ []

-- The parts that the writer writes.
pub parts_of : Bytes → List Bytes → Bytes → List Part
unfolding if_any
parts_of initial any final =
    if_any initial_part initial ++ (map any_part any ++ if_any final_part final)

encodings-append :
    (a b : List Part)
    → encodings encode_part (a ++ b) ≡ encodings encode_part a ++ encodings encode_part b
encodings-append [] b = refl
encodings-append (p ∷ a) b =
    rw (encodings-append a b)
      (sym (append_assoc (encode_part p) (encodings encode_part a) (encodings encode_part b)))

write_part-encodings :
    (w : BerWriter) (f : Bytes → Part) (tag : ℕ) (v : Bytes)
    → ((u : Bytes) → encode_part (f u) ≡ element tag u)
    → write_part w tag v ≡ w ++ encodings encode_part (if_any f v)
unfolding if_any
write_part-encodings w f tag [] h = sym (append-nil w)
write_part-encodings w f tag (c ∷ v) h =
    rw (h (c ∷ v), append-nil (element tag (c ∷ v))) (write_octet_string-element w tag (c ∷ v))

write_any-encodings :
    (w : BerWriter) (any : List Bytes)
    → write_any w any ≡ w ++ encodings encode_part (map any_part any)
unfolding write_any encode_part
write_any-encodings w [] = sym (append-nil w)
write_any-encodings w (v ∷ any) =
    let head = write_octet_string-element w ber_substring_any v in
    write_any-encodings (write_octet_string w ber_substring_any v) any
    ∙ rw head
        (append_assoc w (element ber_substring_any v) (encodings encode_part (map any_part any)))

substring_parts-encodings :
    (initial : Bytes) (any : List Bytes) (final : Bytes)
    → substring_parts initial any final ≡ encodings encode_part (parts_of initial any final)
unfolding parts_of
substring_parts-encodings initial any final =
    let first = write_part [] ber_substring_initial initial in
    let a = encodings encode_part (if_any initial_part initial) in
    let b = encodings encode_part (map any_part any) in
    let c = encodings encode_part (if_any final_part final) in
    let one : first ≡ a =
      write_part-encodings [] initial_part ber_substring_initial initial
        (λ u. unfold encode_part in refl) in
    let two : write_any first any ≡ a ++ b = write_any-encodings first any ∙ ap (λ t. t ++ b) one in
    write_part-encodings (write_any first any) final_part ber_substring_final final
      (λ u. unfold encode_part in refl)
    ∙ ap (λ t. t ++ c) two
    ∙ append_assoc a b c
    ∙ ap (λ t. a ++ t) (sym (encodings-append (map any_part any) (if_any final_part final)))
    ∙ sym (
        encodings-append (if_any initial_part initial)
          (map any_part any ++ if_any final_part final))

read_named :
    (tag : ℕ) (v rest : Bytes)
    → length (element tag v) < 2 ^ 32
    → read_octet_string tag (reader (element tag v ++ rest)) ≡ (some v, reader rest)
read_named tag v rest h =
    let inner = length-element tag v in read_octet_string-element tag v rest (omega arith)

read_part :
    (p : Part) (rest : Bytes)
    → length (encode_part p) < 2 ^ 32
    → decode_part (reader (encode_part p ++ rest)) ≡ (some p, reader rest)
unfolding encode_part decode_part
read_part (initial_part v) rest h =
    rw (peek_tag-element ber_substring_initial v rest, read_named ber_substring_initial v rest h)
      refl
read_part (any_part v) rest h =
    rw (peek_tag-element ber_substring_any v rest, read_named ber_substring_any v rest h) refl
read_part (final_part v) rest h =
    rw (peek_tag-element ber_substring_final v rest, read_named ber_substring_final v rest h) refl
read_part skipped rest h =
    rw (peek_tag-element ber_null [] rest, skip-element ber_null [] rest (omega arith)) refl

encode_part-nonempty : (p : Part) → 0 < length (encode_part p)
unfolding encode_part element
encode_part-nonempty (initial_part v) = ground arith
encode_part-nonempty (any_part v) = ground arith
encode_part-nonempty (final_part v) = ground arith
encode_part-nonempty skipped = ground arith

parts-ReadsBack :
    (parts : List Part)
    → length (encodings encode_part parts) < 2 ^ 32
    → ReadsBack decode_part encode_part parts
parts-ReadsBack [] h = tt
parts-ReadsBack (p ∷ parts) h =
    let size = length-append (encode_part p) (encodings encode_part parts) in
    (
      λ rest. read_part p rest (omega arith),
      encode_part-nonempty p,
      parts-ReadsBack parts (omega arith),
    )

put_parts-any :
    (initial : Bytes) (any more : List Bytes) (final : Bytes) (parts : List Part)
    → put_parts initial any final (map any_part more ++ parts)
      ≡ put_parts initial (any ++ more) final parts
unfolding put_parts
put_parts-any initial any [] final parts = rw append-nil refl
put_parts-any initial any (v ∷ more) final parts =
    put_parts-any initial (any ++ (v ∷ [])) more final parts
    ∙ ap (λ t. put_parts initial t final parts) (append_assoc any (v ∷ []) more)

put_parts-final :
    (initial : Bytes) (any : List Bytes) (final : Bytes)
    → put_parts initial any [] (if_any final_part final) ≡ (initial, any, final)
unfolding put_parts if_any
put_parts-final initial any [] = refl
put_parts-final initial any (c ∷ final) = refl

pub put_parts-parts_of :
    (initial : Bytes) (any : List Bytes) (final : Bytes)
    → put_parts [] [] [] (parts_of initial any final) ≡ (initial, any, final)
unfolding put_parts parts_of if_any
put_parts-parts_of [] any final = put_parts-any [] [] any [] _ ∙ put_parts-final [] any final
put_parts-parts_of (c ∷ initial) any final =
    put_parts-any (c ∷ initial) [] any [] _ ∙ put_parts-final (c ∷ initial) any final

-- The loop over the parts reads back what the writer wrote.
pub read_list-parts :
    (initial : Bytes) (any : List Bytes) (final : Bytes)
    → length (substring_parts initial any final) < 2 ^ 32
    → read_list decode_part (reader (substring_parts initial any final))
      ≡ (some (parts_of initial any final), reader [])
read_list-parts initial any final h =
    let parts = parts_of initial any final in
    let eq = substring_parts-encodings initial any final in
    let back =
      read_list-encodings decode_part encode_part parts (parts-ReadsBack parts (ground arith)) in
    rw eq back
