-- ===== src/Tests/Wire.antt =====
-- The laws of the encodings, of filters and of the limiter on concrete ones.
use simple_ldapd.Prelude.{
  ℕ, ◌*◌, ◌^◌, ◌≤◌, ◌<◌, ◌≡◌, ◌↔◌, refl, true, some, List, [], ◌∷◌, ◌++◌, arith, length,
}
use simple_ldapd.Prelude.Bytes.{Bytes, codes}
use simple_ldapd.Directory.{DirectoryEntry, find_attribute}
use simple_ldapd.Ber.{encode_length, encode_integer}
use simple_ldapd.Ber.Reader.{reader, read_length, decode_integer}
use simple_ldapd.Ber.Length.{read_length-encode_length}
use simple_ldapd.Ber.Integer.{IsShortest, encode_integer_lem}
use simple_ldapd.Filter.{
  FilterNode, SearchFilter, nil, cons, and_node, not_node, substring_node, true_filter, node,
}
use simple_ldapd.Filter.Match.{matches, substring_matches}
use simple_ldapd.Filter.Substring.{IsSubstringMatch, substring_matches_iff}
use simple_ldapd.Filter.Wire.{encode_ber, decode_ber}
use simple_ldapd.Filter.Wire.Form.{wire_form, IsWritable}
use simple_ldapd.Filter.Wire.RoundTrip.{decode_ber-encode_ber, decode_ber-matches}
use simple_ldapd.Message.{PartialAttribute, AddRequestData}
use simple_ldapd.Message.Entries.{encode_attributes, decode_attributes}
use simple_ldapd.Message.Entries.RoundTrip.{decode_attributes-encode_attributes}
use simple_ldapd.Message.Envelope.{encode_ldap_message, decode_ldap_message}
use simple_ldapd.Message.Make.{make_add_request, make_del_request}
use simple_ldapd.Message.RoundTrip.{add_request-back}
use simple_ldapd.OrderedMap.{find_first}
use simple_ldapd.RateLimiter.{RateLimiter, allow}
use simple_ldapd.RateLimiter.Window.{IsSound, InMinute, allow-IsSound, passed, passed_at_most_twice}

abbrev names : List PartialAttribute
names = record { type = codes "cn"; values = codes "a" ∷ codes "b" ∷ [] } ∷ []

abbrev request : AddRequestData
request = record { dn = codes "cn=a"; attributes = names }

abbrev child_node : FilterNode
child_node = substring_node (codes "cn") (codes "a") (codes "b" ∷ []) []

abbrev tree : FilterNode
tree =
    and_node
      (cons (not_node (cons child_node nil)) (cons (node true_filter [] [] nil [] [] []) nil))

abbrev filter : SearchFilter
filter = record { text = []; valid = true; root = tree }

tree-IsWritable : IsWritable tree
unfolding IsWritable
tree-IsWritable = (tt, (tt, tt))

abbrev entry : DirectoryEntry
entry = record { dn = codes "cn=a"; attributes = (codes "objectClass", codes "top" ∷ []) ∷ [] }

has_class : find_attribute entry (codes "objectClass") ≡ some (codes "top" ∷ [])
unfolding find_attribute
has_class = refl

filter_fits : length (encode_ber filter) < 2 ^ 32
unfolding encode_ber
filter_fits = omega arith

names_fit : length (encode_attributes names) < 2 ^ 32
unfolding encode_attributes
names_fit = omega arith

add_fits : length (encode_ldap_message (make_add_request 7 request)) < 2 ^ 32
unfolding encode_ldap_message make_add_request
add_fits = omega arith

delete_fits : length (encode_ldap_message (make_del_request 7 (codes "cn=a"))) < 2 ^ 32
unfolding encode_ldap_message make_del_request
delete_fits = omega arith

abbrev limiter : RateLimiter
limiter = record { max_per_minute = 2; buckets = [] }

fresh-IsSound : IsSound limiter
fresh-IsSound = record { ordered = tt; held = λ name. unfold find_first in tt }

abbrev client : Bytes
client = codes "10.0.0.1:1000"

abbrev attempts : List (Bytes × ℕ)
attempts = (client, 5) ∷ (codes "10.0.0.1:1001", 6) ∷ []

in_minute : InMinute 1 attempts
in_minute = (omega arith, omega arith, (omega arith, omega arith, tt))

decode_ber-encode_ber_example : decode_ber (reader (encode_ber filter ++ [])) ≡ (
  some (record { text = codes "(decoded)"; valid = true; root = wire_form filter.root }),
  reader [],
)
decode_ber-encode_ber_example = decode_ber-encode_ber filter [] refl tree-IsWritable filter_fits

substring_matches_iff_example :
    (substring_matches (codes "Abba") (codes "a") (codes "b" ∷ []) (codes "a") ≡ true)
    ↔ IsSubstringMatch (codes "Abba") (codes "a") (codes "b" ∷ []) (codes "a")
substring_matches_iff_example =
    substring_matches_iff (codes "Abba") (codes "a") (codes "b" ∷ []) (codes "a")

add_request-back_example :
    decode_ldap_message (encode_ldap_message (make_add_request 7 request))
    ≡ some (make_add_request 7 request)
add_request-back_example = add_request-back 7 request (omega arith) add_fits

decode_attributes-encode_attributes_example :
    decode_attributes (reader (encode_attributes names)) ≡ (some names, reader [])
decode_attributes-encode_attributes_example = decode_attributes-encode_attributes names names_fit

read_length-encode_length_example :
    read_length (reader (encode_length 300 ++ (1 ∷ []))) ≡ (some 300, reader (1 ∷ []))
read_length-encode_length_example = read_length-encode_length 300 (1 ∷ []) (omega arith)

passed_at_most_twice_example :
    passed limiter (codes "10.0.0.1") attempts ≤ 2 * limiter.max_per_minute
passed_at_most_twice_example =
    passed_at_most_twice limiter (codes "10.0.0.1") 1 attempts fresh-IsSound (omega arith)
      (omega arith) (omega arith) in_minute

allow-IsSound_example : IsSound (allow limiter client 5).1
allow-IsSound_example = allow-IsSound limiter client 5 fresh-IsSound

decode_ber-matches_example :
    (back : SearchFilter) × ((decode_ber (reader (encode_ber filter ++ []))).0 ≡ some back)
    × (matches back entry ≡ matches filter entry)
decode_ber-matches_example =
    decode_ber-matches filter [] entry (codes "top" ∷ []) refl tree-IsWritable filter_fits has_class

encode_integer_lem_example :
    (decode_integer (encode_integer 200) ≡ 200) × IsShortest (encode_integer 200)
encode_integer_lem_example = encode_integer_lem 200 (omega arith)
