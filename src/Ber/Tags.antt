-- ===== src/Ber/Tags.antt =====
-- protocol/ber.hpp: the tag bytes.
use simple_ldapd.Prelude.{ℕ}

abbrev pub ber_sequence : ℕ
ber_sequence = 0x30

abbrev pub ber_set : ℕ
ber_set = 0x31

abbrev pub ber_boolean : ℕ
ber_boolean = 0x01

abbrev pub ber_integer : ℕ
ber_integer = 0x02

abbrev pub ber_octet_string : ℕ
ber_octet_string = 0x04

abbrev pub ber_enumerated : ℕ
ber_enumerated = 0x0a

abbrev pub ber_null : ℕ
ber_null = 0x05

abbrev pub ber_bind_request : ℕ
ber_bind_request = 0x60

abbrev pub ber_bind_response : ℕ
ber_bind_response = 0x61

abbrev pub ber_unbind_request : ℕ
ber_unbind_request = 0x42

abbrev pub ber_search_request : ℕ
ber_search_request = 0x63

abbrev pub ber_search_result_entry : ℕ
ber_search_result_entry = 0x64

abbrev pub ber_search_result_done : ℕ
ber_search_result_done = 0x65

abbrev pub ber_modify_request : ℕ
ber_modify_request = 0x66

abbrev pub ber_modify_response : ℕ
ber_modify_response = 0x67

abbrev pub ber_add_request : ℕ
ber_add_request = 0x68

abbrev pub ber_add_response : ℕ
ber_add_response = 0x69

abbrev pub ber_del_request : ℕ
ber_del_request = 0x4a

abbrev pub ber_del_response : ℕ
ber_del_response = 0x6b

abbrev pub ber_modify_dn_request : ℕ
ber_modify_dn_request = 0x6c

abbrev pub ber_modify_dn_response : ℕ
ber_modify_dn_response = 0x6d

abbrev pub ber_compare_request : ℕ
ber_compare_request = 0x6e

abbrev pub ber_compare_response : ℕ
ber_compare_response = 0x6f

abbrev pub ber_extended_request : ℕ
ber_extended_request = 0x77

abbrev pub ber_extended_response : ℕ
ber_extended_response = 0x78

abbrev pub ber_simple_auth : ℕ
ber_simple_auth = 0x80

abbrev pub ber_context1 : ℕ
ber_context1 = 0x81

abbrev pub ber_context2 : ℕ
ber_context2 = 0x82

abbrev pub ber_context10 : ℕ
ber_context10 = 0x8a

abbrev pub ber_context11 : ℕ
ber_context11 = 0x8b

abbrev pub ber_controls : ℕ
ber_controls = 0xa0

abbrev pub ber_server_sasl_creds : ℕ
ber_server_sasl_creds = 0x87

abbrev pub ber_sasl_auth : ℕ
ber_sasl_auth = 0xa3

abbrev pub ber_filter_and : ℕ
ber_filter_and = 0xa0

abbrev pub ber_filter_or : ℕ
ber_filter_or = 0xa1

abbrev pub ber_filter_not : ℕ
ber_filter_not = 0xa2

abbrev pub ber_filter_equality : ℕ
ber_filter_equality = 0xa3

abbrev pub ber_filter_substrings : ℕ
ber_filter_substrings = 0xa4

abbrev pub ber_filter_present : ℕ
ber_filter_present = 0x87

abbrev pub ber_substring_initial : ℕ
ber_substring_initial = 0x80

abbrev pub ber_substring_any : ℕ
ber_substring_any = 0x81

abbrev pub ber_substring_final : ℕ
ber_substring_final = 0x82
