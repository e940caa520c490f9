-- ===== src/Dn/Sameness.antt =====
-- Equality up to case is an equivalence on names, as the maps' lemmas want it.
use simple_ldapd.Prelude.{arith}
use simple_ldapd.OrderedMap.Distinct.{IsSameness}
use simple_ldapd.Dn.{iequals, iequals_iff, iequals_refl, dn_equals}

pub iequals-IsSameness : IsSameness iequals
iequals-IsSameness = record {
  reflexive = iequals_refl;
  symmetric = λ k j. ground (arith, iequals_iff k j, iequals_iff j k);
  transports =
      λ k name j h. ground (arith, iequals_iff k name, iequals_iff j k, iequals_iff j name);
}

pub dn_equals-IsSameness : IsSameness dn_equals
unfolding dn_equals
dn_equals-IsSameness = iequals-IsSameness
