-- ===== src/Filter.antt =====
-- protocol/filter.hpp: the tree of a search filter. A node has the source's fields whatever its
-- type; a list of children is a type of its own, since a node holds one.
pub mod Match
mod Find
pub mod Substring
pub mod Chain
pub mod Wire
pub mod Parse
use simple_ldapd.Prelude.{ℕ, Bool, true, false, List, [], ◌∷◌, ◌++◌}
use simple_ldapd.Prelude.Bytes.{Bytes, codes}

pub data FilterType : Type 0 where
  and or not equality present substring true_filter false_filter : FilterType

mutual
  pub data FilterNode : Type 0 where
    node : FilterType → Bytes → Bytes → FilterNodes → Bytes → List Bytes → Bytes → FilterNode

  pub data FilterNodes : Type 0 where
    nil : FilterNodes
    cons : FilterNode → FilterNodes → FilterNodes

-- nodes of one type, with the fields that the type reads
pattern abbrev pub and_node : FilterNodes → FilterNode
and_node children = node and [] [] children [] [] []

pattern abbrev pub or_node : FilterNodes → FilterNode
or_node children = node or [] [] children [] [] []

pattern abbrev pub not_node : FilterNodes → FilterNode
not_node children = node not [] [] children [] [] []

pattern abbrev pub equality_node : Bytes → Bytes → FilterNode
equality_node attribute value = node equality attribute value nil [] [] []

pattern abbrev pub present_node : Bytes → FilterNode
present_node attribute = node present attribute [] nil [] [] []

pattern abbrev pub substring_node : Bytes → Bytes → List Bytes → Bytes → FilterNode
substring_node attribute initial any final = node substring attribute [] nil initial any final

-- `FilterNode{}`
abbrev pub default_node : FilterNode
default_node = node true_filter [] [] nil [] [] []

pub record SearchFilter : Type 0 where
  pub text : Bytes
  pub valid : Bool
  pub root : FilterNode

-- `SearchFilter::present`, `equality` and `all`
unfoldable pub present_filter : Bytes → SearchFilter
present_filter attribute = record {
  text = b'(' ∷ (attribute ++ codes "=*)");
  valid = true;
  root = present_node attribute;
}

unfoldable pub equality_filter : Bytes → Bytes → SearchFilter
equality_filter attribute value = record {
  text = b'(' ∷ (attribute ++ (b'=' ∷ (value ++ codes ")")));
  valid = true;
  root = equality_node attribute value;
}

unfoldable pub all_filter : SearchFilter
all_filter = record { text = codes "(objectClass=*)"; valid = true; root = default_node }
