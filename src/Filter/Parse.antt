-- ===== src/Filter/Parse.antt =====
-- protocol/filter.cpp: the text form of a filter. A position in the text is the text behind it.
pub mod Fuel
pub mod Plain
pub mod Text
use simple_ldapd.Prelude.{
  ℕ, zero, suc, Bool, true, false, not, ◌&&◌, ◌||◌, Option, none, some, List, [], ◌∷◌, ◌++◌, ◌==◌,
  if◌then◌else◌, length,
}
use simple_ldapd.Prelude.Bytes.{Bytes, codes, is_empty, equal}
use simple_ldapd.Text.{is_space, drop_while, take_until, drop_until}
use simple_ldapd.Filter.{
  FilterType, FilterNode, node, FilterNodes, nil, cons, default_node, SearchFilter, present_node,
  equality_node, substring_node,
}
use mathlib.Core.List.{reverse}

-- what a parser returns, the position and the node it leaves, and whether the model's fuel ran out on
-- the way, which the source has no word for
pub record Parsed : Type 0 where
  pub ok : Bool
  pub rest : Bytes
  pub out : FilterNode
  pub exhausted : Bool

unfoldable pub skip_space : Bytes → Bytes
unfolding is_space drop_while
skip_space text = drop_while is_space text

-- the text behind the character, if it is the next one
abbrev pub behind_char : ℕ → Bytes → Option Bytes
behind_char c [] = none
behind_char c (x ∷ s) = if x == c then some s else none

-- the cut of the value at its stars; an escaped character is never one
unfoldable pub split_stars : Bool → Bytes → Bytes → List Bytes
split_stars escaped current [] = current ∷ []
split_stars escaped current (c ∷ value) =
    let star = not escaped && c == b'*' in
    let rest =
      split_stars (not escaped && c == b'\\') (if star then [] else current ++ (c ∷ [])) value in
    if star then current ∷ rest else rest

-- the parts between the first and the last that are not empty, and the last
abbrev pub middle_parts : List Bytes → List Bytes
middle_parts [] = []
middle_parts (part ∷ []) = []
middle_parts (part ∷ part' ∷ parts) =
    let rest = middle_parts (part' ∷ parts) in if is_empty part then rest else part ∷ rest

abbrev pub last_part : List Bytes → Bytes
last_part [] = []
last_part (part ∷ []) = part
last_part (part ∷ part' ∷ parts) = last_part (part' ∷ parts)

unfoldable pub node_of_parts : Bytes → Bytes → List Bytes → FilterNode
node_of_parts attribute value [] = equality_node attribute value
node_of_parts attribute value (part ∷ []) = equality_node attribute value
node_of_parts attribute value (part ∷ part' ∷ parts) =
    substring_node attribute part (middle_parts (part' ∷ parts)) (last_part (part' ∷ parts))

-- the code behind the test on the attribute
unfoldable pub item_node : Bytes → Bytes → FilterNode
unfolding split_stars node_of_parts equal
item_node attribute value =
    if equal value (codes "*")
    then present_node attribute
    else node_of_parts attribute value (split_stars false [] value)

unfoldable pub trim_end : Bytes → Bytes
unfolding is_space drop_while
trim_end value = reverse (drop_while is_space (reverse value))

abbrev pub ends_attribute : ℕ → Bool
ends_attribute c = c == b'=' || c == b')' || c == b'('

abbrev pub ends_value : ℕ → Bool
ends_value c = c == b')'

-- behind the equals sign
abbrev pub parse_value : Bytes → Bytes → Parsed
parse_value attribute text =
    let rest = drop_until ends_value text in
    if is_empty attribute
    then record { ok = false; rest = rest; out = default_node; exhausted = false }
    else record {
      ok = true;
      rest = rest;
      out = item_node attribute (take_until ends_value text);
      exhausted = false;
    }

unfoldable pub parse_item : Bytes → Parsed
unfolding take_until drop_until item_node trim_end
parse_item text = elim (behind_char b'=' (drop_until ends_attribute text)) [
  | none ↦ record {
    ok = false;
    rest = drop_until ends_attribute text;
    out = default_node;
    exhausted = false;
  }
  | some behind ↦ parse_value (trim_end (take_until ends_attribute text)) behind
]

-- `out.children.push_back(child)`
unfoldable pub push_back : FilterNodes → FilterNode → FilterNodes
push_back nil child = cons child nil
push_back (cons first nodes) child = cons first (push_back nodes child)

abbrev pub is_nil : FilterNodes → Bool
is_nil nil = true
is_nil (cons first nodes) = false

abbrev pub list_node : FilterType → FilterNodes → FilterNode
list_node type children = node type [] [] children [] [] []

abbrev pub next_is : ℕ → Bytes → Bool
next_is c [] = false
next_is c (x ∷ s) = x == c

-- `parseList`, with the parser of one filter as an argument, for at most so many rounds
unfoldable pub parse_list : (Bytes → Parsed) → FilterType → ℕ → FilterNodes → Bytes → Parsed
unfolding push_back
parse_list parse_one type zero children text = record {
  ok = false;
  rest = text;
  out = list_node type children;
  exhausted = true;
}
parse_list parse_one type (suc rounds) children text = elim (next_is b'(' text) [
  | false ↦ record {
    ok = not (is_nil children);
    rest = text;
    out = list_node type children;
    exhausted = false;
  }
  | true ↦ elim (parse_one text).ok [
    | false ↦ record {
      ok = false;
      rest = (parse_one text).rest;
      out = list_node type children;
      exhausted = (parse_one text).exhausted;
    }
    | true ↦
        parse_list parse_one type rounds (push_back children (parse_one text).out)
          (parse_one text).rest
  ]
]

-- the child of a negation
abbrev pub negated : Parsed → Parsed
negated p = record p { out = list_node FilterType.not (if p.ok then cons p.out nil else nil) }

-- the parenthesis at the end of a filter
unfoldable pub close_filter : Parsed → Parsed
unfolding skip_space
close_filter p = elim p.ok [
  | false ↦ p
  | true ↦ elim (behind_char b')' (skip_space p.rest)) [
    | none ↦ record p { ok = false; rest = skip_space p.rest }
    | some behind ↦ record p { rest = behind }
  ]
]

-- the branches on the first character behind the opening parenthesis
abbrev pub parse_kind : (Bytes → Parsed) → ℕ → ℕ → Bytes → Parsed
parse_kind parse_one rounds c text =
    if c == b'&'
    then parse_list parse_one FilterType.and rounds nil text
    else if c == b'|'
    then parse_list parse_one FilterType.or rounds nil text
    else if c == b'!'
    then negated (parse_one text)
    else parse_item (c ∷ text)

unfoldable pub parse_inner : (Bytes → Parsed) → ℕ → Bytes → Parsed
unfolding parse_list parse_item close_filter
parse_inner parse_one rounds [] = record {
  ok = false;
  rest = [];
  out = default_node;
  exhausted = false;
}
parse_inner parse_one rounds (c ∷ text) = close_filter (parse_kind parse_one rounds c text)

unfoldable pub parse_filter : ℕ → Bytes → Parsed
unfolding skip_space parse_inner
parse_filter zero text = record { ok = false; rest = text; out = default_node; exhausted = true }
parse_filter (suc fuel) text = elim (behind_char b'(' (skip_space text)) [
  | none ↦ record { ok = false; rest = skip_space text; out = default_node; exhausted = false }
  | some behind ↦ parse_inner (parse_filter fuel) fuel (skip_space behind)
]

-- `SearchFilter::parse`
unfoldable pub parse : Bytes → SearchFilter
unfolding parse_filter skip_space
parse text =
    let p = parse_filter (suc (length text)) text in
    record { text = text; valid = p.ok && is_empty (skip_space p.rest); root = p.out }
