-- ===== src/Filter/Match.antt =====
-- protocol/filter.cpp: matching a filter against an entry.
use simple_ldapd.Prelude.{
  ℕ, suc, ◌+◌, ◌-◌, Bool, true, false, not, ◌&&◌, ◌||◌, Option, none, some, List, [], ◌∷◌, ltb,
  if◌then◌else◌, length, take, drop,
}
use simple_ldapd.Prelude.Bytes.{Bytes, is_empty, equal}
use simple_ldapd.Dn.{to_lower_ascii, iequals}
use simple_ldapd.Directory.{DirectoryEntry, find_attribute}
use simple_ldapd.Filter.{FilterType, FilterNode, node, FilterNodes, nil, cons, SearchFilter}

-- the first index at which `needle` stands
unfoldable pub find_at : Bytes → Bytes → Option ℕ
unfolding equal
find_at needle [] = if is_empty needle then some 0 else none
find_at needle (x ∷ s) =
    if equal (take (length needle) (x ∷ s)) needle
    then some 0
    else elim (find_at needle s) [ none ↦ none | some i ↦ some (suc i) ]

-- `hay.find(needle, pos)`
unfoldable pub find_from : Bytes → Bytes → ℕ → Option ℕ
unfolding find_at
find_from hay needle pos =
    if ltb (length hay) pos
    then none
    else elim (find_at needle (drop pos hay)) [ none ↦ none | some i ↦ some (pos + i) ]

-- the loop over `node.any`, which hands on the position behind the last part
unfoldable pub match_any : Bytes → ℕ → List Bytes → Option ℕ
unfolding find_from to_lower_ascii
match_any hay pos [] = some pos
match_any hay pos (part ∷ any) =
    let needle = to_lower_ascii part in
    elim (find_from hay needle pos) [
      | none ↦ none
      | some found ↦ match_any hay (found + length needle) any
    ]

-- the test of `node.final`, behind position `pos`
unfoldable pub match_final : Bytes → Bytes → ℕ → Bool
unfolding equal to_lower_ascii
match_final hay final pos =
    if is_empty final
    then true
    else let final_part = to_lower_ascii final in
      if ltb (length hay) (pos + length final_part)
      then false
      else equal (drop (length hay - length final_part) hay) final_part

-- the code behind the test of `node.initial`
unfoldable pub match_behind : Bytes → ℕ → List Bytes → Bytes → Bool
unfolding match_any match_final
match_behind hay pos any final = elim (match_any hay pos any) [
  | none ↦ false
  | some pos' ↦ match_final hay final pos'
]

unfoldable pub substring_matches : Bytes → Bytes → List Bytes → Bytes → Bool
unfolding match_behind equal to_lower_ascii
substring_matches haystack initial any final =
    let hay = to_lower_ascii haystack in
    let initial' = to_lower_ascii initial in
    if is_empty initial
    then match_behind hay 0 any final
    else if ltb (length hay) (length initial') || not (equal (take (length initial') hay) initial')
    then false
    else match_behind hay (length initial') any final

-- the loops over the values of an attribute
unfoldable pub any_equals : Bytes → List Bytes → Bool
unfolding iequals
any_equals wanted [] = false
any_equals wanted (value ∷ values) = iequals value wanted || any_equals wanted values

unfoldable pub any_substring : Bytes → List Bytes → Bytes → List Bytes → Bool
unfolding substring_matches
any_substring initial any final [] = false
any_substring initial any final (value ∷ values) =
    substring_matches value initial any final || any_substring initial any final values

unfoldable mutual
  unfolding find_attribute any_equals any_substring

  pub node_matches : FilterNode → DirectoryEntry → Bool
  node_matches (node FilterType.true_filter _ _ _ _ _ _) entry = true
  node_matches (node FilterType.false_filter _ _ _ _ _ _) entry = false
  node_matches (node FilterType.and _ _ children _ _ _) entry = all_match children entry
  node_matches (node FilterType.or _ _ children _ _ _) entry = any_matches children entry
  node_matches (node FilterType.not _ _ nil _ _ _) entry = false
  node_matches (node FilterType.not _ _ (cons child nil) _ _ _) entry =
      not (node_matches child entry)
  node_matches (node FilterType.not _ _ (cons child (cons _ _)) _ _ _) entry = false
  node_matches (node FilterType.present attribute _ _ _ _ _) entry =
      elim (find_attribute entry attribute) [ none ↦ false | some values ↦ true ]
  node_matches (node FilterType.equality attribute value _ _ _ _) entry =
      elim (find_attribute entry attribute) [ none ↦ false | some values ↦ any_equals value values ]
  node_matches (node FilterType.substring attribute _ _ initial any final) entry =
      elim (find_attribute entry attribute) [
        | none ↦ false
        | some values ↦ any_substring initial any final values
      ]

  -- the loops over the children
  pub all_match : FilterNodes → DirectoryEntry → Bool
  all_match nil entry = true
  all_match (cons child children) entry = node_matches child entry && all_match children entry

  pub any_matches : FilterNodes → DirectoryEntry → Bool
  any_matches nil entry = false
  any_matches (cons child children) entry = node_matches child entry || any_matches children entry

-- `SearchFilter::matches`
unfoldable pub matches : SearchFilter → DirectoryEntry → Bool
unfolding node_matches
matches filter entry = filter.valid && node_matches filter.root entry
