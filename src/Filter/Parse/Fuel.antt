-- ===== src/Filter/Parse/Fuel.antt =====
-- protocol/filter.cpp: the fuel of the parser. Each call starts behind one more parenthesis.
use simple_ldapd.Prelude.{
  ℕ, zero, suc, ◌≤◌, ◌<◌, ◌≡◌, refl, ◌∙◌, Bool, true, false, some, [], ◌∷◌, arith, ◌==◌, length,
  Bool-cases, Option-cases, inl, inr,
}
use simple_ldapd.Prelude.Bytes.{Bytes}
use simple_ldapd.Text.{is_space, drop_while, drop_until}
use simple_ldapd.Filter.{FilterType, FilterNodes, nil}
use simple_ldapd.Filter.Parse.{
  Parsed, skip_space, behind_char, ends_attribute, ends_value, push_back, parse_item, parse_list,
  close_filter, parse_inner, parse_filter, parse_kind,
}

length-drop_while : (p : ℕ → Bool) (s : Bytes) → length (drop_while p s) ≤ length s
unfolding drop_while
length-drop_while p [] = omega arith
length-drop_while p (c ∷ s) = ground (arith, length-drop_while p s)

length-drop_until : (p : ℕ → Bool) (s : Bytes) → length (drop_until p s) ≤ length s
unfolding drop_until
length-drop_until p [] = omega arith
length-drop_until p (c ∷ s) = ground (arith, length-drop_until p s)

length-skip_space : (s : Bytes) → length (skip_space s) ≤ length s
unfolding skip_space
length-skip_space s = length-drop_while is_space s

length-behind_char :
    (c : ℕ) (s behind : Bytes) → behind_char c s ≡ some behind → length s ≡ suc (length behind)
length-behind_char c [] behind e = cc
length-behind_char c (x ∷ s) behind e = elim (Bool-cases (x == c)) [
  | inl h ↦ ground (arith, h)
  | inr h ↦ ground (arith, h)
]

-- no parser moves back
abbrev Within : Bytes → Parsed → Type 0
Within text p = length p.rest ≤ length text

parse_item-Within : (text : Bytes) → Within text (parse_item text)
unfolding parse_item
parse_item-Within text =
    let start = length-drop_until ends_attribute text in
    elim (Option-cases (behind_char b'=' (drop_until ends_attribute text))) [
      | inl e ↦ ground (arith, e, start)
      | inr (behind, e) ↦
          let here = length-behind_char b'=' (drop_until ends_attribute text) behind e in
          let value = length-drop_until ends_value behind in ground (arith, e, start, here, value)
    ]

parse_list-Within :
    (f : Bytes → Parsed) (type : FilterType) (rounds : ℕ) (children : FilterNodes) (text : Bytes)
    → ((t : Bytes) → Within t (f t))
    → Within text (parse_list f type rounds children text)
unfolding parse_list
parse_list-Within f type zero children text h = omega arith
parse_list-Within f type (suc rounds) children text h =
    let once = h text in
    let later = parse_list-Within f type rounds (push_back children (f text).out) (f text).rest h in
    ground (arith, once, later)

close_filter-Within : (text : Bytes) (p : Parsed) → Within text p → Within text (close_filter p)
unfolding close_filter
close_filter-Within text p h =
    let space = length-skip_space p.rest in
    elim (Option-cases (behind_char b')' (skip_space p.rest))) [
      | inl f ↦ ground (arith, f, space)
      | inr (behind, f) ↦
          let here = length-behind_char b')' (skip_space p.rest) behind f in
          ground (arith, f, space, here)
    ]

parse_inner-Within :
    (f : Bytes → Parsed) (rounds : ℕ) (text : Bytes)
    → ((t : Bytes) → Within t (f t))
    → Within text (parse_inner f rounds text)
unfolding parse_inner
parse_inner-Within f rounds [] h = omega arith
parse_inner-Within f rounds (c ∷ text) h =
    close_filter-Within (c ∷ text) (parse_kind f rounds c text) (
      ground (
        arith,
        parse_list-Within f FilterType.and rounds nil text h,
        parse_list-Within f FilterType.or rounds nil text h,
        h text,
        parse_item-Within (c ∷ text),
      ))

parse_filter-Within : (fuel : ℕ) (text : Bytes) → Within text (parse_filter fuel text)
unfolding parse_filter
parse_filter-Within zero text = omega arith
parse_filter-Within (suc fuel) text =
    let space = length-skip_space text in
    elim (Option-cases (behind_char b'(' (skip_space text))) [
      | inl e ↦ ground (arith, e, space)
      | inr (behind, e) ↦
          let here = length-behind_char b'(' (skip_space text) behind e in
          let space' = length-skip_space behind in
          let inner =
            parse_inner-Within (parse_filter fuel) fuel (skip_space behind)
              (parse_filter-Within fuel) in
          ground (arith, e, space, here, space', inner)
    ]

-- a filter that is read takes up some of the text
parse_filter-progress :
    (fuel : ℕ) (text : Bytes)
    → (parse_filter fuel text).ok ≡ true
    → length (parse_filter fuel text).rest < length text
unfolding parse_filter
parse_filter-progress zero text h = cc
parse_filter-progress (suc fuel) text h =
    let space = length-skip_space text in
    elim (Option-cases (behind_char b'(' (skip_space text))) [
      | inl e ↦ ground (arith, e, space)
      | inr (behind, e) ↦
          let here = length-behind_char b'(' (skip_space text) behind e in
          let space' = length-skip_space behind in
          let inner =
            parse_inner-Within (parse_filter fuel) fuel (skip_space behind)
              (parse_filter-Within fuel) in
          ground (arith, e, space, here, space', inner)
    ]

-- a parser that does not run out on texts of at most a length
abbrev Finishes : ℕ → (Bytes → Parsed) → Type 0
Finishes limit f = (t : Bytes) → length t ≤ limit → (f t).exhausted ≡ false

abbrev Advances : (Bytes → Parsed) → Type 0
Advances f = (t : Bytes) → (f t).ok ≡ true → length (f t).rest < length t

parse_list_ends :
    (limit : ℕ) (f : Bytes → Parsed) (type : FilterType) (rounds : ℕ) (children : FilterNodes)
    (text : Bytes)
    → Finishes limit f
    → Advances f
    → length text ≤ limit
    → length text < rounds
    → (parse_list f type rounds children text).exhausted ≡ false
unfolding parse_list
parse_list_ends limit f type zero children text e a l p = absurd (omega arith)
parse_list_ends limit f type (suc rounds) children text e a l p = elim (Bool-cases (f text).ok) [
  | inr bad ↦ ground (arith, bad, e text l)
  | inl good ↦
      let less = a text good in
      ground (
        arith,
        good,
        parse_list_ends limit f type rounds (push_back children (f text).out) (f text).rest e a
            (omega arith) (omega arith),
      )
]

parse_item_ends : (text : Bytes) → (parse_item text).exhausted ≡ false
unfolding parse_item
parse_item_ends text = ground arith

close_filter_ends : (p : Parsed) → (close_filter p).exhausted ≡ p.exhausted
unfolding close_filter
close_filter_ends p = ground arith

parse_inner_ends :
    (f : Bytes → Parsed) (rounds : ℕ) (text : Bytes)
    → Finishes (length text) f
    → Advances f
    → length text ≤ rounds
    → (parse_inner f rounds text).exhausted ≡ false
unfolding parse_inner
parse_inner_ends f rounds [] e a p = refl
parse_inner_ends f rounds (c ∷ text) e a p =
    let list : (type : FilterType) → (parse_list f type rounds nil text).exhausted ≡ false = λ type.
      parse_list_ends (length text) f type rounds nil text (λ t l. e t (omega arith)) a
        (omega arith) (omega arith) in
    close_filter_ends (parse_kind f rounds c text)
    ∙ ground (
      arith,
      list FilterType.and,
      list FilterType.or,
      e text (omega arith),
      parse_item_ends (c ∷ text),
    )

-- With fuel above the length of the text, as `parse` gives it, neither the nesting nor a list of
-- filters ever runs out of its fuel, of which the parser would tell.
pub parse_filter_ends :
    (fuel : ℕ) (text : Bytes) → length text < fuel → (parse_filter fuel text).exhausted ≡ false
unfolding parse_filter
parse_filter_ends zero text p = absurd (omega arith)
parse_filter_ends (suc fuel) text p =
    let space = length-skip_space text in
    elim (Option-cases (behind_char b'(' (skip_space text))) [
      | inl e ↦ ground (arith, e)
      | inr (behind, e) ↦
          let here = length-behind_char b'(' (skip_space text) behind e in
          let space' = length-skip_space behind in
          ground (
            arith,
            e,
            parse_inner_ends (parse_filter fuel) fuel (skip_space behind)
                (λ t l. parse_filter_ends fuel t (omega arith)) (parse_filter-progress fuel)
                (omega arith),
          )
    ]
