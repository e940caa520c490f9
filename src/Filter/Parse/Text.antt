-- ===== src/Filter/Parse/Text.antt =====
-- protocol/filter.cpp: a filter written out as text is read back as the same tree.
use simple_ldapd.Prelude.{
  ℕ, zero, suc, ◌≤◌, ◌<◌, ◌≡◌, refl, ap, ◌∙◌, sym, true, false, not, List, [], ◌∷◌, ◌++◌, arith,
  length, length-append,
}
use simple_ldapd.Prelude.Bytes.{Bytes, codes, equal}
use simple_ldapd.Text.{is_space}
use simple_ldapd.Text.Scan.{
  every, Free, every-append, every-weaken, drop_while-reverse, take_until-append, drop_until-append,
}
use simple_ldapd.Filter.{
  FilterType, FilterNode, node, FilterNodes, nil, cons, and_node, or_node, not_node, equality_node,
  present_node, substring_node,
}
use simple_ldapd.Filter.Parse.{
  Parsed, skip_space, ends_attribute, ends_value, push_back, item_node, trim_end, node_of_parts,
  parse_item, parse_list, close_filter, parse_inner, parse_filter, parse_kind, parse, list_node,
  is_nil, next_is, last_part, negated,
}
use simple_ldapd.Filter.Parse.Plain.{
  is_special, ends_plain, split_plain, split_starred, split_parts, starred, plain_parts, written,
  written_all, plain_attribute, plain_value, IsPlain, plain_and, plain_or, plain_not,
  plain_equality, plain_present, plain_substring, ArePlain, plain_nil, plain_cons,
}

abbrev done : FilterNode → Bytes → Parsed
done n rest = record { ok = true; rest = rest; out = n; exhausted = false }

attribute-Free : (a : Bytes) → plain_attribute a ≡ true → Free ends_attribute a × Free is_space a
attribute-Free a h = (
  every-weaken (λ c. not (is_special c)) (λ c. not (ends_attribute c)) a (λ c. ground arith)
      (ground arith),
  every-weaken (λ c. not (is_special c)) (λ c. not (is_space c)) a (λ c. ground arith)
      (ground arith),
)

trim_end-plain : (a : Bytes) → plain_attribute a ≡ true → trim_end a ≡ a
unfolding trim_end
trim_end-plain a h = drop_while-reverse is_space a (attribute-Free a h).1

parse_item-written :
    (a v rest : Bytes)
    → plain_attribute a ≡ true
    → Free ends_value v
    → parse_item (a ++ (b'=' ∷ (v ++ (b')' ∷ rest)))) ≡ done (item_node a v) (b')' ∷ rest)
unfolding parse_item
parse_item-written a v rest h k =
    let cut =
      drop_until-append ends_attribute a b'=' (v ++ (b')' ∷ rest)) (attribute-Free a h).0 refl in
    let taken =
      take_until-append ends_attribute a b'=' (v ++ (b')' ∷ rest)) (attribute-Free a h).0 refl in
    ground (
      arith,
      cut,
      taken,
      trim_end-plain a h,
      drop_until-append ends_value v b')' rest k refl,
      take_until-append ends_value v b')' rest k refl,
    )

-- an item behind the parenthesis that opens it
parse_filter-item :
    (fuel : ℕ) (a v rest : Bytes)
    → plain_attribute a ≡ true
    → Free ends_value v
    → parse_filter (suc fuel) (b'(' ∷ (a ++ (b'=' ∷ (v ++ (b')' ∷ rest)))))
      ≡ done (item_node a v) rest
unfolding parse_filter skip_space parse_inner close_filter every
parse_filter-item fuel [] v rest h k = cc
parse_filter-item fuel (c ∷ a) v rest h k =
    let item = parse_item-written (c ∷ a) v rest h k in
    let here : skip_space (c ∷ (a ++ (b'=' ∷ (v ++ (b')' ∷ rest)))))
        ≡ c ∷ (a ++ (b'=' ∷ (v ++ (b')' ∷ rest)))) =
      ground arith in
    let kind : parse_kind (parse_filter fuel) fuel c (a ++ (b'=' ∷ (v ++ (b')' ∷ rest))))
        ≡ done (item_node (c ∷ a) v) (b')' ∷ rest) =
      ground (arith, item) in
    ap (parse_inner (parse_filter fuel) fuel) here ∙ ap close_filter kind

value-Free : (v : Bytes) → plain_value v ≡ true → Free ends_value v
value-Free v h =
    every-weaken (λ c. not (ends_plain c)) (λ c. not (ends_value c)) v (λ c. ground arith) h

starred-Free :
    (any : List Bytes) (final : Bytes)
    → plain_parts any ≡ true
    → plain_value final ≡ true
    → Free ends_value (starred any final)
unfolding every
starred-Free [] final h k = value-Free final k
starred-Free (part ∷ any) final h k =
    every-append (λ c. not (ends_value c)) part (starred any final) (value-Free part (ground arith))
      (starred-Free any final (ground arith) k)

plain_not_star : (v : Bytes) → plain_value v ≡ true → equal v (codes "*") ≡ false
unfolding every equal
plain_not_star [] h = refl
plain_not_star (c ∷ v) h = ground arith

item_node-equality : (a v : Bytes) → plain_value v ≡ true → item_node a v ≡ equality_node a v
unfolding item_node node_of_parts
item_node-equality a v h = rw (plain_not_star v h, split_plain [] v h) refl

star-Free : Free ends_value (codes "*")
unfolding every
star-Free = refl

item_node-star : (a : Bytes) → item_node a (codes "*") ≡ present_node a
unfolding item_node equal
item_node-star a = refl

item_node-substring :
    (a initial : Bytes) (any : List Bytes) (final : Bytes)
    → plain_value initial ≡ true
    → plain_parts any ≡ true
    → plain_value final ≡ true
    → equal (initial ++ starred any final) (codes "*") ≡ false
    → item_node a (initial ++ starred any final) ≡ substring_node a initial any final
unfolding item_node node_of_parts
item_node-substring a initial [] final h k l e =
    rw (e, split_starred [] initial [] final h k l) refl
item_node-substring a initial (part ∷ any) final h k l e =
    let (m, n) = split_parts (part ∷ any) final k in
    rw (e, split_starred [] initial (part ∷ any) final h k l)
      (ap (λ t. substring_node a initial t (last_part (part ∷ (any ++ (final ∷ []))))) m
        ∙ ap (λ t. substring_node a initial (part ∷ any) t) n)

written_opens : (n : FilterNode) (rest : Bytes) → next_is b'(' (written n rest) ≡ true
written_opens (node FilterType.and _ _ _ _ _ _) rest = refl
written_opens (node FilterType.or _ _ _ _ _ _) rest = refl
written_opens (node FilterType.not _ _ _ _ _ _) rest = refl
written_opens (node FilterType.equality _ _ _ _ _ _) rest = refl
written_opens (node FilterType.present _ _ _ _ _ _) rest = refl
written_opens (node FilterType.substring _ _ _ _ _ _) rest = refl
written_opens (node FilterType.true_filter _ _ _ _ _ _) rest = refl
written_opens (node FilterType.false_filter _ _ _ _ _ _) rest = refl

mutual
  length-written : (n : FilterNode) (rest : Bytes) → length rest < length (written n rest)
  length-written (node FilterType.and _ _ children _ _ _) rest =
      omega (arith, length-written_all children (b')' ∷ rest))
  length-written (node FilterType.or _ _ children _ _ _) rest =
      omega (arith, length-written_all children (b')' ∷ rest))
  length-written (node FilterType.not _ _ children _ _ _) rest =
      omega (arith, length-written_all children (b')' ∷ rest))
  length-written (node FilterType.equality a v _ _ _ _) rest =
      omega (arith, length-append {0}, length-append v (b')' ∷ rest))
  length-written (node FilterType.present a _ _ _ _ _) rest = omega (arith, length-append {0})
  length-written (node FilterType.substring a _ _ initial any final) rest =
      omega (arith, length-append {0}, length-append (initial ++ starred any final) (b')' ∷ rest))
  length-written (node FilterType.true_filter _ _ _ _ _ _) rest = omega arith
  length-written (node FilterType.false_filter _ _ _ _ _ _) rest = omega arith

  length-written_all :
      (ns : FilterNodes) (rest : Bytes) → length rest ≤ length (written_all ns rest)
  length-written_all nil rest = omega arith
  length-written_all (cons n ns) rest =
      omega (arith, length-written n (written_all ns rest), length-written_all ns rest)

abbrev join : FilterNodes → FilterNodes → FilterNodes
join nil ns = ns
join (cons m ms) ns = cons m (join ms ns)

join-nil : (ms : FilterNodes) → join ms nil ≡ ms
join-nil nil = refl
join-nil (cons m ms) = ap (cons m) (join-nil ms)

join-push_back :
    (ms : FilterNodes) (n : FilterNode) (ns : FilterNodes)
    → join (push_back ms n) ns ≡ join ms (cons n ns)
unfolding push_back
join-push_back nil n ns = refl
join-push_back (cons m ms) n ns = ap (cons m) (join-push_back ms n ns)

abbrev listed : FilterType → FilterNodes → Bytes → Parsed
listed type ns rest = record {
  ok = not (is_nil ns);
  rest = rest;
  out = list_node type ns;
  exhausted = false;
}

parse_list_step :
    (f : Bytes → Parsed) (type : FilterType) (rounds : ℕ) (ms : FilterNodes) (text : Bytes)
    (n : FilterNode) (rest : Bytes)
    → next_is b'(' text ≡ true
    → f text ≡ done n rest
    → parse_list f type (suc rounds) ms text ≡ parse_list f type rounds (push_back ms n) rest
unfolding parse_list
parse_list_step f type rounds ms text n rest h e = ground (arith, h, e)

parse_list_end :
    (f : Bytes → Parsed) (type : FilterType) (rounds : ℕ) (ms : FilterNodes) (rest : Bytes)
    → parse_list f type (suc rounds) ms (b')' ∷ rest) ≡ listed type ms (b')' ∷ rest)
unfolding parse_list
parse_list_end f type rounds ms rest = refl

-- the three filters that hold others
parse_and :
    (fuel : ℕ) (ns : FilterNodes) (n : FilterNode) (text rest : Bytes)
    → parse_list (parse_filter fuel) FilterType.and fuel nil text
      ≡ listed FilterType.and (cons n ns) (b')' ∷ rest)
    → parse_filter (suc fuel) (b'(' ∷ b'&' ∷ text) ≡ done (and_node (cons n ns)) rest
unfolding parse_filter skip_space parse_inner close_filter
parse_and fuel ns n text rest h = ap close_filter h

parse_or :
    (fuel : ℕ) (ns : FilterNodes) (n : FilterNode) (text rest : Bytes)
    → parse_list (parse_filter fuel) FilterType.or fuel nil text
      ≡ listed FilterType.or (cons n ns) (b')' ∷ rest)
    → parse_filter (suc fuel) (b'(' ∷ b'|' ∷ text) ≡ done (or_node (cons n ns)) rest
unfolding parse_filter skip_space parse_inner close_filter
parse_or fuel ns n text rest h = ap close_filter h

parse_not :
    (fuel : ℕ) (n : FilterNode) (text rest : Bytes)
    → parse_filter fuel text ≡ done n (b')' ∷ rest)
    → parse_filter (suc fuel) (b'(' ∷ b'!' ∷ text) ≡ done (not_node (cons n nil)) rest
unfolding parse_filter skip_space parse_inner close_filter
parse_not fuel n text rest h = ap (λ p. close_filter (negated p)) h

mutual
  written_back :
      (fuel : ℕ) (n : FilterNode) (rest : Bytes)
      → IsPlain n
      → length (written n rest) < fuel
      → parse_filter fuel (written n rest) ≡ done n rest
  written_back zero n rest p l = absurd (omega arith)
  written_back (suc fuel) _ rest (plain_and {child = n} {children = ns} ps) l =
      parse_and fuel ns n _ rest
        (list_back fuel fuel FilterType.and nil (cons n ns) rest ps (omega arith) (omega arith))
  written_back (suc fuel) _ rest (plain_or {child = n} {children = ns} ps) l =
      parse_or fuel ns n _ rest
        (list_back fuel fuel FilterType.or nil (cons n ns) rest ps (omega arith) (omega arith))
  written_back (suc fuel) _ rest (plain_not {child = n} p) l =
      parse_not fuel n _ rest (written_back fuel n (b')' ∷ rest) p (omega arith))
  written_back (suc fuel) _ rest (plain_equality {attribute = a} {value = v} h k) l =
      parse_filter-item fuel a v rest h (value-Free v k)
      ∙ ap (λ n. done n rest) (item_node-equality a v k)
  written_back (suc fuel) _ rest (plain_present {attribute = a} h) l =
      parse_filter-item fuel a (codes "*") rest h star-Free
      ∙ ap (λ n. done n rest) (item_node-star a)
  written_back (suc fuel) _ rest
        (plain_substring {attribute = a} {initial = initial} {any = any} {final = final} h k m f e)
        l =
      parse_filter-item fuel a (initial ++ starred any final) rest h (
        every-append (λ c. not (ends_value c)) initial (starred any final) (value-Free initial k)
          (starred-Free any final m f))
      ∙ ap (λ n. done n rest) (item_node-substring a initial any final k m f e)

  list_back :
      (fuel rounds : ℕ) (type : FilterType) (ms ns : FilterNodes) (rest : Bytes)
      → ArePlain ns
      → length (written_all ns (b')' ∷ rest)) < fuel
      → length (written_all ns (b')' ∷ rest)) < rounds
      → parse_list (parse_filter fuel) type rounds ms (written_all ns (b')' ∷ rest))
        ≡ listed type (join ms ns) (b')' ∷ rest)
  list_back fuel zero type ms ns rest ps l k = absurd (omega arith)
  list_back fuel (suc rounds) type ms _ rest plain_nil l k =
      parse_list_end (parse_filter fuel) type rounds ms rest
      ∙ ap (λ t. listed type t (b')' ∷ rest)) (sym (join-nil ms))
  list_back fuel (suc rounds) type ms _ rest (plain_cons {child = n} {children = ns} p ps) l k =
      let behind = written_all ns (b')' ∷ rest) in
      let less = length-written n behind in
      parse_list_step (parse_filter fuel) type rounds ms (written n behind) n behind
        (written_opens n behind) (written_back fuel n behind p l)
      ∙ list_back fuel rounds type (push_back ms n) ns rest ps (omega arith) (omega arith)
      ∙ ap (λ t. listed type t (b')' ∷ rest)) (join-push_back ms n ns)

-- The text of a plain filter is read back as the same tree, and as a valid filter.
pub parse-written :
    (n : FilterNode)
    → IsPlain n
    → parse (written n []) ≡ record { text = written n []; valid = true; root = n }
unfolding parse skip_space
parse-written n p =
    let back = written_back (suc (length (written n []))) n [] p (omega arith) in rw back refl
