-- ===== src/Filter/Parse/Plain.antt =====
-- protocol/filter.cpp: the text of a filter, and the cut of a value at its stars.
use simple_ldapd.Prelude.{
  ℕ, ◌≡◌, refl, ap, ◌∙◌, sym, Bool, true, false, not, ◌&&◌, ◌||◌, List, [], ◌∷◌, ◌++◌, arith, ◌==◌,
  append_assoc, append-nil,
}
use simple_ldapd.Prelude.Bytes.{Bytes, codes, is_empty, equal}
use simple_ldapd.Text.{is_space}
use simple_ldapd.Text.Scan.{every, Free}
use simple_ldapd.Filter.{
  FilterType, FilterNode, node, FilterNodes, nil, cons, and_node, or_node, not_node, equality_node,
  present_node, substring_node,
}
use simple_ldapd.Filter.Parse.{ends_attribute, ends_value, split_stars, middle_parts, last_part}

-- the characters that a type of an attribute has none of: the structure of a filter, and space
abbrev pub is_special : ℕ → Bool
is_special c = ends_attribute c || (is_space c || (c == b'&' || (c == b'|' || c == b'!')))

-- the characters that a plain value has none of
abbrev pub ends_plain : ℕ → Bool
ends_plain c = ends_value c || (c == b'*' || c == b'\\')

pub split_plain :
    (current value : Bytes)
    → Free ends_plain value
    → split_stars false current value ≡ (current ++ value) ∷ []
unfolding split_stars every
split_plain current [] h = ap (λ t. t ∷ []) (sym (append-nil current))
split_plain current (c ∷ value) h =
    let e : c == b'*' ≡ false = ground arith in
    let f : c == b'\\' ≡ false = ground arith in
    rw (e, f)
      (split_plain (current ++ (c ∷ [])) value (ground arith)
        ∙ ap (λ t. t ∷ []) (append_assoc current (c ∷ []) value))

-- the value of a substring filter behind its first part
abbrev pub starred : List Bytes → Bytes → Bytes
starred [] final = b'*' ∷ final
starred (part ∷ any) final = b'*' ∷ (part ++ starred any final)

abbrev pub plain_parts : List Bytes → Bool
plain_parts [] = true
plain_parts (part ∷ any) =
    not (is_empty part) && every (λ c. not (ends_plain c)) part && plain_parts any

-- the text of a filter, before the rest of the text; the constants have none
abbrev mutual
  pub written : FilterNode → Bytes → Bytes
  written (node FilterType.and _ _ children _ _ _) rest =
      b'(' ∷ b'&' ∷ written_all children (b')' ∷ rest)
  written (node FilterType.or _ _ children _ _ _) rest =
      b'(' ∷ b'|' ∷ written_all children (b')' ∷ rest)
  written (node FilterType.not _ _ children _ _ _) rest =
      b'(' ∷ b'!' ∷ written_all children (b')' ∷ rest)
  written (node FilterType.equality attribute value _ _ _ _) rest =
      b'(' ∷ (attribute ++ (b'=' ∷ (value ++ (b')' ∷ rest))))
  written (node FilterType.present attribute _ _ _ _ _) rest =
      b'(' ∷ (attribute ++ (b'=' ∷ b'*' ∷ b')' ∷ rest))
  written (node FilterType.substring attribute _ _ initial any final) rest =
      b'(' ∷ (attribute ++ (b'=' ∷ ((initial ++ starred any final) ++ (b')' ∷ rest))))
  written (node FilterType.true_filter _ _ _ _ _ _) rest = b'(' ∷ b')' ∷ rest
  written (node FilterType.false_filter _ _ _ _ _ _) rest = b'(' ∷ b')' ∷ rest

  pub written_all : FilterNodes → Bytes → Bytes
  written_all nil rest = rest
  written_all (cons child children) rest = written child (written_all children rest)

abbrev pub plain_attribute : Bytes → Bool
plain_attribute attribute = not (is_empty attribute) && every (λ c. not (is_special c)) attribute

abbrev pub plain_value : Bytes → Bool
plain_value value = every (λ c. not (ends_plain c)) value

-- the trees whose types and values are plain and whose lists are not empty
mutual
  pub data IsPlain : FilterNode → Type 0 where
    plain_and :
        {child : FilterNode} {children : FilterNodes}
        → ArePlain (cons child children)
        → IsPlain (and_node (cons child children))
    plain_or :
        {child : FilterNode} {children : FilterNodes}
        → ArePlain (cons child children)
        → IsPlain (or_node (cons child children))
    plain_not : {child : FilterNode} → IsPlain child → IsPlain (not_node (cons child nil))
    plain_equality :
        {attribute value : Bytes}
        → plain_attribute attribute ≡ true
        → plain_value value ≡ true
        → IsPlain (equality_node attribute value)
    plain_present :
        {attribute : Bytes} → plain_attribute attribute ≡ true → IsPlain (present_node attribute)
    plain_substring :
        {attribute initial : Bytes} {any : List Bytes} {final : Bytes}
        → plain_attribute attribute ≡ true
        → plain_value initial ≡ true
        → plain_parts any ≡ true
        → plain_value final ≡ true
        → equal (initial ++ starred any final) (codes "*") ≡ false
        → IsPlain (substring_node attribute initial any final)

  pub data ArePlain : FilterNodes → Type 0 where
    plain_nil : ArePlain nil
    plain_cons :
        {child : FilterNode} {children : FilterNodes}
        → IsPlain child
        → ArePlain children
        → ArePlain (cons child children)

pub split_starred :
    (current initial : Bytes) (any : List Bytes) (final : Bytes)
    → plain_value initial ≡ true
    → plain_parts any ≡ true
    → plain_value final ≡ true
    → split_stars false current (initial ++ starred any final)
      ≡ (current ++ initial) ∷ (any ++ (final ∷ []))
unfolding split_stars every
split_starred current [] [] final h k l =
    ap (λ t. t ∷ split_stars false [] final) (sym (append-nil current))
    ∙ ap (λ t. (current ++ []) ∷ t) (split_plain [] final l)
split_starred current [] (part ∷ any) final h k l =
    ap (λ t. t ∷ split_stars false [] (part ++ starred any final)) (sym (append-nil current))
    ∙ ap (λ t. (current ++ []) ∷ t)
        (split_starred [] part any final (ground arith) (ground arith) l)
split_starred current (c ∷ initial) any final h k l =
    let e : c == b'*' ≡ false = ground arith in
    let f : c == b'\\' ≡ false = ground arith in
    rw (e, f)
      (split_starred (current ++ (c ∷ [])) initial any final (ground arith) k l
        ∙ ap (λ t. t ∷ (any ++ (final ∷ []))) (append_assoc current (c ∷ []) initial))

pub split_parts :
    (any : List Bytes) (final : Bytes)
    → plain_parts any ≡ true
    → (middle_parts (any ++ (final ∷ [])) ≡ any) × (last_part (any ++ (final ∷ [])) ≡ final)
split_parts [] final h = (refl, refl)
split_parts (part ∷ []) final h = ground (arith, split_parts [] final refl)
split_parts (part ∷ part' ∷ any) final h = ground (arith, split_parts (part' ∷ any) final)
