-- ===== src/Schema/Parser.antt =====
-- schema/registry.cpp: the parser of a schema file. A position is the text behind it.
use simple_ldapd.Prelude.{
  ℕ, zero, suc, Bool, true, false, not, ◌&&◌, ◌||◌, Option, none, some, List, [], ◌∷◌, leb, ◌==◌,
  if◌then◌else◌, length, drop,
}
use simple_ldapd.Prelude.Bytes.{Bytes, codes}
use simple_ldapd.Text.{is_space, drop_while, take_until, drop_until}
use simple_ldapd.Text.Numbers.{is_digit}
use simple_ldapd.Dn.{iequals}
use simple_ldapd.Schema.{SchemaAttribute, SchemaObjectClass, abstract, structural, auxiliary}

-- the loop of `stripComments`, inside a quotation or not, and inside a comment or not
unfoldable pub strip_from : Bool → Bool → Bytes → Bytes
strip_from in_quote in_comment [] = []
strip_from in_quote in_comment (c ∷ text) =
    let comment = if in_comment then not (c == b'\n') else not in_quote && c == b'#' in
    let quote = if in_comment then in_quote else (if c == 39 then not in_quote else in_quote) in
    let rest = strip_from quote comment text in if comment then rest else c ∷ rest

unfoldable pub strip_comments : Bytes → Bytes
unfolding strip_from
strip_comments text = strip_from false false text

unfoldable pub skip : Bytes → Bytes
unfolding is_space drop_while
skip text = drop_while is_space text

abbrev first_or_nul : Bytes → ℕ
first_or_nul [] = 0
first_or_nul (c ∷ text) = c

unfoldable pub peek : Bytes → ℕ
unfolding skip
peek text = first_or_nul (skip text)

-- the text behind the character that is wanted, other than NUL
unfoldable pub consume : ℕ → Bytes → Option Bytes
unfolding peek skip
consume expected text = if peek text == expected then some (drop 1 (skip text)) else none

abbrev is_quote : ℕ → Bool
is_quote c = c == 39

abbrev behind_quote : Bytes → Bytes → Option (Bytes × Bytes)
behind_quote value [] = none
behind_quote value (c ∷ rest) = some (value, rest)

abbrev quoted : Bytes → Option (Bytes × Bytes)
quoted [] = none
quoted (c ∷ text) =
    if is_quote c then behind_quote (take_until is_quote text) (drop_until is_quote text) else none

unfoldable pub read_quoted : Bytes → Option (Bytes × Bytes)
unfolding skip take_until drop_until
read_quoted text = quoted (skip text)

abbrev is_alnum : ℕ → Bool
is_alnum c = is_digit c || ((leb b'A' c && leb c b'Z') || (leb b'a' c && leb c b'z'))

abbrev starts_word : ℕ → Bool
starts_word c = is_alnum c || (c == b'.' || (c == b'-' || c == b'{'))

abbrev ends_word : ℕ → Bool
ends_word c =
    not (is_alnum c || (c == b'.' || (c == b'-' || (c == b'{' || (c == b'}' || c == b'_')))))

abbrev word : Bytes → Option (Bytes × Bytes)
word [] = none
word (c ∷ text) =
    if starts_word c
    then some (take_until ends_word (c ∷ text), drop_until ends_word (c ∷ text))
    else none

unfoldable pub read_word : Bytes → Option (Bytes × Bytes)
unfolding skip take_until drop_until
read_word text = word (skip text)

unfoldable pub read_name : Bytes → Option (Bytes × Bytes)
unfolding peek read_quoted read_word
read_name text = if is_quote (peek text) then read_quoted text else read_word text

abbrev before_names : Bytes → Option (List Bytes × Bytes) → Option (List Bytes × Bytes)
before_names name none = none
before_names name (some (names, rest)) = some (name ∷ names, rest)

abbrev no_names : Option Bytes → Option (List Bytes × Bytes)
no_names none = none
no_names (some rest) = some ([], rest)

-- The loop of `readNameList` and, where dollars are skipped, of `readDollarList`. A round takes at
-- least one character.
unfoldable pub read_names : Bool → ℕ → Bytes → Option (List Bytes × Bytes)
unfolding peek consume read_name
read_names dollars zero text = none
read_names dollars (suc rounds) text = elim (peek text == b')' || peek text == 0) [
  | true ↦ no_names (consume b')' text)
  | false ↦ elim (dollars && peek text == b'$') [
    | true ↦ read_names dollars rounds (drop 1 (skip text))
    | false ↦ elim (read_name text) [
      | none ↦ none
      | some (name, rest) ↦ before_names name (read_names dollars rounds rest)
    ]
  ]
]

abbrev one_name : Option (Bytes × Bytes) → Option (List Bytes × Bytes)
one_name none = none
one_name (some (name, rest)) = some (name ∷ [], rest)

-- `readNameList` and `readDollarList`
unfoldable pub read_list : Bool → Bytes → Option (List Bytes × Bytes)
unfolding peek read_names read_name
read_list dollars text =
    if peek text == b'('
    then read_names dollars (suc (length text)) (drop 1 (skip text))
    else one_name (read_name text)

-- the value that was read, put in place
abbrev pub put : {A B : Type 0} → (A → B) → Option (A × Bytes) → Option (B × Bytes)
put f none = none
put f (some (value, rest)) = some (f value, rest)

abbrev is_key : Bytes → List Bytes → Bool
is_key key [] = false
is_key key (name ∷ names) = iequals key name || is_key key names

-- the chain of keywords in `parseAttribute`
unfoldable pub attribute_field : SchemaAttribute → Bytes → Bytes → Option (SchemaAttribute × Bytes)
unfolding iequals read_list read_quoted read_name read_word
attribute_field attribute key text =
    if iequals key (codes "NAME")
    then put (λ names. record attribute { names = names }) (read_list false text)
    else if iequals key (codes "DESC")
    then put (λ unused. attribute) (read_quoted text)
    else if iequals key (codes "SUP")
    then put (λ name. record attribute { superior = name }) (read_name text)
    else if iequals key (codes "EQUALITY")
    then put (λ name. record attribute { equality = name }) (read_word text)
    else if is_key key (codes "ORDERING" ∷ codes "SUBSTR" ∷ codes "USAGE" ∷ [])
    then put (λ unused. attribute) (read_word text)
    else if iequals key (codes "SYNTAX")
    then put (λ name. record attribute { syntax = name }) (read_word text)
    else if iequals key (codes "SINGLE-VALUE")
    then some (record attribute { single_value = true }, text)
    else if is_key key (codes "COLLECTIVE" ∷ codes "NO-USER-MODIFICATION" ∷ codes "OBSOLETE" ∷ [])
    then some (attribute, text)
    else none

-- the chain of keywords in `parseObjectClass`
unfoldable pub object_class_field :
    SchemaObjectClass → Bytes → Bytes → Option (SchemaObjectClass × Bytes)
unfolding iequals read_list read_quoted
object_class_field object_class key text =
    if iequals key (codes "NAME")
    then put (λ names. record object_class { names = names }) (read_list false text)
    else if iequals key (codes "DESC")
    then put (λ unused. object_class) (read_quoted text)
    else if iequals key (codes "SUP")
    then put (λ names. record object_class { superiors = names }) (read_list true text)
    else if iequals key (codes "MUST")
    then put (λ names. record object_class { must = names }) (read_list true text)
    else if iequals key (codes "MAY")
    then put (λ names. record object_class { may = names }) (read_list true text)
    else if iequals key (codes "ABSTRACT")
    then some (record object_class { kind = abstract }, text)
    else if iequals key (codes "STRUCTURAL")
    then some (record object_class { kind = structural }, text)
    else if iequals key (codes "AUXILIARY")
    then some (record object_class { kind = auxiliary }, text)
    else if iequals key (codes "OBSOLETE")
    then some (object_class, text)
    else none
