-- ===== src/Dn/Parts.antt =====
-- The first component of a name and the rest: `dn_rdn`, `dn_parent`, `compose_dn`, `parse_rdn`.
use simple_ldapd.Prelude.{
  ℕ, zero, suc, ◌<◌, ◌≡◌, ◌≢◌, refl, ap, ◌∙◌, sym, ◌↔◌, ◌⊎◌, inl, inr, none, some, [], ◌∷◌, ◌++◌,
  arith, Option-cases, length, take, drop, length-append, take-append, length-drop,
}
use simple_ldapd.Prelude.Bytes.{Bytes}
use simple_ldapd.Dn.{find_char, dn_parent, dn_rdn, compose_dn, split_at, parse_rdn}
use simple_ldapd.Dn.Find.{
  find_char-append, find_char-eq_some, drop-suc-append, dn_parent-some, dn_rdn-some, dn_none,
}

compose_dn-cons :
    (rdn parent : Bytes) → rdn ≢ [] → parent ≢ [] → compose_dn rdn parent ≡ rdn ++ (b',' ∷ parent)
unfolding compose_dn
compose_dn-cons [] parent hr hp = absurd (hr refl)
compose_dn-cons (r ∷ rdn) [] hr hp = absurd (hp refl)
compose_dn-cons (r ∷ rdn) (p ∷ parent) hr hp = refl

compose_dn-nil : (rdn : Bytes) → compose_dn rdn [] ≡ rdn
unfolding compose_dn
compose_dn-nil rdn = refl

-- A name composed of a component without comma and a parent, neither of them empty, comes apart
-- into the two.
pub compose_dn_parts :
    (rdn parent : Bytes)
    → find_char b',' rdn ≡ none
    → rdn ≢ []
    → parent ≢ []
    → (dn_rdn (compose_dn rdn parent) ≡ rdn) × (dn_parent (compose_dn rdn parent) ≡ parent)
compose_dn_parts rdn parent free hr hp =
    let found = find_char-append b',' rdn parent free in
    let dn = rdn ++ (b',' ∷ parent) in
    rw (compose_dn-cons rdn parent hr hp) (
      dn_rdn-some dn (length rdn) found ∙ take-append rdn (b',' ∷ parent),
      dn_parent-some dn (length rdn) found ∙ drop-suc-append rdn b',' parent,
    )

-- Composing the parts of a name gives the name back, where the name holds no comma or the parts
-- before and after its first comma are not empty.
pub compose_dn-parts :
    (dn : Bytes)
    → (find_char b',' dn ≡ none) ⊎ ((dn_rdn dn ≢ []) × (dn_parent dn ≢ []))
    → compose_dn (dn_rdn dn) (dn_parent dn) ≡ dn
compose_dn-parts dn (inl free) = rw ((dn_none dn free).0, (dn_none dn free).1) (compose_dn-nil dn)
compose_dn-parts dn (inr (hr, hp)) = elim (Option-cases (find_char b',' dn)) [
  | inl free ↦ absurd (hp (dn_none dn free).1)
  | inr (i, found) ↦
      compose_dn-cons _ _ hr hp
      ∙ cc
          (dn_rdn-some dn i found, dn_parent-some dn i found, (find_char-eq_some b',' dn i found).0)
]

split_at-append :
    (t v : Bytes) → t ≢ [] → v ≢ [] → split_at (t ++ (b'=' ∷ v)) (length t) ≡ some (t, v)
split_at-append [] v ht hv = absurd (ht refl)
split_at-append t [] ht hv = absurd (hv refl)
split_at-append (x ∷ t) (y ∷ v) ht hv =
    unfold split_at in
    ground (
      arith,
      length-append t (b'=' ∷ y ∷ v),
      take-append t (b'=' ∷ y ∷ v),
      drop-suc-append t b'=' (y ∷ v),
    )

split_at-eq_some :
    (s : Bytes) (i : ℕ) (t v : Bytes)
    → split_at s i ≡ some (t, v)
    → (t ≡ take i s) × (v ≡ drop (suc i) s) × (i ≢ 0) × (suc i < length s)
unfolding split_at
split_at-eq_some s i t v h = ground arith

take-ne : (i : ℕ) (s : Bytes) → i ≢ 0 → i < length s → take i s ≢ []
take-ne zero s h k e = h refl
take-ne (suc i) [] h k e = omega arith
take-ne (suc i) (x ∷ s) h k e = cc

drop-ne : (i : ℕ) (s : Bytes) → i < length s → drop i s ≢ []
drop-ne i s k e = omega (arith, length-drop i s, ap length e)

parse_rdn-some :
    (rdn : Bytes) (i : ℕ) → find_char b'=' rdn ≡ some i → parse_rdn rdn ≡ split_at rdn i
unfolding parse_rdn
parse_rdn-some rdn i e = rw (e, parse_rdn)

parse_rdn-none : (rdn : Bytes) → find_char b'=' rdn ≡ none → parse_rdn rdn ≡ none
unfolding parse_rdn
parse_rdn-none rdn e = rw (e, parse_rdn)

-- `rdn` is a type and a value, neither empty, around its first equals sign.
abbrev pub IsRdn : Bytes → Bytes → Bytes → Type 0
IsRdn rdn t v = (rdn ≡ t ++ (b'=' ∷ v)) × (find_char b'=' t ≡ none) × (t ≢ []) × (v ≢ [])

parse_rdn-IsRdn : (rdn t v : Bytes) → parse_rdn rdn ≡ some (t, v) → IsRdn rdn t v
parse_rdn-IsRdn rdn t v h = elim (Option-cases (find_char b'=' rdn)) [
  | inl free ↦ absurd (cc (parse_rdn-none rdn free))
  | inr (i, found) ↦
      let (et, ev, ne, lt) = split_at-eq_some rdn i t v (cc (parse_rdn-some rdn i found)) in
      let (e, free, inside) = find_char-eq_some b'=' rdn i found in
      (cc, cc, λ x. take-ne i rdn ne inside (sym et ∙ x), λ x. drop-ne (suc i) rdn lt (sym ev ∙ x))
]

-- `parse_rdn` succeeds exactly on a type, an equals sign and a value, where neither is empty and
-- the type holds no equals sign; it returns the two.
pub parse_rdn_iff : (rdn t v : Bytes) → (parse_rdn rdn ≡ some (t, v)) ↔ IsRdn rdn t v
parse_rdn_iff rdn t v = (
  parse_rdn-IsRdn rdn t v,
  λ (e, free, ht, hv).
      rw e
        (parse_rdn-some _ (length t) (find_char-append b'=' t v free) ∙ split_at-append t v ht hv),
)
