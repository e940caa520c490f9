-- ===== src/Dn/Suffix.antt =====
-- What the suffix tests `dn_ends_with` and `dn_is_one_level_child` decide.
use simple_ldapd.Prelude.{
  ℕ, zero, suc, ◌-◌, ◌<◌, ◌≡◌, ◌≢◌, refl, ap, ◌∙◌, sym, ◌↔◌, ◌⊎◌, inl, inr, Bool, true, ◌&&◌, [],
  ◌∷◌, ◌++◌, arith, append_assoc, ltb, ◌==◌, Bool-cases, if◌then◌else◌, length, take, drop,
  length-append, take-append-drop,
}
use simple_ldapd.Prelude.Bytes.{Bytes, equal, equal_iff, equal_refl}
use simple_ldapd.Dn.{char_at, to_lower_ascii, dn_ends_with}
use simple_ldapd.Dn.Find.{drop-suc-append}

-- `dn` lies below `base`: some leading text and a comma stand before `base`, case aside.
abbrev pub Below : Bytes → Bytes → Type 0
Below dn base = (pre : Bytes) × (to_lower_ascii dn ≡ pre ++ (b',' ∷ to_lower_ascii base))

-- `dn` is `base` or lies below it; everything does so for the empty base.
abbrev pub Under : Bytes → Bytes → Type 0
Under dn base = (base ≡ []) ⊎ (to_lower_ascii dn ≡ to_lower_ascii base) ⊎ Below dn base

drop-eq-cons : (i : ℕ) (s : Bytes) → i < length s → drop i s ≡ char_at s i ∷ drop (suc i) s
drop-eq-cons i [] h = absurd (omega arith)
drop-eq-cons zero (x ∷ s) h = refl
drop-eq-cons (suc i) (x ∷ s) h = drop-eq-cons i s (omega arith)

char_at-append : (pre : Bytes) (c : ℕ) (s : Bytes) → char_at (pre ++ (c ∷ s)) (length pre) ≡ c
char_at-append [] c s = refl
char_at-append (x ∷ pre) c s = char_at-append pre c s

-- The test behind the early returns of `dn_ends_with`.
suffix_test : Bytes → Bytes → Bool
suffix_test hay needle =
    ltb (length needle) (length hay)
    && equal (drop (length hay - length needle) hay) needle
    && char_at hay (length hay - length needle - 1) == b','

suffix_test_parts :
    (hay needle : Bytes)
    → suffix_test hay needle ≡ true
    → (length needle < length hay)
      × (drop (length hay - length needle) hay ≡ needle)
      × (char_at hay (length hay - length needle - 1) ≡ b',')
unfolding suffix_test
suffix_test_parts hay needle h =
    ground (arith, equal_iff (drop (length hay - length needle) hay) needle)

suffix_test_sound :
    (hay needle : Bytes)
    → suffix_test hay needle ≡ true
    → (pre : Bytes) × (hay ≡ pre ++ (b',' ∷ needle))
suffix_test_sound hay needle h =
    let (shorter, tail, comma) = suffix_test_parts hay needle h in
    let i = length hay - length needle - 1 in
    let e : suc i ≡ length hay - length needle = omega arith in
    (
      take i hay,
      cc (
        take-append-drop i hay,
        drop-eq-cons i hay (omega arith),
        ap (λ k. drop k hay) e,
        tail,
        comma,
      ),
    )

suffix_test_complete : (pre needle : Bytes) → suffix_test (pre ++ (b',' ∷ needle)) needle ≡ true
unfolding suffix_test
suffix_test_complete pre needle =
    let hay : Bytes = pre ++ (b',' ∷ needle) in
    let l = length-append pre (b',' ∷ needle) in
    let e : length hay - length needle - 1 ≡ length pre = omega (arith, l) in
    let e' : length hay - length needle ≡ suc (length pre) = omega (arith, l) in
    ground (
      arith,
      l,
      e,
      e',
      char_at-append pre b',' needle,
      drop-suc-append pre b',' needle,
      equal_refl needle,
    )

dn_ends_with-cons :
    (dn : Bytes) (c : ℕ) (base : Bytes)
    → dn_ends_with dn (c ∷ base) ≡ (
        if equal (to_lower_ascii dn) (to_lower_ascii (c ∷ base))
        then true
        else suffix_test (to_lower_ascii dn) (to_lower_ascii (c ∷ base)))
unfolding dn_ends_with suffix_test
dn_ends_with-cons dn c base = refl

dn_ends_with-Under : (dn base : Bytes) → dn_ends_with dn base ≡ true → Under dn base
dn_ends_with-Under dn [] h = inl refl
dn_ends_with-Under dn (c ∷ base) h =
    let hay = to_lower_ascii dn in
    let needle = to_lower_ascii (c ∷ base) in
    elim (Bool-cases (equal hay needle)) [
      | inl same ↦ inr (inl ((equal_iff hay needle).0 same))
      | inr other ↦
          inr (inr (suffix_test_sound hay needle (ground (arith, dn_ends_with-cons dn c base))))
    ]

Under-dn_ends_with : (dn base : Bytes) → Under dn base → dn_ends_with dn base ≡ true
Under-dn_ends_with dn [] u = unfold dn_ends_with in refl
Under-dn_ends_with dn (c ∷ base) (inl e) = cc
Under-dn_ends_with dn (c ∷ base) (inr (inl e)) =
    ground (
      arith,
      dn_ends_with-cons dn c base,
      equal_iff (to_lower_ascii dn) (to_lower_ascii (c ∷ base)),
    )
Under-dn_ends_with dn (c ∷ base) (inr (inr (pre, e))) =
    let needle = to_lower_ascii (c ∷ base) in
    ground (arith, dn_ends_with-cons dn c base, rw (← e) at (suffix_test_complete pre needle))

-- `dn_ends_with` decides the subtree relation: it holds exactly if the base is empty, or the two
-- names are equal up to case, or some text and a comma stand before the base in the name.
pub dn_ends_with_iff : (dn base : Bytes) → (dn_ends_with dn base ≡ true) ↔ Under dn base
dn_ends_with_iff dn base = (dn_ends_with-Under dn base, Under-dn_ends_with dn base)

Under-trans : (a b c : Bytes) → Under a b → Under b c → c ≢ [] → b ≢ [] → Under a c
Under-trans a b c (inl e) v hc hb = absurd (hb e)
Under-trans a b c u (inl e) hc hb = absurd (hc e)
Under-trans a b c (inr (inl e)) (inr (inl f)) hc hb = inr (inl (e ∙ f))
Under-trans a b c (inr (inl e)) (inr (inr (pre, f))) hc hb = inr (inr (pre, e ∙ f))
Under-trans a b c (inr (inr (pre, e))) (inr (inl f)) hc hb =
    inr (inr (pre, e ∙ ap (λ t. pre ++ (b',' ∷ t)) f))
Under-trans a b c (inr (inr (pre, e))) (inr (inr (mid, f))) hc hb = inr (
    inr (
      pre ++ (b',' ∷ mid),
      e ∙ ap (λ t. pre ++ (b',' ∷ t)) f ∙ sym (append_assoc pre (b',' ∷ mid) _),
    ))

-- The subtree relation is transitive through a base that is not empty.
pub dn_ends_with_trans :
    (a b c : Bytes)
    → b ≢ []
    → dn_ends_with a b ≡ true
    → dn_ends_with b c ≡ true
    → dn_ends_with a c ≡ true
dn_ends_with_trans a b [] hb h k = Under-dn_ends_with a [] (inl refl)
dn_ends_with_trans a b (x ∷ c) hb h k = Under-dn_ends_with a (x ∷ c) (
    Under-trans a b (x ∷ c) (dn_ends_with-Under a b h) (dn_ends_with-Under b (x ∷ c) k) (λ e. cc)
      hb)
