-- ===== src/Filter/Find.antt =====
-- `std::string::find` as filter.cpp uses it: the first place at which a string stands.
use simple_ldapd.Prelude.{
  ℕ, zero, suc, ◌+◌, ◌≤◌, ◌≡◌, refl, ap, true, some, [], ◌∷◌, ◌++◌, arith, length, take, drop,
  length-append, length-take-le, take-append-drop, take-append, Bool-cases, inl, inr,
}
use simple_ldapd.Prelude.Bytes.{Bytes, equal, equal_iff, equal_refl}
use simple_ldapd.Filter.Match.{find_at}

pub find_at_sound :
    (needle s : Bytes) (i : ℕ)
    → find_at needle s ≡ some i
    → (i + length needle ≤ length s) × (s ≡ take i s ++ (needle ++ drop (i + length needle) s))
unfolding find_at
find_at_sound [] [] i h = ground arith
find_at_sound (y ∷ needle) [] i h = ground arith
find_at_sound needle (x ∷ s) zero h =
    let same : take (length needle) (x ∷ s) ≡ needle =
      ground (arith, equal_iff (take (length needle) (x ∷ s)) needle) in
    let e : 0 + length needle ≡ length needle = omega arith in
    (
      omega (arith, ap length same, length-take-le (length needle) (x ∷ s)),
      cc (e, same, take-append-drop (length needle) (x ∷ s)),
    )
find_at_sound needle (x ∷ s) (suc i) h =
    let found : find_at needle s ≡ some i = ground arith in
    let (le, e) = find_at_sound needle s i found in
    let k : suc i + length needle ≡ suc (i + length needle) = omega arith in
    (omega arith, rw k (ap (◌∷◌ x) e))

head_equal : (needle post : Bytes) → equal (take (length needle) (needle ++ post)) needle ≡ true
head_equal needle post = rw take-append (equal_refl needle)

pub find_at_complete :
    (needle s pre post : Bytes)
    → s ≡ pre ++ (needle ++ post)
    → (i : ℕ) × (find_at needle s ≡ some i) × (i ≤ length pre)
unfolding find_at
find_at_complete [] [] pre post e = (0, refl, omega arith)
find_at_complete (y ∷ needle) [] pre post e =
    absurd (omega (arith, ap length e, length-append pre ((y ∷ needle) ++ post)))
find_at_complete needle (x ∷ s) [] post e =
    (0, ground (arith, rw (← e) at (head_equal needle post)), omega arith)
find_at_complete needle (x ∷ s) (y ∷ pre) post e =
    let tail : s ≡ pre ++ (needle ++ post) = ground arith in
    let (i, found, le) = find_at_complete needle s pre post tail in
    elim (Bool-cases (equal (take (length needle) (x ∷ s)) needle)) [
      | inl h ↦ (0, rw h, omega arith)
      | inr h ↦ (suc i, rw (h, found), omega arith)
    ]
