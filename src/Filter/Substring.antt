-- ===== src/Filter/Substring.antt =====
-- filter.cpp: the greedy search of `substringMatches` finds a match whenever there is one.
use simple_ldapd.Prelude.{
  ℕ, ◌≤◌, ◌≡◌, ◌↔◌, refl, ap, true, false, not, ◌||◌, List, [], ◌∷◌, ◌++◌, arith, ltb,
  if◌then◌else◌, length, take, drop, length-append, take-append-drop, take-append, drop-append,
}
use simple_ldapd.Prelude.Bytes.{Bytes, equal, equal_iff}
use simple_ldapd.Dn.{to_lower_ascii}
use simple_ldapd.Filter.Match.{match_behind, substring_matches}
use simple_ldapd.Filter.Chain.{Chain, match_behind_sound, match_behind_complete}

-- The text starts with `initial`, ends with `final`, and the parts of `any` stand between them in
-- their order, none overlapping another, all of it case aside.
abbrev pub IsSubstringMatch : Bytes → Bytes → List Bytes → Bytes → Type 0
IsSubstringMatch haystack initial any final =
    (rest : Bytes) × (to_lower_ascii haystack ≡ to_lower_ascii initial ++ rest)
    × Chain any final rest

substring_matches-cons :
    (haystack : Bytes) (c : ℕ) (initial : Bytes) (any : List Bytes) (final : Bytes)
    → substring_matches haystack (c ∷ initial) any final ≡ (
        if ltb (length (to_lower_ascii haystack)) (length (to_lower_ascii (c ∷ initial)))
          || not (
              equal
                (take (length (to_lower_ascii (c ∷ initial))) (to_lower_ascii haystack))
                (to_lower_ascii (c ∷ initial)))
        then false
        else match_behind
            (to_lower_ascii haystack)
            (length (to_lower_ascii (c ∷ initial)))
            any
            final)
unfolding substring_matches
substring_matches-cons haystack c initial any final = refl

substring_matches_sound :
    (haystack initial : Bytes) (any : List Bytes) (final : Bytes)
    → substring_matches haystack initial any final ≡ true
    → IsSubstringMatch haystack initial any final
substring_matches_sound haystack [] any final h = (
  to_lower_ascii haystack,
  unfold to_lower_ascii in refl,
  match_behind_sound (to_lower_ascii haystack) any final 0 (omega arith)
      (unfold substring_matches in h),
)
substring_matches_sound haystack (c ∷ initial) any final h =
    let hay = to_lower_ascii haystack in
    let f = to_lower_ascii (c ∷ initial) in
    let (fits, same, behind) : (length f ≤ length hay)
        × (take (length f) hay ≡ f)
        × (match_behind hay (length f) any final ≡ true) =
      ground (
        arith,
        substring_matches-cons haystack c initial any final,
        equal_iff (take (length f) hay) f,
      ) in
    (
      drop (length f) hay,
      cc (take-append-drop (length f) hay, same),
      match_behind_sound hay any final (length f) fits behind,
    )

substring_matches_complete :
    (haystack initial : Bytes) (any : List Bytes) (final : Bytes)
    → IsSubstringMatch haystack initial any final
    → substring_matches haystack initial any final ≡ true
substring_matches_complete haystack [] any final (rest, e, c) =
    let whole : to_lower_ascii haystack ≡ rest = unfold to_lower_ascii in e in
    unfold substring_matches in
    match_behind_complete (to_lower_ascii haystack) any final 0 (omega arith) (rw whole c)
substring_matches_complete haystack (x ∷ initial) any final (rest, e, c) =
    let hay = to_lower_ascii haystack in
    let f = to_lower_ascii (x ∷ initial) in
    let fits : length f ≤ length hay = omega (arith, ap length e, length-append f rest) in
    let tail : drop (length f) hay ≡ rest = cc (e, drop-append f rest) in
    let same : take (length f) hay ≡ f = cc (e, take-append f rest) in
    ground (
      arith,
      substring_matches-cons haystack x initial any final,
      equal_iff (take (length f) hay) f,
      fits,
      same,
      match_behind_complete hay any final (length f) fits (rw tail c),
    )

-- `substring_matches` holds exactly if the lower-case text falls into the initial part, the
-- middle parts in their order with any text between them, and the final part: the greedy search
-- for the first place of each part misses no match.
pub substring_matches_iff :
    (haystack initial : Bytes) (any : List Bytes) (final : Bytes)
    → (substring_matches haystack initial any final ≡ true)
      ↔ IsSubstringMatch haystack initial any final
substring_matches_iff haystack initial any final = (
  substring_matches_sound haystack initial any final,
  substring_matches_complete haystack initial any final,
)
