-- ===== src/Filter/Chain.antt =====
-- filter.cpp: the loop over the middle parts and the test of the final part.
use simple_ldapd.Prelude.{
  ℕ, ◌+◌, ◌-◌, ◌≤◌, ◌≡◌, refl, ap, sym, ◌∙◌, true, false, none, some, List, [], ◌∷◌, ◌++◌, arith,
  ltb, ge→ltb, if◌then◌else◌, length, take, drop, length-append, length-drop, take-append-drop,
  drop-append, append_assoc, append-nil, drop-drop, drop-append_le, Option-cases, inl, inr,
}
use simple_ldapd.Prelude.Bytes.{Bytes, equal, equal_iff}
use simple_ldapd.Dn.{to_lower_ascii}
use simple_ldapd.Filter.Match.{find_at, find_from, match_any, match_final, match_behind}
use simple_ldapd.Filter.Find.{find_at_sound, find_at_complete}

-- The parts stand in `rest` in their order, apart from one another, and `final` stands at the end
-- behind them, case aside.
abbrev pub Chain : List Bytes → Bytes → Bytes → Type 0
Chain [] final rest = (pre : Bytes) × (rest ≡ pre ++ to_lower_ascii final)
Chain (part ∷ any) final rest =
    (pre : Bytes) × (post : Bytes) × (rest ≡ pre ++ (to_lower_ascii part ++ post))
    × Chain any final post

pub Chain-append :
    (any : List Bytes) (final more rest : Bytes)
    → Chain any final rest
    → Chain any final (more ++ rest)
Chain-append [] final more rest (pre, e) =
    (more ++ pre, ap (λ t. more ++ t) e ∙ sym (append_assoc more pre _))
Chain-append (part ∷ any) final more rest (pre, post, e, c) =
    (more ++ pre, post, ap (λ t. more ++ t) e ∙ sym (append_assoc more pre _), c)

pub match_final-cons :
    (hay : Bytes) (c : ℕ) (final : Bytes) (pos : ℕ)
    → match_final hay (c ∷ final) pos ≡ (
        if ltb (length hay) (pos + length (to_lower_ascii (c ∷ final)))
        then false
        else equal
            (drop (length hay - length (to_lower_ascii (c ∷ final))) hay)
            (to_lower_ascii (c ∷ final)))
unfolding match_final
match_final-cons hay c final pos = refl

pub match_final_sound :
    (hay final : Bytes) (pos : ℕ)
    → pos ≤ length hay
    → match_final hay final pos ≡ true
    → Chain [] final (drop pos hay)
match_final_sound hay [] pos le h = unfold to_lower_ascii in (drop pos hay, sym (append-nil _))
match_final_sound hay (c ∷ final) pos le h =
    let f = to_lower_ascii (c ∷ final) in
    let (fits, same) : (pos + length f ≤ length hay) × (drop (length hay - length f) hay ≡ f) =
      ground
        (arith, match_final-cons hay c final pos, equal_iff (drop (length hay - length f) hay) f) in
    let k = length hay - length f - pos in
    (
      take k (drop pos hay),
      cc (
        take-append-drop k (drop pos hay),
        drop-drop pos k (length hay - length f) hay (omega arith),
        same,
      ),
    )

pub match_final_complete :
    (hay final : Bytes) (pos : ℕ)
    → pos ≤ length hay
    → Chain [] final (drop pos hay)
    → match_final hay final pos ≡ true
match_final_complete hay [] pos le h = unfold match_final in refl
match_final_complete hay (c ∷ final) pos le (pre, e) =
    let f = to_lower_ascii (c ∷ final) in
    let size : length hay - pos ≡ length pre + length f =
      omega (arith, length-drop pos hay, ap length e, length-append pre f) in
    let same : drop (length hay - length f) hay ≡ f = cc (
      drop-drop pos (length pre) (length hay - length f) hay (omega arith),
      e,
      drop-append pre f,
    ) in
    ground (
      arith,
      match_final-cons hay c final pos,
      equal_iff (drop (length hay - length f) hay) f,
      size,
      same,
    )

pub find_from-some :
    (hay needle : Bytes) (pos i : ℕ)
    → pos ≤ length hay
    → find_at needle (drop pos hay) ≡ some i
    → find_from hay needle pos ≡ some (pos + i)
unfolding find_from
find_from-some hay needle pos i le h = rw (ge→ltb _ _ le, h)

pub find_from-none :
    (hay needle : Bytes) (pos : ℕ)
    → pos ≤ length hay
    → find_at needle (drop pos hay) ≡ none
    → find_from hay needle pos ≡ none
unfolding find_from
find_from-none hay needle pos le h = rw (ge→ltb _ _ le, h)

pub match_behind-some :
    (hay : Bytes) (part : Bytes) (any : List Bytes) (final : Bytes) (pos found : ℕ)
    → find_from hay (to_lower_ascii part) pos ≡ some found
    → match_behind hay pos (part ∷ any) final
      ≡ match_behind hay (found + length (to_lower_ascii part)) any final
unfolding match_behind match_any
match_behind-some hay part any final pos found e = rw (e, match_behind, match_any)

pub match_behind-none :
    (hay : Bytes) (part : Bytes) (any : List Bytes) (final : Bytes) (pos : ℕ)
    → find_from hay (to_lower_ascii part) pos ≡ none
    → match_behind hay pos (part ∷ any) final ≡ false
unfolding match_behind match_any
match_behind-none hay part any final pos e = rw (e, match_behind, match_any)

pub match_behind_sound :
    (hay : Bytes) (any : List Bytes) (final : Bytes) (pos : ℕ)
    → pos ≤ length hay
    → match_behind hay pos any final ≡ true
    → Chain any final (drop pos hay)
match_behind_sound hay [] final pos le h =
    match_final_sound hay final pos le (unfold match_behind in h)
match_behind_sound hay (part ∷ any) final pos le h =
    let needle = to_lower_ascii part in
    let rest = drop pos hay in
    elim (Option-cases (find_at needle rest)) [
      | inl e ↦ absurd (
          ground
            (arith, match_behind-none hay part any final pos (find_from-none hay needle pos le e)))
      | inr (i, e) ↦
          let (fits, split) = find_at_sound needle rest i e in
          let next = pos + i + length needle in
          let step =
            match_behind-some hay part any final pos _ (find_from-some hay needle pos i le e) in
          let inside : next ≤ length hay = omega (arith, length-drop pos hay) in
          (
            take i rest,
            drop next hay,
            cc (split, drop-drop pos (i + length needle) next hay (omega arith)),
            match_behind_sound hay any final next inside (sym step ∙ h),
          )
    ]

pub match_behind_complete :
    (hay : Bytes) (any : List Bytes) (final : Bytes) (pos : ℕ)
    → pos ≤ length hay
    → Chain any final (drop pos hay)
    → match_behind hay pos any final ≡ true
match_behind_complete hay [] final pos le c =
    unfold match_behind in match_final_complete hay final pos le c
match_behind_complete hay (part ∷ any) final pos le (pre, post, e, c) =
    let needle = to_lower_ascii part in
    let rest = drop pos hay in
    let (i, found, first) = find_at_complete needle rest pre post e in
    let (fits, split) = find_at_sound needle rest i found in
    let next = pos + i + length needle in
    let step =
      match_behind-some hay part any final pos _ (find_from-some hay needle pos i le found) in
    let inside : next ≤ length hay = omega (arith, length-drop pos hay) in
    let k = i + length needle in
    let tail : drop next hay ≡ drop k (pre ++ needle) ++ post = cc (
      drop-drop pos k next hay (omega arith),
      e,
      append_assoc pre needle post,
      drop-append_le k (pre ++ needle) post (omega (arith, length-append pre needle)),
    ) in
    step
    ∙ match_behind_complete hay any final next inside
        (rw tail (Chain-append any final (drop k (pre ++ needle)) post c))
