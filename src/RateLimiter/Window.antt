-- ===== src/RateLimiter/Window.antt =====
-- rate_limiter.cpp: how many attempts of a client pass in a minute.
use simple_ldapd.Prelude.{
  ℕ, ◌+◌, ◌*◌, ◌^◌, ◌≤◌, ◌<◌, ◌≡◌, Bool, true, false, ◌&&◌, List, [], ◌∷◌, leb, ◌==◌, arith,
  Bool-cases, inl, inr,
}
use simple_ldapd.Prelude.Bytes.{Bytes, equal, equal_iff}
use simple_ldapd.OrderedMap.{OrderedMap, assign, find_first}
use simple_ldapd.OrderedMap.Order.{IsOrdered, assign-IsOrdered}
use simple_ldapd.OrderedMap.Keys.{find_key, find_key-assign, find_key-assign_ne}
use simple_ldapd.RateLimiter.Budget.{
  Held, prune-IsOrdered, Held-prune, renew-count, budget, budget-renew, budget-counted,
  budget-prune, budget-le,
}
use simple_ldapd.RateLimiter.{
  new_limiter, Bucket, RateLimiter, window, client_key, prune, bucket_of, renew, counted, allow_key,
  allow,
}

-- The buckets are in order, and none has counted more than the maximum.
pub record IsSound (limiter : RateLimiter) : Type 0 where
  pub ordered : IsOrdered limiter.buckets
  pub held : (key : Bytes) → Held limiter.max_per_minute (find_key key limiter.buckets)

abbrev one_if : Bool → ℕ
one_if true = 1
one_if false = 0

module _ (limiter : RateLimiter) (sound : IsSound limiter) where
  allow_key_self :
      (key : Bytes) (from now : ℕ)
      → limiter.max_per_minute < 2 ^ 32
      → 0 < from
      → from ≤ now
      → now < from + window
      → one_if (allow_key limiter key now).0
          + budget limiter.max_per_minute from (find_key key (allow_key limiter key now).1.buckets)
        ≤ budget limiter.max_per_minute from (find_key key limiter.buckets)
  unfolding allow_key
  allow_key_self key from now big p lo hi =
      let max = limiter.max_per_minute in
      let old = find_key key limiter.buckets in
      let pruned = prune now limiter.buckets in
      let order = prune-IsOrdered now limiter.buckets sound.ordered in
      let o = find_key key pruned in
      let held = Held-prune max now key limiter.buckets sound.ordered (sound.held key) in
      let b = renew now (bucket_of o) in
      let first = budget-prune max from now key limiter.buckets sound.ordered (sound.held key) hi in
      let second = budget-renew max from now o held p lo hi in
      elim (Bool-cases (leb max b.count)) [
        | inl e ↦ rw (e, find_key-assign key b pruned order) (omega arith)
        | inr e ↦
            let third = budget-counted max from b (ground arith) big in
            rw (e, find_key-assign key (counted b) pruned order) (omega arith)
      ]

  allow_key-other :
      (key name : Bytes) (from now : ℕ)
      → equal key name ≡ false
      → now < from + window
      → budget limiter.max_per_minute from (find_key name (allow_key limiter key now).1.buckets)
        ≤ budget limiter.max_per_minute from (find_key name limiter.buckets)
  unfolding allow_key
  allow_key-other key name from now ne hi =
      let max = limiter.max_per_minute in
      let pruned = prune now limiter.buckets in
      let b = renew now (bucket_of (find_key key pruned)) in
      let first =
        budget-prune max from now name limiter.buckets sound.ordered (sound.held name) hi in
      elim (Bool-cases (leb max b.count)) [
        | inl e ↦ rw (e, find_key-assign_ne key b name pruned ne) first
        | inr e ↦ rw (e, find_key-assign_ne key (counted b) name pruned ne) first
      ]

  Held-assign :
      (key name : Bytes) (b : Bucket) (m : OrderedMap Bucket)
      → IsOrdered m
      → b.count ≤ limiter.max_per_minute
      → Held limiter.max_per_minute (find_key name m)
      → Held limiter.max_per_minute (find_key name (assign key b m))
  Held-assign key name b m o h k = elim (Bool-cases (equal key name)) [
    | inl e ↦ rw ((equal_iff key name).0 e, find_key-assign name b m o) h
    | inr e ↦ rw (find_key-assign_ne key b name m e) k
  ]

  allow_key-IsSound : (key : Bytes) (now : ℕ) → IsSound (allow_key limiter key now).1
  unfolding allow_key
  allow_key-IsSound key now =
      let max = limiter.max_per_minute in
      let pruned = prune now limiter.buckets in
      let order = prune-IsOrdered now limiter.buckets sound.ordered in
      let held =
        λ (name : Bytes). Held-prune max now name limiter.buckets sound.ordered (sound.held name) in
      let b = renew now (bucket_of (find_key key pruned)) in
      let few = renew-count max now (find_key key pruned) (held key) in
      elim (Bool-cases (leb max b.count)) [
        | inl e ↦ rw e (record {
          ordered = assign-IsOrdered key b pruned order;
          held = λ name. Held-assign key name b pruned order few (held name);
        })
        | inr e ↦ rw e (record {
          ordered = assign-IsOrdered key (counted b) pruned order;
          held = λ name. Held-assign key name (counted b) pruned order (ground arith) (held name);
        })
      ]

-- After an attempt of any client at any time the buckets are in order, and none has counted more
-- than the maximum, where that held before.
pub allow-IsSound :
    (limiter : RateLimiter) (client_id : Bytes) (now : ℕ)
    → IsSound limiter
    → IsSound (allow limiter client_id now).1
unfolding allow
allow-IsSound limiter client_id now sound = elim (Bool-cases (limiter.max_per_minute == 0)) [
  | inl e ↦ rw e sound
  | inr e ↦ rw e (allow_key-IsSound limiter sound (client_key client_id) now)
]

-- The attempts of one client that pass, of a list of attempts of all clients with their times.
unfoldable pub passed : RateLimiter → Bytes → List (Bytes × ℕ) → ℕ
unfolding allow client_key equal
passed limiter key [] = 0
passed limiter key ((client_id, now) ∷ attempts) =
    let (ok, after) = allow limiter client_id now in
    one_if (ok && equal (client_key client_id) key) + passed after key attempts

-- Every attempt is in the minute from `from` on.
abbrev pub InMinute : ℕ → List (Bytes × ℕ) → Type 0
InMinute from [] = Unit
InMinute from ((client_id, now) ∷ attempts) =
    (from ≤ now) × (now < from + window) × InMinute from attempts

allow-max :
    (limiter : RateLimiter) (client_id : Bytes) (now : ℕ)
    → (allow limiter client_id now).1.max_per_minute ≡ limiter.max_per_minute
unfolding allow allow_key
allow-max limiter client_id now = ground arith

allow-on :
    (limiter : RateLimiter) (client_id : Bytes) (now : ℕ)
    → 0 < limiter.max_per_minute
    → allow limiter client_id now ≡ allow_key limiter (client_key client_id) now
unfolding allow
allow-on limiter client_id now on = ground arith

-- An attempt takes from the budget of its own client, where it passes.
allow-budget :
    (limiter : RateLimiter) (key client_id : Bytes) (from now : ℕ)
    → IsSound limiter
    → 0 < limiter.max_per_minute
    → limiter.max_per_minute < 2 ^ 32
    → 0 < from
    → from ≤ now
    → now < from + window
    → one_if ((allow limiter client_id now).0 && equal (client_key client_id) key)
        + budget limiter.max_per_minute from (find_key key (allow limiter client_id now).1.buckets)
      ≤ budget limiter.max_per_minute from (find_key key limiter.buckets)
allow-budget limiter key client_id from now sound on big p lo hi =
    let own = client_key client_id in
    let result = allow_key limiter own now in
    rw (allow-on limiter client_id now on) (elim (Bool-cases (equal own key)) [
      | inl e ↦
          let same = (equal_iff own key).0 e in
          let self = allow_key_self limiter sound own from now big p lo hi in rw e (ground arith)
      | inr e ↦
          let other = allow_key-other limiter sound own key from now e hi in rw e (ground arith)
    ])

passed-budget :
    (limiter : RateLimiter) (key : Bytes) (from : ℕ) (attempts : List (Bytes × ℕ))
    → IsSound limiter
    → 0 < limiter.max_per_minute
    → limiter.max_per_minute < 2 ^ 32
    → 0 < from
    → InMinute from attempts
    → passed limiter key attempts
      ≤ budget limiter.max_per_minute from (find_key key limiter.buckets)
unfolding passed
passed-budget limiter key from [] sound on big p within = omega arith
passed-budget limiter key from ((client_id, now) ∷ attempts) sound on big p within =
    let after = (allow limiter client_id now).1 in
    let same = allow-max limiter client_id now in
    let step = allow-budget limiter key client_id from now sound on big p within.0 within.1 in
    let later =
      passed-budget after key from attempts (allow-IsSound limiter client_id now sound)
        (omega arith) (omega arith) p within.2 in
    ground arith

-- In any minute no client passes more than twice the maximum, whatever the other clients do; a
-- limit of 0 is off, and the clock is not at its epoch.
pub passed_at_most_twice :
    (limiter : RateLimiter) (key : Bytes) (from : ℕ) (attempts : List (Bytes × ℕ))
    → IsSound limiter
    → 0 < limiter.max_per_minute
    → limiter.max_per_minute < 2 ^ 32
    → 0 < from
    → InMinute from attempts
    → passed limiter key attempts ≤ 2 * limiter.max_per_minute
passed_at_most_twice limiter key from attempts sound on big p within =
    let bound = passed-budget limiter key from attempts sound on big p within in
    let top = budget-le limiter.max_per_minute from (find_key key limiter.buckets) in omega arith

-- From a new limiter, no client passes more than the maximum in the first minute.
pub passed-new :
    (max_per_minute from : ℕ) (key : Bytes) (attempts : List (Bytes × ℕ))
    → 0 < max_per_minute
    → max_per_minute < 2 ^ 32
    → 0 < from
    → InMinute from attempts
    → passed (new_limiter max_per_minute) key attempts ≤ max_per_minute
unfolding new_limiter
passed-new max_per_minute from key attempts on big p within =
    unfold find_first in
    passed-budget (new_limiter max_per_minute) key from attempts
      (record { ordered = tt; held = λ name. tt }) on big p within
