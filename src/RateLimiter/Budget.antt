-- ===== src/RateLimiter/Budget.antt =====
-- rate_limiter.cpp: one bucket, when it is renewed, counted or pruned.
use simple_ldapd.Prelude.{
  ℕ, suc, ◌+◌, ◌-◌, ◌*◌, ◌^◌, ◌≤◌, ◌<◌, ◌≡◌, ◌⊎◌, refl, Bool, Option, none, some, ltb, leb, arith,
  if◌then◌else◌, Bool-cases, inl, inr, length,
}
use simple_ldapd.Prelude.Bytes.{Bytes}
use simple_ldapd.OrderedMap.{OrderedMap}
use simple_ldapd.OrderedMap.Order.{IsOrdered}
use simple_ldapd.OrderedMap.Keys.{find_key, reject_if, find_key-erase_if, erase_if-IsOrdered}
use simple_ldapd.RateLimiter.{Bucket, window, expired, prune, bucket_of, renew, counted}

-- The count of a bucket, where there is one, is at most `max`.
abbrev pub Held : ℕ → Option Bucket → Type 0
Held max none = Unit
Held max (some bucket) = bucket.count ≤ max

pub prune-IsOrdered : (now : ℕ) (m : OrderedMap Bucket) → IsOrdered m → IsOrdered (prune now m)
prune-IsOrdered now m o = elim (Bool-cases (ltb (length m) 4096)) [
  | inl e ↦ unfold prune in rw e o
  | inr e ↦ unfold prune in rw e (erase_if-IsOrdered (expired now) m o)
]

-- Pruning leaves the bucket of a key or takes it away where it has expired.
find_key-prune :
    (now : ℕ) (key : Bytes) (m : OrderedMap Bucket)
    → IsOrdered m
    → (find_key key (prune now m) ≡ find_key key m)
      ⊎ (find_key key (prune now m) ≡ reject_if (expired now) (find_key key m))
find_key-prune now key m o = elim (Bool-cases (ltb (length m) 4096)) [
  | inl e ↦ unfold prune in rw e (inl refl)
  | inr e ↦ unfold prune in rw e (inr (find_key-erase_if (expired now) key m o))
]

Held-reject :
    (max : ℕ) (q : Bucket → Bool) (o : Option Bucket) → Held max o → Held max (reject_if q o)
Held-reject max q none h = h
Held-reject max q (some b) h = elim (Bool-cases (q b)) [ inl e ↦ rw e tt | inr e ↦ rw e h ]

pub Held-prune :
    (max now : ℕ) (key : Bytes) (m : OrderedMap Bucket)
    → IsOrdered m
    → Held max (find_key key m)
    → Held max (find_key key (prune now m))
Held-prune max now key m o h = elim (find_key-prune now key m o) [
  | inl e ↦ rw e h
  | inr e ↦ rw e (Held-reject max (expired now) (find_key key m) h)
]

pub renew-count :
    (max now : ℕ) (o : Option Bucket) → Held max o → (renew now (bucket_of o)).count ≤ max
unfolding renew
renew-count max now none h = ground arith
renew-count max now (some b) h = ground arith

-- What may still pass before `from + window`: a window opened before `from` may be followed by
-- another.
abbrev pub budget : ℕ → ℕ → Option Bucket → ℕ
budget max from none = max
budget max from (some bucket) =
    if leb from bucket.window_start then max - bucket.count else 2 * max - bucket.count

pub budget-renew :
    (max from now : ℕ) (o : Option Bucket)
    → Held max o
    → 0 < from
    → from ≤ now
    → now < from + window
    → budget max from (some (renew now (bucket_of o))) ≤ budget max from o
unfolding renew expired
budget-renew max from now none h p lo hi = ground arith
budget-renew max from now (some b) h p lo hi = ground arith

pub budget-counted :
    (max from : ℕ) (b : Bucket)
    → b.count < max
    → max < 2 ^ 32
    → suc (budget max from (some (counted b))) ≤ budget max from (some b)
budget-counted max from b h big = ground arith

budget-reject :
    (max from now : ℕ) (o : Option Bucket)
    → Held max o
    → now < from + window
    → budget max from (reject_if (expired now) o) ≤ budget max from o
unfolding expired
budget-reject max from now none h hi = ground arith
budget-reject max from now (some b) h hi = ground arith

pub budget-prune :
    (max from now : ℕ) (key : Bytes) (m : OrderedMap Bucket)
    → IsOrdered m
    → Held max (find_key key m)
    → now < from + window
    → budget max from (find_key key (prune now m)) ≤ budget max from (find_key key m)
budget-prune max from now key m o h hi = elim (find_key-prune now key m o) [
  | inl e ↦ rw e (omega arith)
  | inr e ↦ rw e (budget-reject max from now (find_key key m) h hi)
]

pub budget-le : (max from : ℕ) (o : Option Bucket) → budget max from o ≤ 2 * max
budget-le max from none = omega arith
budget-le max from (some b) = ground arith
