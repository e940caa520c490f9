-- ===== src/RateLimiter.antt =====
-- security/rate_limiter.hpp and rate_limiter.cpp: the limiter of bind attempts. The clock is an
-- argument, in nanoseconds since its epoch. The mutex makes each call one step.
pub mod Budget
pub mod Window
use simple_ldapd.Prelude.{
  ℕ, suc, ◌+◌, ◌%◌, ◌^◌, Bool, true, false, not, ◌&&◌, ◌||◌, Option, none, some, List, [], ◌∷◌, ltb,
  leb, ◌==◌, if◌then◌else◌, length, take, drop,
}
use simple_ldapd.Prelude.Bytes.{Bytes}
use simple_ldapd.OrderedMap.{OrderedMap, assign, find_first, erase_if}
use simple_ldapd.OrderedMap.Keys.{find_key}
use simple_ldapd.Dn.{find_char}

pub record Bucket : Type 0 where
  pub window_start : ℕ
  pub count : ℕ

pub record RateLimiter : Type 0 where
  pub max_per_minute : ℕ
  pub buckets : OrderedMap Bucket

-- `kWindow`, one minute
abbrev pub window : ℕ
window = 60000000000

-- the part before the only colon: `find` and `rfind` agree where no colon follows the first
abbrev before_only_colon : Bytes → Option ℕ → Bytes
before_only_colon client_id none = client_id
before_only_colon client_id (some colon) = elim (find_char b':' (drop (suc colon) client_id)) [
  | none ↦ take colon client_id
  | some _ ↦ client_id
]

abbrev has_bracket : Bytes → Bool
has_bracket [] = false
has_bracket (c ∷ s) = c == b'['

unfoldable pub client_key : Bytes → Bytes
unfolding find_char
client_key client_id =
    let plain = before_only_colon client_id (find_char b':' client_id) in
    if has_bracket client_id
    then elim (find_char b']' client_id) [ none ↦ plain | some close ↦ take (close + 1) client_id ]
    else plain

-- `now - window_start >= kWindow`, with the start on the other side
unfoldable pub expired : ℕ → Bucket → Bool
expired now bucket = leb (bucket.window_start + window) now

unfoldable pub prune : ℕ → OrderedMap Bucket → OrderedMap Bucket
unfolding expired erase_if
prune now buckets = if ltb (length buckets) 4096 then buckets else erase_if (expired now) buckets

-- the bucket that `buckets_[key]` refers to, a new one where there is none
abbrev pub bucket_of : Option Bucket → Bucket
bucket_of none = record { window_start = 0; count = 0 }
bucket_of (some bucket) = bucket

unfoldable pub renew : ℕ → Bucket → Bucket
unfolding expired
renew now bucket =
    if bucket.window_start == 0 || expired now bucket
    then record { window_start = now; count = 0 }
    else bucket

abbrev pub counted : Bucket → Bucket
counted bucket = record bucket { count = (bucket.count + 1) % 2 ^ 32 }

-- behind the guard on `max_per_minute_`
unfoldable pub allow_key : RateLimiter → Bytes → ℕ → Bool × RateLimiter
unfolding prune renew find_first assign
allow_key limiter key now =
    let buckets = prune now limiter.buckets in
    let bucket = renew now (bucket_of (find_key key buckets)) in
    if leb limiter.max_per_minute bucket.count
    then (false, record limiter { buckets = assign key bucket buckets })
    else (true, record limiter { buckets = assign key (counted bucket) buckets })

unfoldable pub allow : RateLimiter → Bytes → ℕ → Bool × RateLimiter
unfolding client_key allow_key
allow limiter client_id now =
    if limiter.max_per_minute == 0
    then (true, limiter)
    else allow_key limiter (client_key client_id) now

-- `RateLimiter(max_per_minute)` and `setMaxPerMinute`
unfoldable pub new_limiter : ℕ → RateLimiter
new_limiter max_per_minute = record { max_per_minute = max_per_minute; buckets = [] }

unfoldable pub set_max_per_minute : RateLimiter → ℕ → RateLimiter
set_max_per_minute limiter max_per_minute = record limiter {
  max_per_minute = max_per_minute;
  buckets = [];
}
