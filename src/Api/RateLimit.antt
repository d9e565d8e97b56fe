-- ===== src/Api/RateLimit.antt =====
-- apps/api/src/http/rate-limit.js: a fixed window of time for every key.
use xygo_aec.Base.{
  ℕ, ◌+◌, ◌-◌, ◌/◌, ◌<◌, min, String, Bool, true, false, ◌&&◌, List, [], ◌∷◌, Option, none, some,
  ◌===◌, eq_of_===, ===_refl, leb, if◌then◌else◌, ◌≡◌, sym, ap, ◌∙◌, subst, arith, eq_iff,
  Bool-cases, inl, inr,
}

pub record Bucket : Type 0 where
  pub count : ℕ
  pub reset_at : ℕ

-- The Map, in the order of insertion.
abbrev pub Buckets : Type 0
Buckets = List (String × Bucket)

pub record RateLimiter : Type 0 where
  pub window : ℕ
  pub max_requests : ℕ

unfoldable pub lookup_bucket : String → Buckets → Option Bucket
lookup_bucket k [] = none
lookup_bucket k ((j, b) ∷ bs) = if j === k then some b else lookup_bucket k bs

-- `buckets.set(key, bucket)`
unfoldable pub set_bucket : String → Bucket → Buckets → Buckets
set_bucket k b [] = (k, b) ∷ []
set_bucket k b ((j, c) ∷ bs) =
    let rest = set_bucket k b bs in if j === k then (k, b) ∷ bs else (j, c) ∷ rest

-- The bucket to count in: the one that is there, or a new one if there is none or its window is over.
unfoldable pub current_bucket : RateLimiter → ℕ → Option Bucket → Bucket
current_bucket o now none = record { count = 0; reset_at = now + o.window }
current_bucket o now (some b) =
    if leb b.reset_at now then record { count = 0; reset_at = now + o.window } else b

pub record Verdict : Type 0 where
  pub allowed : Bool
  pub remaining : ℕ
  pub limit : ℕ
  pub retry_after_seconds : ℕ
  pub reset_at : ℕ

unfoldable pub count_request : Bucket → Bucket
count_request b = record b { count = b.count + 1 }

unfoldable pub verdict_of : RateLimiter → ℕ → Bucket → Verdict
verdict_of o now b = record {
  allowed = leb b.count o.max_requests;
  remaining = o.max_requests - b.count;
  limit = o.max_requests;
  retry_after_seconds = ((b.reset_at - now) + 999) / 1000;
  reset_at = b.reset_at;
}

unfoldable pub check : RateLimiter → Buckets → String → ℕ → Buckets × Verdict
unfolding lookup_bucket current_bucket count_request verdict_of set_bucket
check o bs key now =
    let bucket = count_request (current_bucket o now (lookup_bucket key bs)) in
    (set_bucket key bucket bs, verdict_of o now bucket)

unfoldable pub sweep : ℕ → Buckets → Buckets
sweep now [] = []
sweep now ((k, b) ∷ bs) =
    let rest = sweep now bs in if leb b.reset_at now then rest else (k, b) ∷ rest

-- Requests, each with its key and time.
abbrev pub Requests : Type 0
Requests = List (String × ℕ)

-- The number of requests with the key that are allowed in a run.
unfoldable pub allowed_count : RateLimiter → Buckets → String → Requests → ℕ
allowed_count o bs key [] = 0
allowed_count o bs key ((k, now) ∷ rest) =
    let more = allowed_count o (check o bs k now).0 key rest in
    if (k === key) && (check o bs k now).1.allowed then more + 1 else more

-- The times of all requests come before the end of the window.
abbrev pub AllBefore : ℕ → Requests → Type 0
AllBefore end [] = Unit
AllBefore end ((k, now) ∷ rest) = (now < end) × AllBefore end rest

lookup_bucket-set_bucket :
    (k : String) (b : Bucket) (bs : Buckets) → lookup_bucket k (set_bucket k b bs) ≡ some b
unfolding lookup_bucket set_bucket
lookup_bucket-set_bucket k b [] = ground (arith, ===_refl k)
lookup_bucket-set_bucket k b ((j, c) ∷ bs) =
    ground (arith, ===_refl k, lookup_bucket-set_bucket k b bs)

lookup_bucket-set_other :
    (key k : String) (b : Bucket) (bs : Buckets)
    → (k === key) ≡ false
    → lookup_bucket key (set_bucket k b bs) ≡ lookup_bucket key bs
unfolding lookup_bucket set_bucket
lookup_bucket-set_other key k b [] e = ground arith
lookup_bucket-set_other key k b ((j, c) ∷ bs) e =
    ground (arith, eq_iff j k, eq_iff j key, eq_iff k key, lookup_bucket-set_other key k b bs e)

lookup_bucket-other :
    (o : RateLimiter) (bs : Buckets) (key k : String) (now : ℕ)
    → (k === key) ≡ false
    → lookup_bucket key (check o bs k now).0 ≡ lookup_bucket key bs
unfolding check
lookup_bucket-other o bs key k now e =
    lookup_bucket-set_other key k (count_request (current_bucket o now (lookup_bucket k bs))) bs e

abbrev counted : Bucket → Bucket
counted b = record b { count = b.count + 1 }

counted_bucket :
    (o : RateLimiter) (now : ℕ) (b : Bucket) (found : Option Bucket)
    → found ≡ some b
    → now < b.reset_at
    → count_request (current_bucket o now found) ≡ counted b
unfolding count_request current_bucket
counted_bucket o now b found e early = ground arith

check-current :
    (o : RateLimiter) (bs : Buckets) (key : String) (now : ℕ) (b : Bucket)
    → lookup_bucket key bs ≡ some b
    → now < b.reset_at
    → (lookup_bucket key (check o bs key now).0 ≡ some (counted b))
      × ((check o bs key now).1.allowed ≡ leb (b.count + 1) o.max_requests)
unfolding check verdict_of
check-current o bs key now b found early =
    let same = counted_bucket o now b (lookup_bucket key bs) found early in
    (
      lookup_bucket-set_bucket key (count_request (current_bucket o now (lookup_bucket key bs))) bs
          ∙ ap some same,
      ap (λ (x : Bucket). leb x.count o.max_requests) same,
    )

-- The requests with the key.
abbrev pub requests_of : String → Requests → ℕ
requests_of key [] = 0
requests_of key ((k, now) ∷ rest) =
    let more = requests_of key rest in if k === key then more + 1 else more

allowed_step :
    (same allowed : Bool) (count more n limit : ℕ)
    → allowed ≡ leb (count + 1) limit
    → more ≡ min (limit - (count + 1)) n
    → same ≡ true
    → (if same && allowed then more + 1 else more) ≡ min (limit - count) (if same then n + 1 else n)
allowed_step same allowed count more n limit a m s = ground arith

other_step :
    (same allowed : Bool) (more n rest : ℕ)
    → more ≡ min rest n
    → same ≡ false
    → (if same && allowed then more + 1 else more) ≡ min rest (if same then n + 1 else n)
other_step same allowed more n rest m s = ground arith

-- Within the window of a key, among requests with any keys, the first ones with the key are allowed
-- until `max` have been counted, and no more.
pub allowed_count_exact :
    (o : RateLimiter) (bs : Buckets) (key : String) (b : Bucket) (requests : Requests)
    → lookup_bucket key bs ≡ some b
    → AllBefore b.reset_at requests
    → allowed_count o bs key requests ≡ min (o.max_requests - b.count) (requests_of key requests)
unfolding allowed_count
allowed_count_exact o bs key b [] found early = omega arith
allowed_count_exact o bs key b ((k, now) ∷ rest) found early = elim (Bool-cases (k === key)) [
  | inl e ↦
      let at_key = subst (λ x. lookup_bucket x bs ≡ some b) (sym (eq_of_=== k key e)) found in
      let (next, allowed) = check-current o bs k now b at_key early.0 in
      allowed_step (k === key) _ b.count _ (requests_of key rest) o.max_requests allowed
        (allowed_count_exact o (check o bs k now).0 key (counted b) rest
          (subst (λ x. lookup_bucket x (check o bs k now).0 ≡ some (counted b)) (eq_of_=== k key e)
            next)
          early.1)
        e
  | inr e ↦
      other_step (k === key) _ _ (requests_of key rest) (o.max_requests - b.count)
        (allowed_count_exact o (check o bs k now).0 key b rest
          (lookup_bucket-other o bs key k now e ∙ found) early.1)
        e
]
