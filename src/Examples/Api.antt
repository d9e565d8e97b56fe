-- ===== src/Examples/Api.antt =====
-- The request handling at concrete requests.
use xygo_aec.Base.{
  ℕ, ◌-◌, min, List, [], ◌∷◌, none, some, length, ◌≡◌, refl, arith, String, str, num, obj, field,
  end, Value,
}
use xygo_aec.Api.RateLimit.{
  Buckets, RateLimiter, lookup_bucket, Requests, requests_of, allowed_count, allowed_count_exact,
}
use xygo_aec.Api.Keys.{idempotency_key_for, idempotency_key_for-injective}
use xygo_aec.Api.Idempotency.{Response, Entries, get, with_idempotency, with_idempotency-replay}
use xygo_aec.Api.Pages.{unusable, positive, limit_of, filter_status, read_pages, read_pages-all}
use xygo_aec.Api.Gate.{Principal}

abbrev limiter : RateLimiter
limiter = record { window = 60000; max_requests = 3 }

abbrev buckets : Buckets
buckets = ("a", record { count = 1; reset_at = 100 }) ∷ []

abbrev requests : Requests
requests = ("a", 10) ∷ ("b", 20) ∷ ("a", 30) ∷ ("a", 40) ∷ []

known_bucket : lookup_bucket "a" buckets ≡ some (record { count = 1; reset_at = 100 })
unfolding lookup_bucket
known_bucket = refl

allowed_count_exact_example :
    allowed_count limiter buckets "a" requests ≡ min (3 - 1) (requests_of "a" requests)
allowed_count_exact_example =
    allowed_count_exact limiter buckets "a" (record { count = 1; reset_at = 100 }) requests
      known_bucket (omega arith, (omega arith, (omega arith, (omega arith, tt))))

abbrev acme : String
acme = "acme"

abbrev rfis : String
rfis = "/v1/tenants/acme/rfis"

abbrev client : String
client = "k:1"

idempotency_key_for-injective_example : (acme ≡ acme) × (rfis ≡ rfis) × (client ≡ client)
idempotency_key_for-injective_example =
    idempotency_key_for-injective acme acme rfis rfis client client refl refl refl refl refl

abbrev create : ℕ → ℕ × Response
create n = (n, record { status = 201; body = num n })

abbrev no_entries : Entries
no_entries = []

nothing_stored : (get no_entries (idempotency_key_for "a" "/x" "k") 10).1 ≡ none
unfolding get
nothing_stored = refl

with_idempotency-replay_example :
    with_idempotency 1000
      (some "k")
      "a"
      "/x"
      900
      901
      create
      7
      (with_idempotency 1000 (some "k") "a" "/x" 10 20 create 5 no_entries).0.1
    ≡ (
      (7, (with_idempotency 1000 (some "k") "a" "/x" 10 20 create 5 no_entries).0.1),
      record { status = 201; body = num 5 },
    )
with_idempotency-replay_example =
    with_idempotency-replay 1000 "k" "a" "/x" 10 20 900 901 create create 5 7 no_entries refl
      nothing_stored refl (omega arith)

abbrev items : List Value
items =
    obj (field "status" (str "open") end)
    ∷ obj (field "status" (str "closed") end)
    ∷ obj (field "humanDisposition" (str "open") end)
    ∷ []

limit_one : limit_of (positive 1) ≡ 1
unfolding limit_of
limit_one = refl

two_open : length (filter_status (some "open") items) ≡ 2
unfolding filter_status
two_open = refl

read_pages-all_example :
    read_pages 2 items (some "open") (positive 1) unusable
    ≡ some (filter_status (some "open") items)
read_pages-all_example =
    read_pages-all 2 items (some "open") (positive 1) (omega (arith, limit_one)) (omega arith)
      (omega (arith, two_open))

abbrev principal : Principal
principal = record {
  user_id = "ana";
  tenant_id = "tenant-a";
  organization_role = "company_admin";
  project_role = none;
}
