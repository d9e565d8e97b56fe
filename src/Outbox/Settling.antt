-- ===== src/Outbox/Settling.antt =====
-- What the callback of `processOutboxOnce` of apps/api/src/reliability/outbox.js leaves of one job.
use xygo_aec.Base.{
  ℕ, ◌+◌, String, Bool, true, false, not, ◌||◌, List, [], ◌∷◌, Option, none, some, Failure, Result,
  ok, err, ◌===◌, leb, if◌then◌else◌, All, includes, ◌≡◌, inl, inr, refl, ◌∙◌, arith, eq_iff,
  Bool-cases,
}
use xygo_aec.Outbox.Jobs.{Job, Status, processed, failed, dead, same_status}
use xygo_aec.Outbox.Store.{
  Store, find_job, update_job, claimed_job, mark_completed, complete, mark_failed, fail,
  RetryOptions,
}
use xygo_aec.Outbox.Updates.{ids, find_job-update_other}
use xygo_aec.Outbox.Processing.{Tally, attempts_allowed, settle_failed, count_failed, settle_with}

pub claimed_job-other :
    (s : Store) (id other worker : String) (change : Job → Job)
    → ((j : Job) → (change j).id ≡ j.id)
    → (other === id) ≡ false
    → claimed_job (record s { items = update_job id change s.items }) other worker
      ≡ claimed_job s other worker
unfolding claimed_job find_job
claimed_job-other s id other worker change keeps h =
    cc (find_job-update_other id other change s.items keeps h)

abbrev is_false : Option Bool → Bool
is_false (some b) = not b
is_false none = false

abbrev refuses_retry : Failure → Bool
refuses_retry error = is_false error.retryable

-- The status that a job ends in after the handler's answer: dead if the answer says that it cannot be
-- retried, or if the job has had the allowed attempts.
abbrev pub ending : RetryOptions → Job → Result (Unit {0}) → Status
ending o j (ok done) = processed
ending o j (err error) =
    if refuses_retry error || leb o.max_attempts j.attempts then dead else failed

-- The time of completion, which only an answer without an exception sets.
abbrev pub completion : ℕ → Job → Result (Unit {0}) → Option ℕ
completion now j (ok done) = some now
completion now j (err error) = j.completed_at

-- What the answer leaves of a job that was claimed.
pub record Ended (s : Store) (now : ℕ) (o : RetryOptions) (j : Job) (answer : Result (Unit {0}))
    : Type 0 where
  pub settled : Job
  pub stored : find_job j.id s.items ≡ some settled
  pub status : settled.status ≡ ending o j answer
  pub lock : settled.locked_at ≡ none
  pub owner : settled.locked_by ≡ none
  pub completed : settled.completed_at ≡ completion now j answer
  pub attempts : settled.attempts ≡ j.attempts

-- What settling a job assigns to it.
unfoldable pub settlement : ℕ → RetryOptions → Job → Result (Unit {0}) → Job → Job
settlement now o j (ok done) = mark_completed now
settlement now o j (err error) =
    mark_failed (record o { max_attempts = attempts_allowed error j o.max_attempts }) error.message
      now

abbrev pub count_ending : Status → Tally → Tally
count_ending processed t = record t { processed = t.processed + 1 }
count_ending s t = count_failed s t

-- How often a status stands in a list.
abbrev pub occurrences : Status → List Status → ℕ
occurrences s [] = 0
occurrences s (e ∷ es) = (if same_status s e then 1 else 0) + occurrences s es

-- The tally with each of the endings counted.
abbrev pub tally_from : Tally → List Status → Tally
tally_from t es = record {
  processed = t.processed + occurrences processed es;
  retried = t.retried + occurrences failed es;
  dead = t.dead + occurrences Status.dead es;
}

pub same_tally :
    {p p' r r' d d' : ℕ}
    → p ≡ p'
    → r ≡ r'
    → d ≡ d'
    → ◌≡◌ {A = Tally}
        (record { processed = p; retried = r; dead = d })
        (record { processed = p'; retried = r'; dead = d' })
same_tally a b c = rw (a, b, c) refl

pub tally_from-count :
    (o : RetryOptions) (j : Job) (answer : Result (Unit {0})) (t : Tally) (es : List Status)
    → tally_from (count_ending (ending o j answer) t) es ≡ tally_from t (ending o j answer ∷ es)
unfolding same_status
tally_from-count o j (ok done) t es = same_tally (omega arith) (omega arith) (omega arith)
tally_from-count o j (err error) t es =
    elim (Bool-cases (refuses_retry error || leb o.max_attempts j.attempts)) [
      | inl e ↦ rw e (same_tally (omega arith) (omega arith) (omega arith))
      | inr e ↦ rw e (same_tally (omega arith) (omega arith) (omega arith))
    ]

pub settlement-id :
    (now : ℕ) (o : RetryOptions) (j : Job) (answer : Result (Unit {0})) (x : Job)
    → (settlement now o j answer x).id ≡ x.id
unfolding settlement mark_completed mark_failed
settlement-id now o j (ok done) x = refl
settlement-id now o j (err error) x = refl

failed_status :
    (retryable : Option Bool) (max_attempts attempts : ℕ)
    → (if leb (elim retryable [ some false ↦ attempts | _ ↦ max_attempts ]) attempts
        then dead
        else failed)
      ≡ (if is_false retryable || leb max_attempts attempts then dead else failed)
failed_status none max_attempts attempts = refl
failed_status (some true) max_attempts attempts = refl
failed_status (some false) max_attempts attempts =
    let always : leb attempts attempts ≡ true = ground arith in rw always refl

pub settlement-Ended :
    (s : Store) (now : ℕ) (o : RetryOptions) (j : Job) (answer : Result (Unit {0}))
    → find_job j.id s.items ≡ some (settlement now o j answer j)
    → Ended s now o j answer
unfolding settlement mark_completed mark_failed attempts_allowed
settlement-Ended s now o j (ok done) found = record {
  settled = mark_completed now j;
  stored = found;
  status = refl;
  lock = refl;
  owner = refl;
  completed = refl;
  attempts = refl;
}
settlement-Ended s now o j (err error) found = record {
  settled = settlement now o j (err error) j;
  stored = found;
  status = failed_status error.retryable o.max_attempts j.attempts;
  lock = refl;
  owner = refl;
  completed = refl;
  attempts = refl;
}

-- Settling a job that the worker holds.
pub settle_with_lem :
    (s : Store) (worker : String) (now : ℕ) (o : RetryOptions) (j : Job)
    (answer : Result (Unit {0})) (t : Tally)
    → claimed_job s j.id worker ≡ ok j
    → settle_with answer worker now o s j t ≡ (
      record s { items = update_job j.id (settlement now o j answer) s.items },
      ok (count_ending (ending o j answer) t),
    )
unfolding settle_with settle_failed complete fail settlement mark_failed attempts_allowed
settle_with_lem s worker now o j (ok done) t held = rw (settle_with, held) refl
settle_with_lem s worker now o j (err error) t held =
    rw (settle_with, settle_failed, held, failed_status error.retryable o.max_attempts j.attempts)
      (elim (Bool-cases (refuses_retry error || leb o.max_attempts j.attempts)) [
        | inl e ↦ rw e refl
        | inr e ↦ rw e refl
      ])

-- The worker holds every job of the list.
abbrev pub AllHeld : Store → String → List Job → Type 0
AllHeld s worker js = All (λ j. claimed_job s j.id worker ≡ ok j) js

pub AllHeld-other :
    (s : Store) (id worker : String) (change : Job → Job) (js : List Job)
    → ((j : Job) → (change j).id ≡ j.id)
    → includes (ids js) id ≡ false
    → AllHeld s worker js
    → AllHeld (record s { items = update_job id change s.items }) worker js
AllHeld-other s id worker change [] keeps h held = tt
AllHeld-other s id worker change (j ∷ js) keeps h held = (
  claimed_job-other s id j.id worker change keeps (ground (arith, eq_iff j.id id, eq_iff id j.id))
      ∙ held.0,
  AllHeld-other s id worker change js keeps (ground arith) held.1,
)
