-- ===== src/Httpretry.antt =====
-- internal/httpretry: a Transport that retries. Times are nanoseconds. The standard library sends
-- the requests, parses the header, draws the random numbers and waits: what it gives is a parameter,
-- by the number of the attempt.
pub mod Bounded
use safenet_arbitration_bot.Base.{
  ℕ, zero, suc, ◌+◌, ◌-◌, ◌*◌, ◌/◌, min, Bool, true, false, not, ◌&&◌, ◌||◌, Option, none, some,
  List, [], ◌∷◌, if◌then◌else◌, ltb, ◌==◌, Error, Result, ok, err,
}

abbrev pub second : ℕ
second = 1000000000

-- A Retry-After header: absent or of another form, a number of seconds, or a date.
pub data RetryAfter : Type 0 where
  no_header : RetryAfter
  seconds : ℕ → RetryAfter
  date : ℕ → RetryAfter

pub record Response : Type 0 where
  pub status : ℕ
  pub header : RetryAfter

-- `Transport`, where zero stands for a default.
pub record Transport : Type 0 where
  pub retries : ℕ
  pub delay : ℕ
  pub max_delay : ℕ

-- cmp.Or.
abbrev pub or_default : ℕ → ℕ → ℕ
or_default zero d = d
or_default (suc n) d = suc n

unfoldable pub retryable : ℕ → Bool
retryable status = status == 429 || status == 502 || status == 503 || status == 504

unfoldable pub retry_after : Response → ℕ → Option ℕ
retry_after r now = elim r.header [
  | no_header ↦ none
  | seconds n ↦ some (n * second)
  | date t ↦ some (t - now)
]

-- The surroundings of a request: the answer to each attempt, the time after it, rand.N, the error
-- of the request's context while it waits, and what GetBody returns.
pub record World : Type 0 where
  pub answer : ℕ → Result Response
  pub now : ℕ → ℕ
  pub random : ℕ → ℕ → ℕ
  pub done : ℕ → Option Error
  pub get_body : ℕ → Result (Unit {0})

-- What RoundTrip returns, with the times that it waited for.
pub record Trip : Type 0 where
  pub result : Result Response
  pub waits : List ℕ

abbrev pub stop : Result Response → Trip
stop result = record { result = result; waits = [] }

abbrev pub after : ℕ → Trip → Trip
after wait rest = record rest { waits = wait ∷ rest.waits }

module _ (w : World) (max_delay : ℕ) where
  abbrev jittered : ℕ → ℕ → ℕ
  jittered i wait = wait / 2 + w.random i (wait / 2 + 1)

  -- The time to wait after the attempt `i`.
  pub wait_time : ℕ → Response → ℕ → ℕ
  wait_time i r backoff = elim (retry_after r (w.now i)) [
    | some wait ↦ wait
    | none ↦ jittered i (min backoff max_delay)
  ]

  -- The loop, from the attempt `i` on, with `n` retries left.
  pub retry_loop : ℕ → ℕ → ℕ → Trip
  retry_loop zero i backoff = stop (w.answer i)
  retry_loop (suc n) i backoff = elim (w.answer i) [
    | err e ↦ stop (err e)
    | ok r ↦ elim (retryable r.status) [
      | false ↦ stop (ok r)
      | true ↦ elim (ltb max_delay (wait_time i r backoff)) [
        | true ↦ stop (ok r)
        | false ↦ elim (w.done i) [
          | some e ↦ after (wait_time i r backoff) (stop (err e))
          | none ↦ elim (w.get_body i) [
            | err e ↦ after (wait_time i r backoff) (stop (err e))
            | ok u ↦
                after (wait_time i r backoff) (retry_loop n (i + 1) (min (2 * backoff) max_delay))
          ]
        ]
      ]
    ]
  ]

-- `RoundTrip`, of a request that has a body that cannot be sent again, or not.
pub round_trip : Transport → World → Bool → Trip
round_trip t w true = stop (w.answer 0)
round_trip t w false =
    retry_loop w (or_default t.max_delay (30 * second)) (or_default t.retries 4) 0
      (or_default t.delay second)
