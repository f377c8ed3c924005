-- ===== src/Httpretry/Bounded.antt =====
-- httpretry.go: how often and how long `RoundTrip` waits, and what it returns.
use safenet_arbitration_bot.Base.{
  ℕ, zero, suc, ◌+◌, ◌*◌, ◌/◌, ◌≤◌, ◌<◌, min, ◌≡◌, ◌⊎◌, inl, inr, refl, ◌∙◌, subst, Bool, true,
  false, some, All, length, if◌then◌else◌, ltb, Bool-cases, Option-cases, Result-cases, arith,
  Error, Result, ok, err, ok-injective, ltb→lt,
}
use safenet_arbitration_bot.Httpretry.{
  second, Response, Transport, or_default, retryable, retry_after, World, Trip, stop, after,
  wait_time, retry_loop, round_trip,
}

module _ (w : World) (max_delay : ℕ) where
  -- `rand.N(n)` is below `n`.
  abbrev pub IsRandom : Type 0
  IsRandom = (i n : ℕ) → 0 < n → w.random i n < n

  -- The last response is returned because it is not retried, because there are no retries left, or
  -- because it asks to wait for longer than the longest delay.
  abbrev pub Final : ℕ → ℕ → Response → Type 0
  Final left i r =
      (retryable r.status ≡ false)
      ⊎ ((left ≡ 0) ⊎ ((wait : ℕ) × (retry_after r (w.now i) ≡ some wait) × (max_delay < wait)))

  -- A trip from the attempt `i` with `n` retries left.
  pub record IsTrip (n i : ℕ) (t : Trip) : Type 0 where
    pub few : length t.waits ≤ n
    pub short : All (λ x. x ≤ max_delay) t.waits
    pub last :
        (r : Response)
        → t.result ≡ ok r
        → (w.answer (i + length t.waits) ≡ ok r)
          × ((left : ℕ) × (length t.waits + left ≡ n) × Final left (i + length t.waits) r)

  wait_time-asked :
      IsRandom
      → (i : ℕ) (r : Response) (backoff : ℕ) → max_delay < wait_time w max_delay i r backoff
      → (wait : ℕ) × (retry_after r (w.now i) ≡ some wait) × (max_delay < wait)
  unfolding wait_time
  wait_time-asked random i r backoff h = elim (Option-cases (retry_after r (w.now i))) [
    | inr (wait, m) ↦ (wait, m, rw (m, wait_time) at h)
    | inl m ↦
        let half = min backoff max_delay / 2 in
        absurd (omega (arith, random i (half + 1) (omega arith), rw (m, wait_time) at h))
  ]

  stopped-IsTrip :
      (n i : ℕ) (o : Result Response)
      → w.answer i ≡ o
      → ((r : Response) → o ≡ ok r → Final n i r)
      → IsTrip n i (stop o)
  stopped-IsTrip n i o answered final = record {
    few = omega arith;
    short = tt;
    last = λ r h.
        let at : i ≡ i + 0 = omega arith in
        subst (λ j. (w.answer j ≡ ok r) × ((left : ℕ) × (0 + left ≡ n) × Final left j r)) at
          (answered ∙ h, (n, omega arith, final r h));
  }

  waited-IsTrip :
      (n i wait : ℕ) (t : Trip)
      → wait ≤ max_delay
      → IsTrip n (i + 1) t
      → IsTrip (suc n) i (after wait t)
  waited-IsTrip n i wait t fits trip = record {
    few = omega (arith, trip.few);
    short = (fits, trip.short);
    last = λ r h.
        let (answered, (left, sum, final)) = trip.last r h in
        let at : i + 1 + length t.waits ≡ i + suc (length t.waits) = omega arith in
        subst
          (λ j.
            (w.answer j ≡ ok r)
            × ((left : ℕ) × (suc (length t.waits) + left ≡ suc n) × Final left j r))
          at (answered, (left, omega (arith, sum), final));
  }

  failed-IsTrip :
      (n i wait : ℕ) (e : Error) → wait ≤ max_delay → IsTrip (suc n) i (after wait (stop (err e)))
  failed-IsTrip n i wait e fits = record { few = omega arith; short = (fits, tt); last = λ r h. cc }

  retry_loop-IsTrip : IsRandom → (n i backoff : ℕ) → IsTrip n i (retry_loop w max_delay n i backoff)
  unfolding retry_loop
  retry_loop-IsTrip random zero i backoff =
      stopped-IsTrip zero i (w.answer i) refl (λ r h. inr (inl refl))
  retry_loop-IsTrip random (suc n) i backoff = elim (Result-cases (w.answer i)) [
    | inr (e, m) ↦ rw (m, retry_loop) (stopped-IsTrip (suc n) i (err e) m (λ r h. cc))
    | inl (r, m) ↦
        let wait = wait_time w max_delay i r backoff in
        let same : (q : Response) → ok r ≡ ok q → r ≡ q = λ q h. ok-injective h in
        elim (Bool-cases (retryable r.status)) [
          | inr f ↦
              rw (m, f, retry_loop)
                (stopped-IsTrip (suc n) i (ok r) m
                  (λ q h. inl (subst (λ x. retryable x.status ≡ false) (same q h) f)))
          | inl t ↦ elim (Bool-cases (ltb max_delay wait)) [
            | inl long ↦
                rw (m, t, long, retry_loop)
                  (stopped-IsTrip (suc n) i (ok r) m (λ q h. inr (
                    inr (
                      subst (λ x. (y : ℕ) × (retry_after x (w.now i) ≡ some y) × (max_delay < y))
                        (same q h)
                        (wait_time-asked random i r backoff (ltb→lt max_delay wait long))))))
            | inr brief ↦
                let fits : wait ≤ max_delay = ground arith in
                elim (Option-cases (w.done i)) [
                  | inr (e, d) ↦ rw (m, t, brief, d, retry_loop) (failed-IsTrip n i wait e fits)
                  | inl d ↦ elim (Result-cases (w.get_body i)) [
                    | inr (e, b) ↦
                        rw (m, t, brief, d, b, retry_loop) (failed-IsTrip n i wait e fits)
                    | inl (u, b) ↦
                        rw (m, t, brief, d, b, retry_loop)
                          (waited-IsTrip n i wait
                            (retry_loop w max_delay n (i + 1) (min (2 * backoff) max_delay)) fits
                            (retry_loop-IsTrip random n (i + 1) (min (2 * backoff) max_delay)))
                  ]
                ]
          ]
        ]
  ]

-- `RoundTrip` ends. It makes at most its number of retries after the first attempt, none where the
-- body cannot be sent again, and waits no longer than its longest delay before each. A response that
-- it returns is the answer to the last attempt, and it is no retryable one, or there are no retries
-- left, or its Retry-After header asks for longer than the longest delay.
pub round_trip-IsTrip :
    (t : Transport) (w : World) (sent_once : Bool)
    → IsRandom w (or_default t.max_delay (30 * second))
    → IsTrip w
        (or_default t.max_delay (30 * second))
        (if sent_once then 0 else or_default t.retries 4)
        0
        (round_trip t w sent_once)
unfolding round_trip
round_trip-IsTrip t w true random =
    stopped-IsTrip w (or_default t.max_delay (30 * second)) 0 0 (w.answer 0) refl
      (λ r h. inr (inl refl))
round_trip-IsTrip t w false random =
    retry_loop-IsTrip w (or_default t.max_delay (30 * second)) random (or_default t.retries 4) 0
      (or_default t.delay second)
