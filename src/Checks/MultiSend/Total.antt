-- ===== src/Checks/MultiSend/Total.antt =====
-- The expansion of a call ends, at a depth below the number of its data's bytes.
use safenet_arbitration_bot.Base.{
  ℤ, ℕ, zero, suc, ◌+◌, ◌-◌, ◌≤◌, ◌<◌, ◌≡◌, refl, ap, ◌∙◌, Option, none, some, List, [], ◌∷◌, ◌++◌,
  inl, inr, arith, ◌==◌, ltb→lt, Bytes, length, length-drop, take, drop, padded, Bool-cases, ok,
}
use safenet_arbitration_bot.Keccak.{Keccak}
use safenet_arbitration_bot.Ethrpc.Types.{Address}
use safenet_arbitration_bot.Solabi.Decode.Cut.{Cut, bytes-Cut}
use safenet_arbitration_bot.Solabi.Encode.{encode, encode_onto, calldata}
use safenet_arbitration_bot.Safenet.Types.{SafeTransaction}
use safenet_arbitration_bot.Checks.Calls.{Call}
use safenet_arbitration_bot.Checks.MultiSend.{
  MultiSend, Expansion, reverts, makes, header_size, packed_length, packed_call, batch, expand_call,
  expanded, empty_multi_send, reverting_multi_send, expand_transaction_calls,
}
use safenet_arbitration_bot.Checks.MultiSend.Steps.{
  kept, fails, decoded, handled, ends, breaks, goes_on, round, after_call, batch_goes_on,
}
use safenet_arbitration_bot.Checks.MultiSend.Significant.{
  significant, significant-le-length, significant-drop, significant-take, significant-padded,
  from_be_zeros,
}

abbrev Returns {ℓ} : {A : Type ℓ} → Option A → Type ℓ
Returns {A = A} o = (a : A) × (o ≡ some a)

-- The loop ends if the rest is shorter than the fuel, and the call of every packed transaction with
-- significant bytes of `rest` can be expanded.
module _ (expand : Call → Option Expansion) (ms : MultiSend) (safe : Address) where
  after_call-Returns :
      (f : ℕ) (rest : Bytes) (calls : List Call) (o : Option Expansion)
      → Returns o
      → ((sub_calls : List Call)
          → Returns (
              batch expand ms safe f
                (drop (header_size + packed_length rest) rest)
                (calls ++ sub_calls)))
      → Returns (after_call expand ms safe f rest calls o)
  after_call-Returns f rest calls none r next = cc r.1
  after_call-Returns f rest calls (some reverts) r next = (reverts, refl)
  after_call-Returns f rest calls (some (makes sub_calls)) r next = next sub_calls

  batch-Returns :
      (f k : ℕ) (rest : Bytes) (calls : List Call)
      → length rest < f
      → significant rest ≤ k
      → ((r : Bytes) → significant r ≤ k → Returns (expand (packed_call ms safe r)))
      → Returns (batch expand ms safe f rest calls)
  batch-Returns zero k rest calls l s h = absurd (omega arith)
  batch-Returns (suc f) k rest calls l s h = elim (round expand ms safe f rest calls) [
    | ends end e ↦ (makes calls, e)
    | breaks e ↦ (reverts, e)
    | goes_on more short good ↦
        rw (batch_goes_on expand ms safe f rest calls more short good refl) (
          after_call-Returns f rest calls _ (h rest s) λ sub_calls.
            let n = header_size + packed_length rest in
            batch-Returns f k (drop n rest) (calls ++ sub_calls)
              (omega (arith, length-drop n rest, ltb→lt 32 (length rest) more))
              (omega (arith, significant-drop n rest)) h)
  ]

-- The data of a packed transaction has fewer significant bytes than the rest it is read from.
significant-packed :
    (rest : Bytes) (n : ℕ)
    → significant (padded n (drop header_size rest)) ≤ significant rest - header_size
significant-packed rest n =
    omega (arith, significant-padded n (drop header_size rest), significant-drop header_size rest)

-- What `Bytes` reads from data with no significant byte is empty.
Cut-nil : {d b : Bytes} → Cut d b → significant d ≡ 0 → b ≡ []
Cut-nil {d} c z =
    let w = drop 24 (take 32 (drop c.offset d)) in
    let zeros : significant w ≡ 0 = omega (
      arith,
      z,
      significant-drop 24 (take 32 (drop c.offset d)),
      significant-take 32 (drop c.offset d),
      significant-drop c.offset d,
    ) in
    let empty : c.len ≡ 0 = elim c.counted [ inl e ↦ e | inr e ↦ e ∙ from_be_zeros w zeros ] in
    c.content ∙ ap (λ n. take n (drop (c.offset + 32) d)) empty

significant-Cut : {d b : Bytes} → Cut d b → significant b ≤ significant d
significant-Cut {d} c = rw c.content (
    omega
      (arith, significant-take c.len (drop (c.offset + 32) d), significant-drop (c.offset + 32) d))

module _ ⦃k : Keccak⦄ where
  batch_nil :
      (ms : MultiSend) (safe : Address) (f : ℕ)
      → batch (expand_call f safe) ms safe 1 [] [] ≡ some (makes [])
  unfolding batch
  batch_nil ms safe f = refl

  -- Enough depth for the significant bytes of the data is enough.
  expand_call-Returns :
      (f : ℕ) (safe : Address) (c : Call) → significant c.input < f → Returns (expand_call f safe c)
  expand_call-Returns zero safe c h = absurd (omega arith)
  expand_call-Returns (suc f) safe c h = elim (handled f safe c) [
    | kept is e ↦ (makes (c ∷ []), e)
    | fails e ↦ (reverts, e)
    | decoded ms transactions at read e ↦
        let cut = bytes-Cut (drop 4 c.input) 0 read in
        let bound = significant-drop 4 c.input in
        rw e (elim (Bool-cases (significant (drop 4 c.input) == 0)) [
          | inl z ↦ rw (Cut-nil cut (ground arith)) (makes [], batch_nil ms safe f)
          | inr n ↦
              batch-Returns (expand_call f safe) ms safe (suc (length transactions))
                (significant transactions) transactions [] (omega arith) (omega arith)
                λ r le.
                  expand_call-Returns f safe (packed_call ms safe r)
                    (ground (arith, significant-packed r (packed_length r), significant-Cut cut))
        ])
  ]

  -- `emptyMultiSend` has a call, whose data the encoder does not refuse.
  empty_multi_send-ok : (to : Address) → (c : Call) × (empty_multi_send to ≡ ok c)
  unfolding empty_multi_send calldata encode encode_onto
  empty_multi_send-ok to = (_, refl)

  expanded-cons :
      (to : Address) (o : Option Expansion)
      → Returns o
      → (c : Call) × (cs : List Call) × (expanded to o ≡ ok (c ∷ cs))
  unfolding expanded
  expanded-cons to none r = cc r.1
  expanded-cons to (some reverts) r = (reverting_multi_send to, [], refl)
  expanded-cons to (some (makes [])) r = let (c, e) = empty_multi_send-ok to in (c, [], rw e)
  expanded-cons to (some (makes (c ∷ cs))) r = (c, cs, refl)

  -- The expansion of every transaction returns, with at least one call: no nesting of MultiSends
  -- makes it go on for ever, and the depth of the model is never used up.
  pub expand_transaction_calls-cons :
      (tx : SafeTransaction) (value : ℤ)
      → (c : Call) × (cs : List Call) × (expand_transaction_calls tx value ≡ ok (c ∷ cs))
  unfolding expand_transaction_calls
  expand_transaction_calls-cons tx value = expanded-cons tx.to _ (
      expand_call-Returns (suc (length tx.input)) tx.safe _
        (omega (arith, significant-le-length tx.input)))
