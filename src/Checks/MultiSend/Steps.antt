-- ===== src/Checks/MultiSend/Steps.antt =====
-- The ways that `expandMultiSendCall` handles a call, and that a round of its loop goes.
use safenet_arbitration_bot.Base.{
  ℕ, suc, ◌+◌, ◌≡◌, true, false, not, ◌&&◌, Option, none, some, List, [], ◌∷◌, ◌++◌, inl, inr, ltb,
  ◌==◌, Bytes, length, drop, Error, Bool-cases, Option-cases,
}
use safenet_arbitration_bot.Keccak.{Keccak}
use safenet_arbitration_bot.Ethrpc.Types.{Address}
use safenet_arbitration_bot.Solabi.Decode
use safenet_arbitration_bot.Safenet.Types.{operation_call, operation_delegate_call}
use safenet_arbitration_bot.Checks.Calls.{Call}
use safenet_arbitration_bot.Checks.MultiSend.{
  MultiSend, multi_send_at, Expansion, reverts, makes, header_size, packed_length, packed_operation,
  packed_call, too_long, bad_operation, batch, no_function, expand_call,
}

module _ ⦃k : Keccak⦄ where
  -- What is left as it is: a call to another account, one to MultiSendCallOnly that is no delegate
  -- call, or one whose transactions the decoder refuses.
  pub data IsKept (c : Call) : Type 0 where
    other_account : multi_send_at c.to ≡ none → IsKept c
    direct :
        (ms : MultiSend)
        → multi_send_at c.to ≡ some ms
        → (c.operation == operation_call && not ms.call_only) ≡ false
        → (c.operation == operation_delegate_call) ≡ false
        → IsKept c
    undecodable : (e : Error) → (Decode.bytes (drop 4 c.input) 0 none).1 ≡ some e → IsKept c

  pub data Handled (f : ℕ) (safe : Address) (c : Call) : Type 0 where
    kept : IsKept c → expand_call (suc f) safe c ≡ some (makes (c ∷ [])) → Handled f safe c
    fails : expand_call (suc f) safe c ≡ some reverts → Handled f safe c
    decoded :
        (ms : MultiSend) (transactions : Bytes)
        → multi_send_at c.to ≡ some ms
        → Decode.bytes (drop 4 c.input) 0 none ≡ (transactions, none)
        → expand_call (suc f) safe c
          ≡ batch (expand_call f safe) ms safe (suc (length transactions)) transactions []
        → Handled f safe c

  pub handled : (f : ℕ) (safe : Address) (c : Call) → Handled f safe c
  unfolding expand_call
  handled f safe c = elim (Option-cases (multi_send_at c.to)) [
    | inl a ↦ kept (other_account a) (rw (a, expand_call))
    | inr (ms, a) ↦ elim (Bool-cases (no_function c.input)) [
      | inl n ↦ fails (rw (a, n, expand_call))
      | inr n ↦ elim (Bool-cases (c.operation == operation_call && not ms.call_only)) [
        | inl r ↦ fails (rw (a, n, r, expand_call))
        | inr r ↦ elim (Bool-cases (c.operation == operation_delegate_call)) [
          | inr o ↦ kept (direct ms a r o) (rw (a, n, r, o, expand_call))
          | inl d ↦
              let read = Decode.bytes (drop 4 c.input) 0 none in
              elim (Option-cases read.1) [
                | inr (e, bad) ↦ kept (undecodable e bad) (rw (a, n, r, d, bad, expand_call))
                | inl fine ↦
                    decoded ms read.0 a (λ i. (read.0, fine i)) (rw (a, n, r, d, fine, expand_call))
              ]
        ]
      ]
    ]
  ]

module _ (expand : Call → Option Expansion) (ms : MultiSend) (safe : Address) where
  -- A round of the loop: what it returns, if it does not go on.
  pub data Round (f : ℕ) (rest : Bytes) (calls : List Call) : Type 0 where
    ends :
        ltb 32 (length rest) ≡ false
        → batch expand ms safe (suc f) rest calls ≡ some (makes calls)
        → Round f rest calls
    breaks : batch expand ms safe (suc f) rest calls ≡ some reverts → Round f rest calls
    goes_on :
        ltb 32 (length rest) ≡ true
        → too_long (packed_length rest) ≡ false
        → bad_operation ms (packed_operation rest) ≡ false
        → Round f rest calls

  pub round : (f : ℕ) (rest : Bytes) (calls : List Call) → Round f rest calls
  unfolding batch
  round f rest calls = elim (Bool-cases (ltb 32 (length rest))) [
    | inr end ↦ ends end (rw (end, batch))
    | inl more ↦ elim (Bool-cases (too_long (packed_length rest))) [
      | inl long ↦ breaks (rw (more, long, batch))
      | inr short ↦ elim (Bool-cases (bad_operation ms (packed_operation rest))) [
        | inl bad ↦ breaks (rw (more, short, bad, batch))
        | inr good ↦ goes_on more short good
      ]
    ]
  ]

  -- After the expansion of the packed call.
  abbrev pub after_call : ℕ → Bytes → List Call → Option Expansion → Option Expansion
  after_call f rest calls none = none
  after_call f rest calls (some reverts) = some reverts
  after_call f rest calls (some (makes sub_calls)) =
      batch expand ms safe f (drop (header_size + packed_length rest) rest) (calls ++ sub_calls)

  pub batch_goes_on :
      (f : ℕ) (rest : Bytes) (calls : List Call) {o : Option Expansion}
      → ltb 32 (length rest) ≡ true
      → too_long (packed_length rest) ≡ false
      → bad_operation ms (packed_operation rest) ≡ false
      → expand (packed_call ms safe rest) ≡ o
      → batch expand ms safe (suc f) rest calls ≡ after_call f rest calls o
  unfolding batch
  batch_goes_on f rest calls {o = none} more short good e = rw (more, short, good, e, batch)
  batch_goes_on f rest calls {o = some reverts} more short good e = rw (more, short, good, e, batch)
  batch_goes_on f rest calls {o = some (makes sub_calls)} more short good e =
      rw (more, short, good, e, batch)
