-- ===== src/Checks/Components/Refund.antt =====
-- transaction.go: what `gasRefund` gives, for the amounts of a transaction.
use safenet_arbitration_bot.Base.{
  ℕ, ℤ, pos, negsuc, ◌+ℤ◌, ◌*ℤ◌, ◌==ℤ◌, ==ℤ_iff, ◌^◌, ◌<◌, ◌≡◌, ◌⊎◌, inl, inr, refl, ap, true,
  false, Option, none, some, min, is_zero, ◌++◌, [], Result, ok, err, panic, arith, Bool-cases,
  to_be, List, append-nil, lt→ltb,
}
use safenet_arbitration_bot.Keccak.{Keccak}
use safenet_arbitration_bot.Safenet.Types.{SafeTransaction, operation_call}
use safenet_arbitration_bot.Solabi.Encode.{
  address, uint, nil, cons, calldata, encode, encode_onto, encode_uint, encode_address, is_dynamic,
}
use safenet_arbitration_bot.Checks.Calls.{Call, refund}
use safenet_arbitration_bot.Checks.Components.{
  max_uint256, refund_amount, transfer_selector, transfer_input, gas_refund, token_refund,
}

abbrev pub IsNegative : ℤ → Type 0
IsNegative z = (n : ℕ) × (z ≡ negsuc n)

ℤ-cases : (z : ℤ) → ((n : ℕ) × (z ≡ pos n)) ⊎ IsNegative z
ℤ-cases (pos n) = inl (n, refl)
ℤ-cases (negsuc n) = inr (n, refl)

-- All of the gas at its price.
abbrev pub full_amount : ℤ → ℤ → ℤ → ℤ
full_amount safe_tx_gas base_gas gas_price = (safe_tx_gas +ℤ base_gas) *ℤ gas_price

-- The least of the amount and the largest uint256.
abbrev pub capped : ℤ → ℤ
capped (pos n) = pos (min max_uint256 n)
capped (negsuc n) = negsuc n

refund_amount_lem : (s b g : ℤ) → refund_amount s b g ≡ capped (full_amount s b g)
unfolding refund_amount
refund_amount_lem s b g = elim (ℤ-cases (full_amount s b g)) [
  | inl (n, h) ↦ rw h (ground arith)
  | inr (n, h) ↦ rw h refl
]

-- `gasRefund` panics on these amounts: there is a refund, in a token, and it is negative.
abbrev pub RefundPanics : SafeTransaction → ℤ → ℤ → ℤ → Type 0
RefundPanics tx s b g =
    (¬ (g ≡ pos 0)) × (is_zero tx.gas_token ≡ false) × IsNegative (full_amount s b g)

module _ ⦃k : Keccak⦄ where
  -- The call pays the amount to the receiver, in the native token or with an ERC-20's `transfer`.
  abbrev pub Pays : SafeTransaction → ℤ → Call → Type 0
  Pays tx amount c =
      (c.kind ≡ refund)
      × (c.operation ≡ operation_call)
      × (((is_zero tx.gas_token ≡ true)
            × (c.to ≡ tx.refund_receiver)
            × (c.value ≡ amount)
            × (c.input ≡ []))
          ⊎ ((is_zero tx.gas_token ≡ false)
              × (c.to ≡ tx.gas_token)
              × (c.value ≡ pos 0)
              × (n : ℕ) × (amount ≡ pos n)
              × (c.input ≡ transfer_selector ++ (encode_address tx.refund_receiver ++ to_be 32 n))))

  -- The three outcomes of `gasRefund`.
  abbrev pub Refunds : SafeTransaction → ℤ → ℤ → ℤ → Result (Option Call) → Type 0
  Refunds tx s b g r =
      ((g ≡ pos 0) × (r ≡ ok none))
      ⊎ ((RefundPanics tx s b g × (r ≡ err panic))
          ⊎ ((¬ (g ≡ pos 0))
              × (¬ RefundPanics tx s b g)
              × (c : Call) × (r ≡ ok (some c))
              × Pays tx (capped (full_amount s b g)) c))

  transfer_data :
      (sel to : List ℕ) (amount : ℕ)
      → amount < 2 ^ 256
      → calldata sel (cons (address to) (cons (uint amount) nil))
        ≡ ok (sel ++ (encode_address to ++ to_be 32 amount))
  unfolding calldata encode encode_onto encode_uint is_dynamic
  transfer_data sel to amount h =
      rw (lt→ltb amount (2 ^ 256) h, append-nil (encode_address to ++ to_be 32 amount)) refl

  -- `gasRefund` gives no call exactly when the gas price is zero. Otherwise it panics exactly when
  -- the gas at its price is negative and is paid in a token, and else gives a call that pays the
  -- gas at its price to the refund's receiver, in the token that the transaction names, where an
  -- amount beyond a uint256 becomes the largest one.
  pub gas_refund_lem : (tx : SafeTransaction) (s b g : ℤ) → Refunds tx s b g (gas_refund tx s b g)
  unfolding gas_refund token_refund transfer_input
  gas_refund_lem tx s b g = elim (Bool-cases (g ==ℤ pos 0)) [
    | inl free ↦ inl ((==ℤ_iff g (pos 0)).0 free, rw free refl)
    | inr paid ↦
        let same = refund_amount_lem s b g in
        let is_paid : ¬ (g ≡ pos 0) = λ h. let t = (==ℤ_iff g (pos 0)).1 h in cc in
        elim (Bool-cases (is_zero tx.gas_token)) [
          | inl native ↦ inr (
              inr (
                is_paid,
                (λ (_, token, _). cc),
                record {
                  to = tx.refund_receiver;
                  value = refund_amount s b g;
                  input = [];
                  operation = operation_call;
                  kind = refund;
                },
                rw (paid, native) refl,
                (refl, refl, inl (native, refl, same, refl)),
              ))
          | inr token ↦ elim (ℤ-cases (full_amount s b g)) [
            | inr (n, negative) ↦
                inr (inl ((is_paid, token, (n, negative)), rw (paid, token, same, negative) refl))
            | inl (n, fine) ↦
                let m = min max_uint256 n in
                let fits : m < 2 ^ 256 = omega arith in
                inr (
                  inr (
                    is_paid,
                    (λ (_, _, (k, negative)). cc (negative, fine)),
                    record {
                      to = tx.gas_token;
                      value = pos 0;
                      input =
                          transfer_selector ++ (encode_address tx.refund_receiver ++ to_be 32 m);
                      operation = operation_call;
                      kind = refund;
                    },
                    rw
                        (
                          paid,
                          token,
                          same,
                          fine,
                          transfer_data transfer_selector tx.refund_receiver m fits,
                        )
                        refl,
                    (refl, refl, inr (token, refl, refl, m, ap capped fine, refl)),
                  ))
          ]
        ]
  ]
