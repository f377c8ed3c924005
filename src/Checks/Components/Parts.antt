-- ===== src/Checks/Components/Parts.antt =====
-- transaction.go: what `components` returns.
use safenet_arbitration_bot.Base.{
  ℤ, ◌≡◌, ◌⊎◌, inl, inr, refl, ap, Option, none, some, List, [], ◌∷◌, ◌++◌, String, ok, err, panic,
}
use safenet_arbitration_bot.Keccak.{Keccak}
use safenet_arbitration_bot.Safenet.Types.{SafeTransaction}
use safenet_arbitration_bot.Checks.Calls.{Call}
use safenet_arbitration_bot.Checks.MultiSend.Total.{expand_transaction_calls-cons}
use safenet_arbitration_bot.Checks.Components.Refund.{RefundPanics, gas_refund_lem}
use safenet_arbitration_bot.Checks.Components.{required, append_refund, gas_refund, components}

-- The amounts of the transaction, none of which is nil.
abbrev pub HasAmounts : SafeTransaction → ℤ → ℤ → ℤ → ℤ → ℤ → Type 0
HasAmounts tx chain_id value safe_tx_gas base_gas gas_price =
    (tx.chain_id ≡ some chain_id)
    × (tx.value ≡ some value)
    × (tx.safe_tx_gas ≡ some safe_tx_gas)
    × (tx.base_gas ≡ some base_gas)
    × (tx.gas_price ≡ some gas_price)

required-some : (name : String) {o : Option ℤ} {n : ℤ} → o ≡ some n → required name o ≡ ok n
required-some name h = ap (required name) h

append_refund-cons :
    (c : Call) (cs : List Call) (r : Option Call)
    → (ds : List Call) × (append_refund (c ∷ cs) r ≡ c ∷ ds)
unfolding append_refund
append_refund-cons c cs none = (cs, refl)
append_refund-cons c cs (some r) = (cs ++ r ∷ [], refl)

module _ ⦃k : Keccak⦄ (tx : SafeTransaction) {n v s b g : ℤ} where
  components-refund :
      HasAmounts tx n v s b g
      → {r : Option Call} → gas_refund tx s b g ≡ ok r
      → (c : Call) × (cs : List Call) × (components tx
          ≡ ok (record { safe = record { address = tx.safe; chain_id = n }; calls = c ∷ cs }))
  unfolding components
  components-refund (has_n, has_v, has_s, has_b, has_g) {r} refunded =
      let (c, cs, expansion) = expand_transaction_calls-cons tx v in
      let (ds, appended) = append_refund-cons c cs r in
      (
        c,
        ds,
        rw
            (
              required-some "safe transaction has no chainId" has_n,
              required-some "safe transaction has no value" has_v,
              required-some "safe transaction has no safeTxGas" has_s,
              required-some "safe transaction has no baseGas" has_b,
              required-some "safe transaction has no gasPrice" has_g,
              expansion,
              refunded,
              appended,
            )
            refl,
      )

  components-panic :
      HasAmounts tx n v s b g → gas_refund tx s b g ≡ err panic → components tx ≡ err panic
  unfolding components
  components-panic (has_n, has_v, has_s, has_b, has_g) panics =
      let (c, cs, expansion) = expand_transaction_calls-cons tx v in
      rw
        (
          required-some "safe transaction has no chainId" has_n,
          required-some "safe transaction has no value" has_v,
          required-some "safe transaction has no safeTxGas" has_s,
          required-some "safe transaction has no baseGas" has_b,
          required-some "safe transaction has no gasPrice" has_g,
          expansion,
          panics,
        )
        refl

  -- `components` of a transaction whose amounts are all given, whatever its data, panics exactly
  -- when `gasRefund` has a negative refund to pay in a token. Otherwise it returns the calls: they
  -- are for the transaction's Safe, on its chain, and there is at least one.
  pub components-total :
      HasAmounts tx n v s b g
      → (RefundPanics tx s b g × (components tx ≡ err panic))
        ⊎ ((¬ RefundPanics tx s b g)
            × (c : Call) × (cs : List Call) × (components tx
                ≡ ok
                    (record { safe = record { address = tx.safe; chain_id = n }; calls = c ∷ cs })))
  components-total amounts = elim (gas_refund_lem tx s b g) [
    | inl (free, r) ↦
        let (c, cs, parts) = components-refund amounts r in inr ((λ p. p.0 free), c, cs, parts)
    | inr outcome ↦ elim outcome [
      | inl (panics, r) ↦ inl (panics, components-panic amounts r)
      | inr (_, fine, c, r, _) ↦
          let (c', cs, parts) = components-refund amounts r in inr (fine, c', cs, parts)
    ]
  ]
