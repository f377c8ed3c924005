-- ===== src/Checks/Classify/Network.antt =====
-- checks.go: `Classify` of a transaction on a network that is not covered.
use safenet_arbitration_bot.Base.{
  ℤ, is_uint64, low_uint64, ◌≡◌, inl, inr, refl, false, ◌&&◌, ◌==◌, ok,
}
use safenet_arbitration_bot.Keccak.{Keccak}
use safenet_arbitration_bot.Ethrpc.Types.{Dialer}
use safenet_arbitration_bot.Safenet.Types.{Proposal}
use safenet_arbitration_bot.Checks.Components.Parts.{HasAmounts, components-total}
use safenet_arbitration_bot.Checks.Components.Refund.{RefundPanics}
use safenet_arbitration_bot.Checks.Safe.{networks, contains}
use safenet_arbitration_bot.Checks.Table.{off_network, off_network_fn}
use safenet_arbitration_bot.Checks.Classify.{
  classification, before_secure, matches_any, first_insecure, after_insecure, classify_with,
  classify,
}

module _ ⦃k : Keccak⦄ where
  -- A transaction with its amounts and a safeBlock, of a Safe on a network that the Charter does
  -- not cover, whose refund is not one that panics, is insecure by R-4.0 for any dialer: no chain is
  -- read.
  pub classify-off_network :
      (dial : Dialer) (p : Proposal) {n v s b g : ℤ}
      → HasAmounts p.transaction n v s b g
      → ¬ RefundPanics p.transaction s b g
      → (p.safe_block == 0) ≡ false
      → (is_uint64 n && contains networks (low_uint64 n)) ≡ false
      → classify dial p ≡ ok (classification off_network)
  unfolding classify classify_with off_network_fn first_insecure matches_any after_insecure
      before_secure
  classify-off_network dial p amounts fine block off =
      elim (components-total p.transaction amounts) [
        | inl (panics, _) ↦ absurd (fine panics)
        | inr (_, c, cs, parts) ↦ rw (parts, block, off) refl
      ]
