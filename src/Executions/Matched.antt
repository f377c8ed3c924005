-- ===== src/Executions/Matched.antt =====
-- What `matches` decides, and that it hashes no transaction whose hash would panic.
use safenet_arbitration_bot.Base.{
  ℤ, pos, negsuc, ◌^◌, ◌<◌, ◌≤◌, ◌≡◌, refl, ◌↔◌, true, Option, none, some, List, [], ◌∷◌, All,
  ltb→lt, lt→ltb, ltb, &&-eq-true, bytes_eq_iff, to_be, Bytes, Result, ok, err, arith,
}
use safenet_arbitration_bot.Keccak.{Keccak}
use safenet_arbitration_bot.Solabi.Encode.{encode_uint}
use safenet_arbitration_bot.Ethrpc.Types.{Hash}
use safenet_arbitration_bot.Safenet.Types.{SafeTransaction}
use safenet_arbitration_bot.Safenet.Proposals.{uint_word, transaction_hash}
use safenet_arbitration_bot.Executions.Decode.{in_range, amounts_of, is_hash, matches}

abbrev pub InRange : Option ℤ → Type 0
InRange none = ⊥
InRange (some (pos n)) = n < 2 ^ 256
InRange (some (negsuc n)) = ⊥

in_range_iff : (amounts : List (Option ℤ)) → (in_range amounts ≡ true) ↔ All InRange amounts
unfolding in_range
in_range_iff [] = (λ _. tt, λ _. refl)
in_range_iff (none ∷ amounts) = (λ h. cc, λ h. elim h.0 [ ])
in_range_iff (some (negsuc n) ∷ amounts) = (λ h. cc, λ h. elim h.0 [ ])
in_range_iff (some (pos n) ∷ amounts) = (
  λ h.
      let (small, rest) = &&-eq-true (ltb n (2 ^ 256)) (in_range amounts) h in
      (ltb→lt n (2 ^ 256) small, (in_range_iff amounts).0 rest),
  λ h. rw (lt→ltb n (2 ^ 256) h.0, (in_range_iff amounts).1 h.1),
)

uint_word-InRange : (o : Option ℤ) → InRange o → (w : Bytes) × (uint_word o ≡ ok w)
unfolding encode_uint
uint_word-InRange none h = elim h [ ]
uint_word-InRange (some (negsuc n)) h = elim h [ ]
uint_word-InRange (some (pos n)) h = (to_be 32 n, rw (lt→ltb n (2 ^ 256) h))

module _ ⦃k : Keccak⦄ where
  -- A transaction whose amounts are uint256s has a hash.
  transaction_hash-InRange :
      (tx : SafeTransaction)
      → All InRange (amounts_of tx)
      → (h : Hash) × (transaction_hash tx ≡ ok h)
  unfolding transaction_hash
  transaction_hash-InRange tx (c, (v, (s, (b, (g, (n, _)))))) =
      let (_, c') = uint_word-InRange tx.chain_id c in
      let (_, v') = uint_word-InRange tx.value v in
      let (_, s') = uint_word-InRange tx.safe_tx_gas s in
      let (_, b') = uint_word-InRange tx.base_gas b in
      let (_, g') = uint_word-InRange tx.gas_price g in
      let (_, n') = uint_word-InRange tx.nonce n in rw (c', v', s', b', g', n') (_, refl)

  abbrev pub IsMatch : SafeTransaction → Hash → Type 0
  IsMatch tx want =
      (tx.operation ≤ 1) × All InRange (amounts_of tx) × (transaction_hash tx ≡ ok want)

  is_hash_iff : (r : Result Hash) (want : Hash) → (is_hash r want ≡ true) ↔ (r ≡ ok want)
  is_hash_iff (ok h) want = ground (arith, bytes_eq_iff h want)
  is_hash_iff (err e) want = (λ h. cc, λ h. cc)

  -- `matches` holds exactly of a call or a delegate call whose amounts are uint256s and that
  -- hashes to the wanted hash.
  pub matches_iff :
      (tx : SafeTransaction) (want : Hash) → (matches tx want ≡ true) ↔ IsMatch tx want
  unfolding matches
  matches_iff tx want =
      ground (arith, in_range_iff (amounts_of tx), is_hash_iff (transaction_hash tx) want)
