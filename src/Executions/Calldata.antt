-- ===== src/Executions/Calldata.antt =====
-- The calldata of a call to execTransaction is decoded into the transaction that it was encoded from.
use safenet_arbitration_bot.Base.{
  ℤ, pos, ℕ, ◌^◌, ◌<◌, ◌≤◌, ◌≡◌, refl, sym, ap, ◌∙◌, ◌++◌, true, false, Option, none, some, arith,
  Bytes, bytes_eq_iff, length, length-append, length-take, take-append, drop-append, ok, >>=-eq-ok,
  ok-injective, codes, [], ◌∷◌, ltb,
}
use safenet_arbitration_bot.Keccak.{Keccak, hash, length-hash}
use safenet_arbitration_bot.Solabi.Encode.{
  Value, Values, nil, cons, address, uint, uint64, bytes, selector, calldata, encode_values,
}
use safenet_arbitration_bot.Solabi.Encode.Shape.{AllPlain, value_at}
use safenet_arbitration_bot.Solabi.RoundTrip.{Decodes, decode-encode}
use safenet_arbitration_bot.Ethrpc.Types.{Address}
use safenet_arbitration_bot.Safenet.Types.{SafeTransaction}
use safenet_arbitration_bot.Executions.Types.{Execution}
use safenet_arbitration_bot.Executions.Decode.{
  exec_transaction_signature, exec_transaction, no_error, read_operation, decode_fields,
  call_fields, read_fully, decode_call,
}
use safenet_arbitration_bot.Executions.Matched.{IsMatch, matches_iff}
use safenet_arbitration_bot.Executions.Gather.{Finder}
use safenet_arbitration_bot.Executions.Decoder.{set_nonce, candidate}

-- The arguments of execTransaction, with numbers for its amounts.
pub record Arguments : Type 0 where
  pub to : Address
  pub value : ℕ
  pub input : Bytes
  pub operation : ℕ
  pub safe_tx_gas : ℕ
  pub base_gas : ℕ
  pub gas_price : ℕ
  pub gas_token : Address
  pub refund_receiver : Address
  pub signatures : Bytes

abbrev pub values_of : Arguments → Values
values_of a = cons (address a.to) (
    cons (uint a.value) (
      cons (bytes a.input) (
        cons (uint64 a.operation) (
          cons (uint a.safe_tx_gas) (
            cons (uint a.base_gas) (
              cons (uint a.gas_price) (
                cons (address a.gas_token)
                  (cons (address a.refund_receiver) (cons (bytes a.signatures) nil)))))))))

abbrev pub transaction_of : Arguments → Address → ℕ → Option ℤ → SafeTransaction
transaction_of a safe chain_id nonce = record {
  chain_id = some (pos chain_id);
  safe = safe;
  to = a.to;
  value = some (pos a.value);
  input = a.input;
  operation = a.operation;
  safe_tx_gas = some (pos a.safe_tx_gas);
  base_gas = some (pos a.base_gas);
  gas_price = some (pos a.gas_price);
  gas_token = a.gas_token;
  refund_receiver = a.refund_receiver;
  nonce = nonce;
}

-- The operation is an enum, and the addresses have their 20 bytes.
pub record IsCallable (a : Arguments) : Type 0 where
  pub operation : a.operation ≤ 1
  pub to : length a.to ≡ 20
  pub gas_token : length a.gas_token ≡ 20
  pub refund_receiver : length a.refund_receiver ≡ 20

read_operation-enum : (n : ℕ) → n ≤ 1 → read_operation n true ≡ n
unfolding read_operation
read_operation-enum n h = ground arith

values_of-AllPlain : (a : Arguments) → IsCallable a → AllPlain (values_of a)
values_of-AllPlain a c = ground arith

module _ (a : Arguments) (d : Bytes) (c : IsCallable a) (small : length d < 2 ^ 64)
    (h : encode_values (values_of a) ≡ ok d) where
  -- Argument `i`, read at its type.
  argument-Decodes : (i : ℕ) {v : Value} → value_at (values_of a) i ≡ some v → Decodes v d i
  argument-Decodes i e = decode-encode (values_of a) i (values_of-AllPlain a c) small h e

  decode_fields-values :
      (safe : Address) (chain_id : ℕ)
      → decode_fields d safe chain_id none ≡ (transaction_of a safe chain_id none, none)
  unfolding decode_fields no_error
  decode_fields-values safe chain_id =
      let p₀ : Decodes (address a.to) d 0 = argument-Decodes 0 refl in
      let p₁ : Decodes (uint a.value) d 1 = argument-Decodes 1 refl in
      let p₂ : Decodes (bytes a.input) d 2 = argument-Decodes 2 refl in
      let p₃ : Decodes (uint64 a.operation) d 3 = argument-Decodes 3 refl in
      let p₄ : Decodes (uint a.safe_tx_gas) d 4 = argument-Decodes 4 refl in
      let p₅ : Decodes (uint a.base_gas) d 5 = argument-Decodes 5 refl in
      let p₆ : Decodes (uint a.gas_price) d 6 = argument-Decodes 6 refl in
      let p₇ : Decodes (address a.gas_token) d 7 = argument-Decodes 7 refl in
      let p₈ : Decodes (address a.refund_receiver) d 8 = argument-Decodes 8 refl in
      rw (p₀, p₁, p₂, p₃, p₄, p₅, p₆, p₇, p₈)
        (λ i. (
          record (transaction_of a safe chain_id none) {
            operation = read_operation-enum a.operation c.operation i;
          },
          none,
        ))

  call_fields-values :
      (safe : Address) (chain_id : ℕ)
      → call_fields d safe chain_id none ≡ (transaction_of a safe chain_id none, none)
  unfolding call_fields
  call_fields-values safe chain_id =
      let p : Decodes (bytes a.signatures) d 9 = argument-Decodes 9 refl in
      rw (decode_fields-values safe chain_id, p) refl

module _ ⦃k : Keccak⦄ where
  length-exec_transaction : length exec_transaction ≡ 4
  unfolding selector
  length-exec_transaction = omega (
    arith,
    length-take 4 (hash (codes exec_transaction_signature ∷ [])),
    length-hash (codes exec_transaction_signature ∷ []),
  )

  -- A selector of four bytes is read back from the calldata, and its arguments are what follows it.
  decode_call-append :
      (safe : Address) (chain_id : ℕ) (sel d : Bytes)
      → length sel ≡ 4
      → sel ≡ exec_transaction
      → decode_call safe chain_id (sel ++ d) ≡ read_fully (call_fields d safe chain_id none)
  unfolding decode_call
  decode_call-append safe chain_id sel d size same =
      let long : ltb (length (sel ++ d)) 4 ≡ false = ground (arith, length-append sel d) in
      rw
        (
          long,
          take-append 4 sel d size,
          drop-append 4 sel d size,
          (bytes_eq_iff sel exec_transaction).1 same,
        )
        refl

  pub decode_call-calldata :
      (a : Arguments) (safe : Address) (chain_id : ℕ) {input : Bytes}
      → IsCallable a
      → length input < 2 ^ 64
      → calldata exec_transaction (values_of a) ≡ ok input
      → decode_call safe chain_id input ≡ some (transaction_of a safe chain_id none)
  unfolding calldata read_fully
  decode_call-calldata a safe chain_id {input} c small h =
      let (d, encodes, h') = >>=-eq-ok (encode_values (values_of a)) _ h in
      let e : exec_transaction ++ d ≡ input = ok-injective h' in
      let short : length d < 2 ^ 64 =
        omega (arith, ap length e, length-append exec_transaction d) in
      let read = call_fields-values a d c short encodes safe chain_id in
      ap (decode_call safe chain_id) (sym e)
      ∙ decode_call-append safe chain_id exec_transaction d length-exec_transaction refl
      ∙ ap read_fully read

  -- The calldata of a call to the Safe's execTransaction, whose transaction, with the nonce, has the
  -- hash that the Safe logged, is decoded into that transaction: for an operation that is an enum,
  -- addresses of 20 bytes, amounts that are uint256s, and data below 2^64 bytes.
  pub candidate-calldata :
      (f : Finder) (a : Arguments) (safe : Address) (e : Execution) (nonce : ℕ) {input : Bytes}
      → IsCallable a
      → length input < 2 ^ 64
      → calldata exec_transaction (values_of a) ≡ ok input
      → IsMatch (transaction_of a safe f.eth.chain_id (some (pos nonce))) e.safe_tx_hash
      → candidate f safe input e nonce
        ≡ some (transaction_of a safe f.eth.chain_id (some (pos nonce)))
  unfolding candidate set_nonce
  candidate-calldata f a safe e nonce c small h m =
      rw
        (
          decode_call-calldata a safe f.eth.chain_id c small h,
          (matches_iff (transaction_of a safe f.eth.chain_id (some (pos nonce))) e.safe_tx_hash).1
              m,
        )
        refl
