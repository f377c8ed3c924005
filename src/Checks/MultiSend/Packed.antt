-- ===== src/Checks/MultiSend/Packed.antt =====
-- multisend.go: the packed transactions that a batch is made of.
use safenet_arbitration_bot.Base.{
  ℤ, pos, negsuc, ℕ, zero, suc, ◌+◌, ◌^◌, ◌≤◌, ◌<◌, ◌≡◌, refl, ap, sym, ◌∙◌, true, false, ◌&&◌,
  Option, some, List, [], ◌∷◌, ◌++◌, append-nil, append_assoc, All, Bytes, from_be, to_be,
  from_be-to_be, length-to_be, is_zero, padded, padded-append, take, drop, take-append, drop-append,
  drop-drop, length, length-append, ltb, lt→ltb, arith,
}
use safenet_arbitration_bot.Ethrpc.Types.{Address}
use safenet_arbitration_bot.Checks.Calls.{CallKind, Call, batched}
use safenet_arbitration_bot.Checks.MultiSend.{
  MultiSend, max_data_length, Expansion, makes, is_v1_5_0, header_size, slice, target,
  packed_length, packed_operation, packed_call, too_long, bad_operation, batch,
}

-- The number that a value's word holds. A negative value has none.
abbrev pub value_number : Call → ℕ
value_number c = elim c.value [ pos n ↦ n | negsuc n ↦ 0 ]

-- The header and the packed form of a call, as a MultiSend's `transactions` has it.
abbrev pub header : Call → Bytes
header c = c.operation ∷ (c.to ++ (to_be 32 (value_number c) ++ to_be 32 (length c.input)))

abbrev pub packed : Call → Bytes
packed c = header c ++ c.input

abbrev pub all_packed : List Call → Bytes
all_packed [] = []
all_packed (c ∷ cs) = header c ++ (c.input ++ all_packed cs)

-- A call that the MultiSend takes, and whose target is not replaced by the Safe.
pub record IsPackable (ms : MultiSend) (c : Call) : Type 0 where
  pub account : length c.to ≡ 20
  pub positive : c.value ≡ pos (value_number c)
  pub amount : value_number c < 2 ^ 256
  pub short : length c.input ≤ max_data_length
  pub operation : bad_operation ms c.operation ≡ false
  pub other : (is_zero c.to && is_v1_5_0 ms.version) ≡ false
  pub kind : c.kind ≡ batched

from_be-byte : (x : ℕ) → from_be (x ∷ []) ≡ x
unfolding from_be
from_be-byte x = omega arith

module _ (ms : MultiSend) (safe : Address) (c : Call) (p : IsPackable ms c) (after : Bytes) where
  abbrev value_word : Bytes
  value_word = to_be 32 (value_number c)

  abbrev length_word : Bytes
  length_word = to_be 32 (length c.input)

  length-header : length (header c) ≡ 85
  length-header = omega (
    arith,
    length-append c.to (value_word ++ length_word),
    length-append value_word length_word,
    length-to_be 32 (value_number c),
    length-to_be 32 (length c.input),
    p.account,
  )

  padded-header : padded header_size (header c ++ after) ≡ header c
  padded-header = padded-append 85 (header c) after length-header

  drop-to : drop 20 (c.to ++ (value_word ++ length_word)) ≡ value_word ++ length_word
  drop-to = drop-append 20 c.to (value_word ++ length_word) p.account

  operation-header : packed_operation (header c ++ after) ≡ c.operation
  operation-header = ap (λ h. from_be (take 1 h)) padded-header ∙ from_be-byte c.operation

  to-header : slice 1 21 (header c) ≡ c.to
  to-header = take-append 20 c.to (value_word ++ length_word) p.account

  value-header : from_be (slice 21 53 (header c)) ≡ value_number c
  value-header = rw drop-to (
      ap from_be (take-append 32 value_word length_word (length-to_be 32 (value_number c)))
      ∙ from_be-to_be 32 (value_number c) (omega (arith, p.amount)))

  drop-value : drop 52 (c.to ++ (value_word ++ length_word)) ≡ length_word
  drop-value =
      sym (drop-drop 32 20 (c.to ++ (value_word ++ length_word)))
      ∙ ap (drop 32) drop-to
      ∙ drop-append 32 value_word length_word (length-to_be 32 (value_number c))

  take-length : take 32 length_word ≡ length_word
  take-length =
      ap (take 32) (sym (append-nil length_word))
      ∙ take-append 32 length_word [] (length-to_be 32 (length c.input))

  size-header : packed_length (header c ++ after) ≡ length c.input
  size-header =
      ap (λ h. from_be (slice 53 85 h)) padded-header
      ∙ ap (λ l. from_be (take 32 l)) drop-value
      ∙ ap from_be take-length
      ∙ from_be-to_be 32 (length c.input) (omega (arith, p.short))

  drop-header : drop header_size (header c ++ after) ≡ after
  drop-header = drop-append 85 (header c) after length-header

module _ (ms : MultiSend) (safe : Address) (c : Call) (p : IsPackable ms c) (rest : Bytes) where
  abbrev text : Bytes
  text = header c ++ (c.input ++ rest)

  -- The first packed transaction of a text is read back.
  packed_call-header : packed_call ms safe text ≡ c
  packed_call-header =
      let after = c.input ++ rest in
      let op = operation-header ms safe c p after in
      let size = size-header ms safe c p after in
      let head = padded-header ms safe c p after in
      let to = ap (slice 1 21) head ∙ to-header ms safe c p after in
      let value : pos (from_be (slice 21 53 (padded header_size text))) ≡ c.value =
        ap (λ h. pos (from_be (slice 21 53 h))) head
        ∙ ap pos (value-header ms safe c p after)
        ∙ sym p.positive in
      let input : padded (packed_length text) (drop header_size text) ≡ c.input =
        ap (λ n. padded n (drop header_size text)) size
        ∙ ap (padded (length c.input)) (drop-header ms safe c p after)
        ∙ padded-append (length c.input) c.input rest refl in
      let read = packed_call ms safe text in
      let make : Address → ℤ → Bytes → ℕ → CallKind → Call =
        λ t v i o k. record { to = t; value = v; input = i; operation = o; kind = k } in
      let kept : target ms safe c.to ≡ c.to = rw p.other refl in
      ap (λ t. make t read.value read.input read.operation batched) (ap (target ms safe) to ∙ kept)
      ∙ ap (λ v. make c.to v read.input read.operation batched) value
      ∙ ap (λ i. make c.to c.value i read.operation batched) input
      ∙ ap (λ o. make c.to c.value c.input o batched) op
      ∙ ap (make c.to c.value c.input c.operation) (sym p.kind)

  drop-packed : drop (header_size + packed_length text) text ≡ rest
  drop-packed =
      let after = c.input ++ rest in
      ap (λ n. drop (header_size + n) text) (size-header ms safe c p after)
      ∙ sym (drop-drop (length c.input) header_size text)
      ∙ ap (drop (length c.input)) (drop-header ms safe c p after)
      ∙ drop-append (length c.input) c.input rest refl

module _ (expand : Call → Option Expansion) (ms : MultiSend) (safe : Address) where
  -- A call of a batch that is kept as it is.
  abbrev pub IsLeaf : Call → Type 0
  IsLeaf c = IsPackable ms c × (expand c ≡ some (makes (c ∷ [])))

  batch-packed :
      (f : ℕ) (calls : List Call) (c : Call) (rest : Bytes)
      → IsLeaf c
      → batch expand ms safe (suc f) (header c ++ (c.input ++ rest)) calls
        ≡ batch expand ms safe f rest (calls ++ c ∷ [])
  unfolding batch
  batch-packed f calls c rest (p, leaf) =
      let after = c.input ++ rest in
      let long : ltb 32 (length (header c ++ after)) ≡ true =
        lt→ltb 32 (length (header c ++ after))
          (omega (arith, length-append (header c) after, length-header ms safe c p after)) in
      let size = size-header ms safe c p after in
      let fine : too_long (packed_length (header c ++ after)) ≡ false =
        ap too_long size ∙ ground (arith, p.short) in
      let allowed : bad_operation ms (packed_operation (header c ++ after)) ≡ false =
        ap (bad_operation ms) (operation-header ms safe c p after) ∙ p.operation in
      let expands : expand (packed_call ms safe (header c ++ after)) ≡ some (makes (c ∷ [])) =
        ap expand (packed_call-header ms safe c p rest) ∙ leaf in
      rw (long, fine, allowed, expands, batch)
        (ap (λ t. batch expand ms safe f t (calls ++ c ∷ [])) (drop-packed ms safe c p rest))

  -- The loop of a MultiSend's expansion reads back the calls of a batch that is packed from them:
  -- for calls that the MultiSend takes, with at most 2^24 bytes of data and a uint256 as the value,
  -- to accounts of 20 bytes that its version does not replace by the Safe, and that the expansion
  -- keeps as they are; with more fuel than calls.
  pub batch-all_packed :
      (f : ℕ) (calls cs : List Call)
      → length cs < f
      → All IsLeaf cs
      → batch expand ms safe f (all_packed cs) calls ≡ some (makes (calls ++ cs))
  unfolding batch
  batch-all_packed zero calls cs h leaves = absurd (omega arith)
  batch-all_packed (suc f) calls [] h leaves = ap (λ xs. some (makes xs)) (sym (append-nil calls))
  batch-all_packed (suc f) calls (c ∷ cs) h (leaf, leaves) =
      batch-packed f calls c (all_packed cs) leaf
      ∙ batch-all_packed f (calls ++ c ∷ []) cs (omega arith) leaves
      ∙ ap (λ xs. some (makes xs)) (append_assoc calls (c ∷ []) cs)
