-- ===== src/Transfers/Shown.antt =====
-- The transfers that are returned are those that the logs of the scan show.
use safenet_arbitration_bot.Base.{
  ℕ, ◌≡◌, ◌↔◌, ◌⊎◌, refl, sym, ◌∙◌, inl, inr, Bool, true, false, Option, none, some, List, [], ◌∷◌,
  ◌++◌, All, Any, ◌==◌, ==_iff, Bool-cases, length, drop, from_be, Error, ok, subst, wrapped-eq-ok,
  ok-injective,
}
use safenet_arbitration_bot.Keccak.{Keccak}
use safenet_arbitration_bot.Solabi.Encode.{encode_address}
use safenet_arbitration_bot.Ethrpc.Types.{Address, Hash, Log, Client}
use safenet_arbitration_bot.Ethrpc.Logs.{Scan, scan_logs}
use safenet_arbitration_bot.Ethrpc.Logs.Filtered.{Filters}
use safenet_arbitration_bot.Transfers.Erc20.{
  Transfer, transfer_of, transfers_in, transfers_of, any_emitter, scan, transfer_event, last_topic,
  transfers_from,
}
use safenet_arbitration_bot.Transfers.Filtered.{IsAsked, transfers_from-IsAsked}

-- The transfer of a log between the accounts in the low 20 bytes of two topics.
abbrev pub moved : Log → Hash → Hash → Transfer
moved log from to = record {
  block = log.block_number;
  tx_hash = log.transaction_hash;
  log_index = log.log_index;
  token = log.address;
  from = drop 12 from;
  to = drop 12 to;
  value = from_be log.payload;
}

abbrev ShowsIn : Log → Bool → List Hash → Transfer → Type 0
ShowsIn log removed topics t =
    (topic : Hash) × (from : Hash) × (to : Hash) × (removed ≡ false)
    × (topics ≡ topic ∷ from ∷ to ∷ [])
    × (length log.payload ≡ 32)
    × (moved log from to ≡ t)

-- A log that is not removed, with three topics and a word of data, shows a transfer.
abbrev pub Shows : Transfer → Log → Type 0
Shows t log = ShowsIn log log.removed log.topics t

abbrev pub In : Transfer → List Transfer → Type 0
In t = Any (λ x. x ≡ t)

In-append : (t : Transfer) (xs ys : List Transfer) → In t (xs ++ ys) ↔ (In t xs ⊎ In t ys)
In-append t [] ys = (λ m. inr m, λ m. elim m [ inl bad ↦ elim bad [ ] | inr n ↦ n ])
In-append t (x ∷ xs) ys = (
  λ m. elim m [
    | inl e ↦ inl (inl e)
    | inr n ↦ elim ((In-append t xs ys).0 n) [ inl l ↦ inl (inr l) | inr r ↦ inr r ]
  ],
  λ m. elim m [
    | inl l ↦ elim l [ inl e ↦ inl e | inr n ↦ inr ((In-append t xs ys).1 (inl n)) ]
    | inr r ↦ inr ((In-append t xs ys).1 (inr r))
  ],
)

transfer_of_iff :
    (log : Log) (removed : Bool) (topics : List Hash) (t : Transfer)
    → In t (transfer_of log removed topics) ↔ ShowsIn log removed topics t
unfolding transfer_of
transfer_of_iff log true topics t =
    (λ m. elim m [ ], λ (topic, from, to, live, places, size, shown). cc)
transfer_of_iff log false [] t =
    (λ m. elim m [ ], λ (topic, from, to, live, places, size, shown). cc)
transfer_of_iff log false (a ∷ []) t =
    (λ m. elim m [ ], λ (topic, from, to, live, places, size, shown). cc)
transfer_of_iff log false (a ∷ b ∷ []) t =
    (λ m. elim m [ ], λ (topic, from, to, live, places, size, shown). cc)
transfer_of_iff log false (a ∷ b ∷ c ∷ d ∷ ds) t =
    (λ m. elim m [ ], λ (topic, from, to, live, places, size, shown). cc)
transfer_of_iff log false (a ∷ b ∷ c ∷ []) t = elim (Bool-cases (length log.payload == 32)) [
  | inl same ↦ rw same (
    λ m. elim m [
      | inl e ↦ (a, b, c, refl, refl, (==_iff (length log.payload) 32).0 same, e)
      | inr bad ↦ elim bad [ ]
    ],
    λ (topic, from, to, live, places, size, shown).
        let p : b ≡ from = cc in let q : c ≡ to = cc in inl ((λ i. moved log (p i) (q i)) ∙ shown),
  )
  | inr other ↦ rw other (
    λ m. elim m [ ],
    λ (topic, from, to, live, places, size, shown).
        cc (sym other ∙ (==_iff (length log.payload) 32).1 size),
  )
]

transfers_in_iff : (logs : List Log) (t : Transfer) → In t (transfers_in logs) ↔ Any (Shows t) logs
unfolding transfers_in
transfers_in_iff [] t = (λ m. m, λ m. m)
transfers_in_iff (log ∷ logs) t =
    let first = transfer_of_iff log log.removed log.topics t in
    let joined = In-append t (transfer_of log log.removed log.topics) (transfers_in logs) in
    let later = transfers_in_iff logs t in
    (
      λ m. elim (joined.0 m) [ inl l ↦ inl (first.0 l) | inr r ↦ inr (later.0 r) ],
      λ m. elim m [ inl l ↦ joined.1 (inl (first.1 l)) | inr r ↦ joined.1 (inr (later.1 r)) ],
    )

transfers_of_iff :
    (found : Scan) (o : Option Error) {ts : List Transfer}
    → transfers_of found o ≡ ok ts
    → (t : Transfer) → In t ts ↔ Any (Shows t) found.logs
unfolding transfers_of
transfers_of_iff found (some e) h t = cc
transfers_of_iff found none h t =
    subst (λ ts. In t ts ↔ Any (Shows t) found.logs) (ok-injective h)
      (transfers_in_iff found.logs t)

module _ ⦃k : Keccak⦄ (client : Client) (honest : Filters client) where
  -- The scan of TransfersFrom.
  abbrev pub scan_from : Address → Option Address → ℕ → ℕ → Scan
  scan_from from to from_block to_block = scan_logs client (
      any_emitter (some (transfer_event ∷ []) ∷ some (encode_address from ∷ []) ∷ last_topic to)
        from_block to_block)

  -- On a node that answers with logs that match its filters, the transfers that TransfersFrom returns
  -- are all from the account, and to the other account if one is given; and they are exactly those
  -- that a log of the scan shows which is not removed and has three topics and one word of data.
  pub transfers_from_lem :
      (from : Address) (to : Option Address) (from_block to_block : ℕ) {ts : List Transfer}
      → transfers_from client from to from_block to_block ≡ ok ts
      → All (λ t. (t.from ≡ from) × IsAsked to t.to) ts
        × ((t : Transfer) → In t ts ↔ Any (Shows t) (scan_from from to from_block to_block).logs)
  unfolding transfers_from scan
  transfers_from_lem from to from_block to_block h = (
    transfers_from-IsAsked client honest from to from_block to_block h,
    transfers_of_iff (scan_from from to from_block to_block) _ (wrapped-eq-ok _ _ h),
  )
