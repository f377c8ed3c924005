-- ===== src/Safenet/Rules/Cited.antt =====
-- rules.go: which rules are cited, and in which order.
use safenet_arbitration_bot.Base.{
  ◌≡◌, ◌↔◌, ◌⊎◌, inl, inr, ap, sym, ◌∙◌, true, List, [], ◌∷◌, ◌++◌, Any, Bytes, bytes_eq_iff,
  Bool-cases, subst, map, arith,
}
use safenet_arbitration_bot.Safenet.Types.{Commitment}
use safenet_arbitration_bot.Safenet.Rules.{
  split_commas, trim_space, is_rule, contains_rule, add_rule, cite_parts, cited_rules, add_rules,
  is_denied, dispute_votes, disputed_rules,
}

abbrev pub In : Bytes → List Bytes → Type 0
In r rules = Any (λ x. x ≡ r) rules

-- No rule is in the list twice.
abbrev pub Distinct : List Bytes → Type 0
Distinct [] = Unit
Distinct (r ∷ rules) = ¬ (In r rules) × Distinct rules

contains_rule_iff : (rules : List Bytes) (r : Bytes) → (contains_rule rules r ≡ true) ↔ In r rules
unfolding contains_rule
contains_rule_iff [] r = (λ h. cc, λ h. absurd h)
contains_rule_iff (x ∷ rules) r = ground (arith, bytes_eq_iff x r, contains_rule_iff rules r)

In-append :
    (rules others : List Bytes) (r : Bytes) → In r (rules ++ others) ↔ (In r rules ⊎ In r others)
In-append [] others r = (inr, λ h. elim h [ inl e ↦ absurd e | inr i ↦ i ])
In-append (x ∷ rules) others r = ground (arith, In-append rules others r)

Distinct-concat :
    (rules : List Bytes) (r : Bytes) → Distinct rules → ¬ (In r rules) → Distinct (rules ++ r ∷ [])
Distinct-concat [] r d new = (λ i. i, tt)
Distinct-concat (x ∷ rules) r (fresh, d) new = (
  λ i. elim ((In-append rules (r ∷ []) x).0 i) [ inl old ↦ fresh old | inr e ↦ ground arith ],
  Distinct-concat rules r d (λ i. new (inr i)),
)

add_rule-In :
    (rules : List Bytes) (rule r : Bytes) → In r (add_rule rules rule) ↔ (In r rules ⊎ (rule ≡ r))
unfolding add_rule
add_rule-In rules rule r = elim (Bool-cases (contains_rule rules rule)) [
  | inl old ↦ rw old (
      (
        inl,
        λ h. elim h [
          | inl i ↦ i
          | inr e ↦ subst (λ x. In x rules) e ((contains_rule_iff rules rule).0 old)
        ],
      ))
  | inr new ↦ rw new (ground (arith, In-append rules (rule ∷ []) r))
]

add_rule-Distinct :
    (rules : List Bytes) (rule : Bytes) → Distinct rules → Distinct (add_rule rules rule)
unfolding add_rule
add_rule-Distinct rules rule d = elim (Bool-cases (contains_rule rules rule)) [
  | inl old ↦ rw old d
  | inr new ↦
      rw new (Distinct-concat rules rule d (λ i. cc ((contains_rule_iff rules rule).1 i, new)))
]

-- What the loop of `CitedRules` adds to the rules so far.
cite_parts-In :
    (rules parts : List Bytes) (r : Bytes)
    → In r (cite_parts rules parts)
      ↔ (In r rules ⊎ ((is_rule r ≡ true) × In r (map trim_space parts)))
unfolding cite_parts
cite_parts-In rules [] r = (inl, λ h. elim h [ inl i ↦ i | inr i ↦ absurd i.1 ])
cite_parts-In rules (part ∷ parts) r =
    let rule = trim_space part in
    elim (Bool-cases (is_rule rule)) [
      | inl t ↦
          let (down, up) = cite_parts-In (add_rule rules rule) parts r in
          let (out, back) = add_rule-In rules rule r in
          rw t (
            λ h. elim (down h) [
              | inl i ↦ elim (out i) [
                | inl old ↦ inl old
                | inr e ↦ inr (ap is_rule (sym e) ∙ t, inl e)
              ]
              | inr (valid, i) ↦ inr (valid, inr i)
            ],
            λ h. elim h [
              | inl old ↦ up (inl (back (inl old)))
              | inr (valid, inl e) ↦ up (inl (back (inr e)))
              | inr (valid, inr i) ↦ up (inr (valid, i))
            ],
          )
      | inr f ↦
          let (down, up) = cite_parts-In rules parts r in
          rw f (
            λ h. elim (down h) [ inl old ↦ inl old | inr (valid, i) ↦ inr (valid, inr i) ],
            λ h. elim h [
              | inl old ↦ up (inl old)
              | inr (valid, inl e) ↦ cc (valid, f, ap is_rule e)
              | inr (valid, inr i) ↦ up (inr (valid, i))
            ],
          )
    ]

cite_parts-Distinct :
    (rules parts : List Bytes) → Distinct rules → Distinct (cite_parts rules parts)
unfolding cite_parts
cite_parts-Distinct rules [] d = d
cite_parts-Distinct rules (part ∷ parts) d =
    let rule = trim_space part in
    elim (Bool-cases (is_rule rule)) [
      | inl t ↦
          rw t (cite_parts-Distinct (add_rule rules rule) parts (add_rule-Distinct rules rule d))
      | inr f ↦ rw f (cite_parts-Distinct rules parts d)
    ]

-- A reason cites exactly the rule identifiers among its parts between commas, with the spaces
-- around each part trimmed, and cites no rule twice.
pub cited_rules_lem :
    (reason : Bytes)
    → Distinct (cited_rules reason)
      × ((r : Bytes)
          → In r (cited_rules reason)
            ↔ ((is_rule r ≡ true) × In r (map trim_space (split_commas reason))))
unfolding cited_rules
cited_rules_lem reason = (
  cite_parts-Distinct [] (split_commas reason) tt,
  λ r.
      let (down, up) = cite_parts-In [] (split_commas reason) r in
      (λ h. elim (down h) [ inl i ↦ absurd i | inr i ↦ i ], λ i. up (inr i)),
)

add_rules-In :
    (rules others : List Bytes) (r : Bytes)
    → In r (add_rules rules others) ↔ (In r rules ⊎ In r others)
unfolding add_rules
add_rules-In rules [] r = (inl, λ h. elim h [ inl i ↦ i | inr i ↦ absurd i ])
add_rules-In rules (x ∷ others) r =
    ground (arith, add_rules-In (add_rule rules x) others r, add_rule-In rules x r)

add_rules-Distinct :
    (rules others : List Bytes) → Distinct rules → Distinct (add_rules rules others)
unfolding add_rules
add_rules-Distinct rules [] d = d
add_rules-Distinct rules (x ∷ others) d =
    add_rules-Distinct (add_rule rules x) others (add_rule-Distinct rules x d)

-- Some vote denies the transaction and cites the rule in its reason.
abbrev pub Denies : Bytes → Commitment → Type 0
Denies r v = (is_denied v.vote ≡ true) × In r (cited_rules v.reason)

dispute_votes-In :
    (rules : List Bytes) (votes : List Commitment) (r : Bytes)
    → In r (dispute_votes rules votes) ↔ (In r rules ⊎ Any (Denies r) votes)
unfolding dispute_votes
dispute_votes-In rules [] r = (inl, λ h. elim h [ inl i ↦ i | inr i ↦ absurd i ])
dispute_votes-In rules (v ∷ votes) r = elim (Bool-cases (is_denied v.vote)) [
  | inl t ↦
      let rest = dispute_votes-In (add_rules rules (cited_rules v.reason)) votes r in
      let added = add_rules-In rules (cited_rules v.reason) r in ground (arith, t, rest, added)
  | inr f ↦ let rest = dispute_votes-In rules votes r in ground (arith, f, rest)
]

dispute_votes-Distinct :
    (rules : List Bytes) (votes : List Commitment)
    → Distinct rules
    → Distinct (dispute_votes rules votes)
unfolding dispute_votes
dispute_votes-Distinct rules [] d = d
dispute_votes-Distinct rules (v ∷ votes) d = elim (Bool-cases (is_denied v.vote)) [
  | inl t ↦ rw t (
      dispute_votes-Distinct (add_rules rules (cited_rules v.reason)) votes
        (add_rules-Distinct rules (cited_rules v.reason) d))
  | inr f ↦ rw f (dispute_votes-Distinct rules votes d)
]

-- The rules in dispute are exactly those that some DENIED vote cites in its reason, each once.
pub disputed_rules_lem :
    (votes : List Commitment)
    → Distinct (disputed_rules votes)
      × ((r : Bytes) → In r (disputed_rules votes) ↔ Any (Denies r) votes)
unfolding disputed_rules
disputed_rules_lem votes = (
  dispute_votes-Distinct [] votes tt,
  λ r.
      let (down, up) = dispute_votes-In [] votes r in
      (λ h. elim (down h) [ inl i ↦ absurd i | inr i ↦ i ], λ i. up (inr i)),
)
