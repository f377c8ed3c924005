-- ===== src/Sourcify/Covered.antt =====
-- Every function of the ABI that is fetched is in the report.
use safenet_arbitration_bot.Base.{
  ℕ, ◌≡◌, refl, ap, inl, inr, Bool, true, false, not, ◌&&◌, Option, none, some, List, [], ◌∷◌, ◌++◌,
  Bytes, codes, bytes_eq, Bool-cases, All, Any, wrapped, wrapped-eq-ok, fail_if, is_not_found,
  Result, ok, err, >>=-eq-ok, ok-injective, subst,
}
use safenet_arbitration_bot.Keccak.{Keccak}
use safenet_arbitration_bot.Solabi.Abi.{AbiEntry, signature}
use safenet_arbitration_bot.Ethrpc.Types.{Address}
use safenet_arbitration_bot.Sourcify.Lookup.{
  verified, Contract, SourceRecord, Found, Repository, checked, answered, fetch,
}
use safenet_arbitration_bot.Sourcify.Signatures.{
  Function, Listed, Report, nothing_listed, le_function, insert, sort, repeats, function_of,
  add_function, add_entry, list_entries, report_contract,
}

module _ (P : Function → Type 0) where
  Any-left : (fs gs : List Function) → Any P fs → Any P (fs ++ gs)
  Any-left [] gs m = elim m [ ]
  Any-left (f ∷ fs) gs (inl p) = inl p
  Any-left (f ∷ fs) gs (inr m) = inr (Any-left fs gs m)

  Any-last : (fs : List Function) (f : Function) → P f → Any P (fs ++ f ∷ [])
  Any-last [] f p = inl p
  Any-last (g ∷ gs) f p = inr (Any-last gs f p)

  insert-Any : (f : Function) (fs : List Function) → Any P (f ∷ fs) → Any P (insert f fs)
  unfolding insert
  insert-Any f [] m = m
  insert-Any f (g ∷ gs) m = elim (Bool-cases (le_function f g)) [
    | inl t ↦ rw t m
    | inr n ↦ rw n (elim m [
      | inl p ↦ inr (insert-Any f gs (inl p))
      | inr rest ↦ elim rest [ inl q ↦ inl q | inr later ↦ inr (insert-Any f gs (inr later)) ]
    ])
  ]

  sort-Any : (fs : List Function) → Any P fs → Any P (sort fs)
  unfolding sort
  sort-Any [] m = m
  sort-Any (f ∷ fs) (inl p) = insert-Any f (sort fs) (inl p)
  sort-Any (f ∷ fs) (inr m) = insert-Any f (sort fs) (inr (sort-Any fs m))

module _ ⦃k : Keccak⦄ where
  -- The function of an entry: its signature, with its selector and its mutability.
  abbrev pub IsOfEntry : AbiEntry → Function → Type 0
  IsOfEntry e f = (signature e ≡ ok f.signature) × (f ≡ function_of e f.signature)

  abbrev CoveredIf : List Function → AbiEntry → Bool → Type 0
  CoveredIf fs e false = Unit
  CoveredIf fs e true = Any (IsOfEntry e) fs

  -- An entry that is a function is among the functions.
  abbrev pub Covered : List Function → AbiEntry → Type 0
  Covered fs e = CoveredIf fs e (bytes_eq e.type (codes "function"))

  -- What is listed so far stays listed.
  abbrev Keeps : Listed → Listed → Type 1
  Keeps l next = (P : Function → Type 0) → Any P l.functions → Any P next.functions

  add_function-Covers :
      (l : Listed) (e : AbiEntry) {next : Listed}
      → add_function l e ≡ ok next
      → Any (IsOfEntry e) next.functions × Keeps l next
  unfolding add_function
  add_function-Covers l e h =
      let (text, read, h') = >>=-eq-ok (wrapped "ABI" (signature e)) _ h in
      let is = wrapped-eq-ok "ABI" (signature e) read in
      let f = function_of e text in
      let added = ok-injective h' in
      (
        subst (λ n. Any (IsOfEntry e) n.functions) added
            (Any-last (IsOfEntry e) l.functions f (is, refl)),
        λ P m. subst (λ n. Any P n.functions) added (Any-left P l.functions (f ∷ []) m),
      )

  Keeps-same : (l next : Listed) → l.functions ≡ next.functions → Keeps l next
  Keeps-same l next e P m = subst (Any P) e m

  add_entry-Covers :
      (l : Listed) (e : AbiEntry) {next : Listed}
      → add_entry l e ≡ ok next
      → Covered next.functions e × Keeps l next
  unfolding add_entry
  add_entry-Covers l e {next} h = elim (Bool-cases (bytes_eq e.type (codes "function"))) [
    | inl t ↦ rw t (add_function-Covers l e (rw (t, add_entry) at h))
    | inr n ↦ rw n (
      tt,
      Keeps-same l next (elim (Bool-cases (bytes_eq e.type (codes "fallback"))) [
        | inl t ↦ ap (λ x. x.functions) (ok-injective (rw (n, t, add_entry) at h))
        | inr n' ↦ elim (Bool-cases (bytes_eq e.type (codes "receive"))) [
          | inl t ↦ ap (λ x. x.functions) (ok-injective (rw (n, n', t, add_entry) at h))
          | inr m ↦ ap (λ x. x.functions) (ok-injective (rw (n, n', m, add_entry) at h))
        ]
      ]),
    )
  ]

  CoveredIf-Keeps :
      (l next : Listed) (e : AbiEntry) (b : Bool)
      → Keeps l next
      → CoveredIf l.functions e b
      → CoveredIf next.functions e b
  CoveredIf-Keeps l next e false keeps c = tt
  CoveredIf-Keeps l next e true keeps c = keeps (IsOfEntry e) c

  list_entries-Covers :
      (es : List AbiEntry) (l : Listed) {done : Listed}
      → list_entries l es ≡ ok done
      → All (Covered done.functions) es × Keeps l done
  unfolding list_entries
  list_entries-Covers [] l {done} h =
      (tt, Keeps-same l done (ap (λ x. x.functions) (ok-injective h)))
  list_entries-Covers (e ∷ es) l {done} h =
      let (next, added, h') = >>=-eq-ok (add_entry l e) _ h in
      let (here, keeps) = add_entry-Covers l e added in
      let (later, keeps') = list_entries-Covers es next h' in
      (
        (CoveredIf-Keeps next done e (bytes_eq e.type (codes "function")) keeps' here, later),
        λ P m. keeps' P (keeps P m),
      )

  CoveredIf-sort :
      (fs : List Function) (e : AbiEntry) (b : Bool) → CoveredIf fs e b → CoveredIf (sort fs) e b
  CoveredIf-sort fs e false c = tt
  CoveredIf-sort fs e true c = sort-Any (IsOfEntry e) fs c

  All-Covered-sort :
      (fs : List Function) (es : List AbiEntry) → All (Covered fs) es → All (Covered (sort fs)) es
  All-Covered-sort fs [] all = tt
  All-Covered-sort fs (e ∷ es) all = (CoveredIf-sort fs e _ all.0, All-Covered-sort fs es all.1)

  -- What is listed for an ABI.
  abbrev pub Covers : List AbiEntry → Option (List Function) → Type 0
  Covers abi none = ⊥
  Covers abi (some fs) = All (Covered fs) abi

  pub report_contract-Covers :
      (found : Found) (c : Contract) {report : Report}
      → report_contract found c ≡ ok report
      → Covers c.abi report.functions
  unfolding report_contract
  report_contract-Covers found c h =
      let (l, listed, h₁) = >>=-eq-ok (list_entries nothing_listed c.abi) _ h in
      let (_, _, h₂) =
        >>=-eq-ok (fail_if (repeats (sort l.functions)) "two functions have the same selector") _
          h₁ in
      subst (λ r. Covers c.abi r.functions) (ok-injective h₂)
        (All-Covered-sort l.functions c.abi (list_entries-Covers c.abi nothing_listed listed).0)

-- A contract is returned only with the status of one that is verified.
abbrev IsVerified : Found × Option Contract → Type 0
IsVerified (found, none) = Unit
IsVerified (found, some c) = found.status ≡ verified

checked-IsVerified :
    (found : Found) (source : SourceRecord) (code : Bytes) (c : Contract)
    {r : Found × Option Contract}
    → checked found source code c ≡ ok r
    → IsVerified r
unfolding checked
checked-IsVerified found source code c h =
    let other = not (bytes_eq c.runtime_code code) in
    let unmatched =
      not (bytes_eq c.runtime_match (codes "match"))
      && not (bytes_eq c.runtime_match (codes "exact_match")) in
    let (_, _, h₁) =
      >>=-eq-ok (fail_if other "the code that Sourcify verified has another hash") _ h in
    let (_, _, h₂) = >>=-eq-ok (fail_if unmatched "Sourcify has no runtime code match") _ h₁ in
    subst IsVerified (ok-injective h₂) refl

answered-IsVerified :
    (found : Found) (source : SourceRecord) (code : Bytes) (answer : Result Contract)
    {r : Found × Option Contract}
    → answered found source code answer ≡ ok r
    → IsVerified r
unfolding answered
answered-IsVerified found source code (ok c) h = checked-IsVerified found source code c h
answered-IsVerified found source code (err e) h = elim (Bool-cases (is_not_found e)) [
  | inl t ↦ subst IsVerified (ok-injective (rw (t, answered) at h)) tt
  | inr n ↦ cc (rw (n, answered) at h)
]

module _ ⦃k : Keccak⦄ where
  pub fetch-IsVerified :
      (repo : Repository) (chain_id : ℕ) (address : Address) (code : Bytes)
      {r : Found × Option Contract}
      → fetch repo chain_id address code ≡ ok r
      → IsVerified r
  unfolding fetch
  fetch-IsVerified repo chain_id address [] h = subst IsVerified (ok-injective h) tt
  fetch-IsVerified repo chain_id address (b ∷ code) h =
      let (_, _, h') = >>=-eq-ok (repo.url chain_id address) _ h in
      answered-IsVerified _ _ _ (repo.contract chain_id address) h'
