-- ===== src/Sourcify/Ascending.antt =====
-- The functions of a report have ascending selectors, which are those of their signatures.
use safenet_arbitration_bot.Base.{
  ℕ, ◌≡◌, refl, inl, inr, Option, none, some, List, [], ◌∷◌, Bytes, codes, bytes_eq, Bool-cases,
  All, All-append, wrapped, wrapped-eq-ok, fail_if, fail_if-eq-ok, ok, >>=-eq-ok, ok-injective,
  subst,
}
use safenet_arbitration_bot.Keccak.{Keccak}
use safenet_arbitration_bot.Solabi.Encode.{selector_of}
use safenet_arbitration_bot.Solabi.Abi.{AbiEntry, signature}
use safenet_arbitration_bot.Solabi.Abi.Clean.{Clean, signature-Clean}
use safenet_arbitration_bot.Ethrpc.Types.{Address}
use safenet_arbitration_bot.Sourcify.Lookup.{
  Status, verified, unverified, no_code, Contract, Found, Repository, fetch,
}
use safenet_arbitration_bot.Sourcify.Signatures.{
  Function, Listed, Report, nothing_listed, sort, repeats, function_of, add_function, add_entry,
  list_entries, report_contract, by_status, lookup,
}
use safenet_arbitration_bot.Sourcify.Sorted.{Ascending, sort-Chain, Chain-Ascending, sort-All}
use safenet_arbitration_bot.Sourcify.Covered.{Covers, report_contract-Covers, fetch-IsVerified}

module _ ⦃k : Keccak⦄ where
  -- A function with the selector of its signature, which is Solidity's.
  abbrev pub IsFunction : Function → Type 0
  IsFunction f = (f.selector ≡ selector_of f.signature) × Clean f.signature

  abbrev AllFunctions : Listed → Type 0
  AllFunctions l = All IsFunction l.functions

  add_function-AllFunctions :
      (l : Listed) (e : AbiEntry) {next : Listed}
      → AllFunctions l
      → add_function l e ≡ ok next
      → AllFunctions next
  unfolding add_function
  add_function-AllFunctions l e {next} all h =
      let (text, read, h') = >>=-eq-ok (wrapped "ABI" (signature e)) _ h in
      let clean = signature-Clean e (wrapped-eq-ok "ABI" (signature e) read) in
      subst AllFunctions (ok-injective h')
        (All-append IsFunction l.functions (function_of e text ∷ []) all ((refl, clean), tt))

  -- Every other entry leaves the functions as they are.
  add_entry-AllFunctions :
      (l : Listed) (e : AbiEntry) {next : Listed}
      → AllFunctions l
      → add_entry l e ≡ ok next
      → AllFunctions next
  unfolding add_entry
  add_entry-AllFunctions l e {next} all h = elim (Bool-cases (bytes_eq e.type (codes "function"))) [
    | inl t ↦ add_function-AllFunctions l e all (rw (t, add_entry) at h)
    | inr n ↦ elim (Bool-cases (bytes_eq e.type (codes "fallback"))) [
      | inl t ↦ subst AllFunctions (ok-injective (rw (n, t, add_entry) at h)) all
      | inr n' ↦ elim (Bool-cases (bytes_eq e.type (codes "receive"))) [
        | inl t ↦ subst AllFunctions (ok-injective (rw (n, n', t, add_entry) at h)) all
        | inr m ↦ subst AllFunctions (ok-injective (rw (n, n', m, add_entry) at h)) all
      ]
    ]
  ]

  list_entries-AllFunctions :
      (es : List AbiEntry) (l : Listed) {done : Listed}
      → AllFunctions l
      → list_entries l es ≡ ok done
      → AllFunctions done
  unfolding list_entries
  list_entries-AllFunctions [] l all h = subst AllFunctions (ok-injective h) all
  list_entries-AllFunctions (e ∷ es) l all h =
      let (next, added, h') = >>=-eq-ok (add_entry l e) _ h in
      list_entries-AllFunctions es next (add_entry-AllFunctions l e all added) h'

  abbrev pub AreListed : Option (List Function) → Type 0
  AreListed none = Unit
  AreListed (some fs) = Ascending fs × All IsFunction fs

  report_contract-AreListed :
      (found : Found) (c : Contract) {report : Report}
      → report_contract found c ≡ ok report
      → AreListed report.functions
  unfolding report_contract
  report_contract-AreListed found c h =
      let (l, listed, h₁) = >>=-eq-ok (list_entries nothing_listed c.abi) _ h in
      let (_, unique, h₂) =
        >>=-eq-ok (fail_if (repeats (sort l.functions)) "two functions have the same selector") _
          h₁ in
      subst (λ r. AreListed r.functions) (ok-injective h₂)
        (
          Chain-Ascending (sort l.functions) (sort-Chain l.functions) (fail_if-eq-ok _ _ unique),
          sort-All IsFunction l.functions
              (list_entries-AllFunctions c.abi nothing_listed tt listed),
        )

  by_status-AreListed :
      (s : Status) (found : Found) (c : Option Contract) {report : Report}
      → by_status s found c ≡ ok report
      → AreListed report.functions
  unfolding by_status
  by_status-AreListed no_code found c h =
      subst (λ r. AreListed r.functions) (ok-injective h) (tt, tt)
  by_status-AreListed unverified found c h = subst (λ r. AreListed r.functions) (ok-injective h) tt
  by_status-AreListed verified found (some c) h = report_contract-AreListed found c h
  by_status-AreListed verified found none h = cc

  -- The functions of a report are listed well.
  lookup-AreListed :
      (repo : Repository) (chain_id : ℕ) (address : Address) (code : Bytes) {report : Report}
      → lookup repo chain_id address code ≡ ok report
      → AreListed report.functions
  unfolding lookup
  lookup-AreListed repo chain_id address code h =
      let ((found, c), _, h') = >>=-eq-ok (fetch repo chain_id address code) _ h in
      by_status-AreListed found.status found c h'

  by_status-Covers :
      (s : Status) (found : Found) (c : Contract) {report : Report}
      → s ≡ verified
      → by_status s found (some c) ≡ ok report
      → Covers c.abi report.functions
  unfolding by_status
  by_status-Covers no_code found c is h = cc
  by_status-Covers unverified found c is h = cc
  by_status-Covers verified found c is h = report_contract-Covers found c h

  -- Where Fetch returns a contract and Lookup a report, the report has every function of the
  -- contract's ABI, with its signature and mutability; its functions are in ascending order of their
  -- selectors, of which no two are the same; and each has the selector of its signature, which has
  -- Solidity's characters only.
  pub lookup-lists :
      (repo : Repository) (chain_id : ℕ) (address : Address) (code : Bytes) {found : Found}
      {c : Contract} {report : Report}
      → fetch repo chain_id address code ≡ ok (found, some c)
      → lookup repo chain_id address code ≡ ok report
      → Covers c.abi report.functions × AreListed report.functions
  unfolding lookup
  lookup-lists repo chain_id address code {found} {c} fetched h = (
    by_status-Covers found.status found c (fetch-IsVerified repo chain_id address code fetched)
        (rw (fetched, lookup) at h),
    lookup-AreListed repo chain_id address code h,
  )
