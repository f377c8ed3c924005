-- ===== src/Checks/Report/Faithful.antt =====
-- What a report says of a transaction.
use safenet_arbitration_bot.Base.{
  ℤ, ℕ, ◌≡◌, refl, sym, ap, ◌∙◌, Bool, true, false, List, [], ◌∷◌, map, All, Bytes, bytes_eq_iff,
  arith, Error, message, ok, subst, >>=-eq-ok, ok-injective,
}
use safenet_arbitration_bot.Keccak.{Keccak}
use safenet_arbitration_bot.Ethrpc.Types.{Address, Client}
use safenet_arbitration_bot.Safenet.Types.{SafeTransaction}
use safenet_arbitration_bot.Checks.Calls.{Call}
use safenet_arbitration_bot.Checks.MultiSend.{empty_multi_send}
use safenet_arbitration_bot.Checks.Components.{Components, components}
use safenet_arbitration_bot.Checks.Accounts.{Account, ReportedCall, TransactionCalls}
use safenet_arbitration_bot.Checks.Report.{Caches, account_of, report_call, own_call, is_own, calls}
use safenet_arbitration_bot.Checks.Report.Anew.{
  account_anew, safe_anew, reports_anew, amount, demand, calls_anew, IsCoherent, calls-anew,
}

module _ ⦃k : Keccak⦄ (client : Client) (block : ℕ) (safe_address : Address) where
  abbrev pub call_of : ReportedCall → Call
  call_of r = record {
    to = r.to.address;
    value = r.value;
    input = r.input;
    operation = r.operation;
    kind = r.kind;
  }

  -- An account as the node's code of it shows.
  abbrev pub IsShown : Account → Type 0
  IsShown a =
      (b : Bytes) × (client.get_code a.address block ≡ ok b)
      × (a ≡ account_of client block safe_address a.address b)

  account_anew-IsShown :
      (a : Address) {shown : Account}
      → account_anew client block safe_address a ≡ ok shown
      → IsShown shown × (shown.address ≡ a)
  account_anew-IsShown a {shown} h =
      let (b, e, h') = >>=-eq-ok (client.get_code a block) _ h in
      let same : account_of client block safe_address a b ≡ shown = ok-injective h' in
      subst (λ x. IsShown x × (x.address ≡ a)) same ((b, e, refl), refl)

  reports_anew-calls :
      (own : Call) (cs : List Call) {rs : List ReportedCall}
      → reports_anew client block safe_address own cs ≡ ok rs
      → (map call_of rs ≡ cs) × All (λ r. IsShown r.to) rs
  unfolding report_call
  reports_anew-calls own [] h =
      subst (λ rs. (map call_of rs ≡ []) × All (λ r. IsShown r.to) rs) (ok-injective h) (refl, tt)
  reports_anew-calls own (c ∷ cs) {rs} h =
      let (to, e₁, h₁) = >>=-eq-ok (account_anew client block safe_address c.to) _ h in
      let (m, e₂, h₂) = >>=-eq-ok (empty_multi_send c.to) _ h₁ in
      let (rest, e₃, h₃) = >>=-eq-ok (reports_anew client block safe_address own cs) _ h₂ in
      let (all, shown) = reports_anew-calls own cs e₃ in
      let (is, at) = account_anew-IsShown c.to e₁ in
      subst (λ rs. (map call_of rs ≡ c ∷ cs) × All (λ r. IsShown r.to) rs) (ok-injective h₃)
        ((λ i. record c { to = at i } ∷ all i), (is, shown))

  is_own-safe :
      (tx : SafeTransaction) (chain_id : ℤ)
      → is_own client block safe_address tx chain_id ≡ true
      → tx.safe ≡ safe_address
  unfolding is_own
  is_own-safe tx chain_id h = ground (arith, bytes_eq_iff tx.safe safe_address)

  demand-eq-ok : (b : Bool) (e : Error) → demand client block safe_address b e ≡ ok tt → b ≡ true
  demand-eq-ok true e h = refl
  demand-eq-ok false e h = cc

  calls_anew-calls :
      (tx : SafeTransaction) {report : TransactionCalls}
      → calls_anew client block safe_address tx ≡ ok report
      → (parts : Components) × (components tx ≡ ok parts)
        × (tx.safe ≡ safe_address)
        × (map call_of report.calls ≡ parts.calls)
        × All (λ r. IsShown r.to) report.calls
        × (safe_anew client block safe_address ≡ ok report.safe)
        × (account_anew client block safe_address tx.to ≡ ok report.target)
  calls_anew-calls tx {report} h =
      let (parts, p₁, h₁) = >>=-eq-ok (components tx) _ h in
      let own = is_own client block safe_address tx parts.safe.chain_id in
      let (_, p₂, h₂) =
        >>=-eq-ok
          (demand client block safe_address own
            (message "safe transaction is for another Safe or chain"))
          _ h₁ in
      let (safe, p₃, h₃) = >>=-eq-ok (safe_anew client block safe_address) _ h₂ in
      let (target, p₄, h₄) = >>=-eq-ok (account_anew client block safe_address tx.to) _ h₃ in
      let (value, p₅, h₅) = >>=-eq-ok (amount client block safe_address tx.value) _ h₄ in
      let (reported, p₆, h₆) =
        >>=-eq-ok
          (reports_anew client block safe_address (own_call client block safe_address tx value)
            parts.calls)
          _ h₅ in
      let (made, shown) = reports_anew-calls _ parts.calls p₆ in
      let same = demand-eq-ok own _ p₂ in
      let e = ok-injective h₆ in
      (
        parts,
        p₁,
        is_own-safe tx parts.safe.chain_id same,
        subst (λ r. map call_of r.calls ≡ parts.calls) e made,
        subst (λ r. All (λ c. IsShown c.to) r.calls) e shown,
        p₃ ∙ ap (λ r. ok r.safe) e,
        p₄ ∙ ap (λ r. ok r.target) e,
      )

  -- From coherent caches, a report has exactly the calls that `components` takes the transaction to
  -- make, in their order; it is of the reader's Safe; and the accounts called, the target and the
  -- Safe are described by the code and storage that the node returns for them.
  pub calls-IsFaithful :
      (tx : SafeTransaction) (s : Caches) {report : TransactionCalls}
      → IsCoherent client block safe_address s
      → (calls client block safe_address tx s).0 ≡ ok report
      → (parts : Components) × (components tx ≡ ok parts)
        × (tx.safe ≡ safe_address)
        × (map call_of report.calls ≡ parts.calls)
        × All (λ r. IsShown r.to) report.calls
        × (safe_anew client block safe_address ≡ ok report.safe)
        × (account_anew client block safe_address tx.to ≡ ok report.target)
  calls-IsFaithful tx s c h =
      calls_anew-calls tx (sym (calls-anew client block safe_address tx s c).0 ∙ h)
