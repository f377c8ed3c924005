-- ===== src/Checks/Report/Anew.antt =====
-- The reader of calls against one that caches nothing, and what a report says.
use mathlib.Core.Option.{some-injective}
use safenet_arbitration_bot.Base.{
  ℤ, ℕ, ◌≡◌, refl, sym, ap, ◌∙◌, inl, inr, Bool, true, false, Option, none, some, List, [], ◌∷◌,
  All, Bytes, bytes_eq, bytes_eq_iff, Bool-cases, replicate, Error, message, Result, ok, err, ◌>>=◌,
  subst,
}
use safenet_arbitration_bot.Keccak.{Keccak}
use safenet_arbitration_bot.Ethrpc.Types.{Address, Client}
use safenet_arbitration_bot.Safenet.Types.{SafeTransaction}
use safenet_arbitration_bot.Checks.Calls.{Call}
use safenet_arbitration_bot.Checks.MultiSend.{empty_multi_send}
use safenet_arbitration_bot.Checks.Components.{components}
use safenet_arbitration_bot.Checks.Accounts.{SafeAccount, Account, ReportedCall, TransactionCalls}
use safenet_arbitration_bot.Checks.Report.{
  Caches, Read, bind_read, lift, find_code, cached_code, code, safe_account_of, keep_safe,
  read_safe, cached_safe, safe_of, account_of, account, report_call, report_calls, own_call, given,
  is_own, require, calls,
}

module _ ⦃k : Keccak⦄ (client : Client) (block : ℕ) (safe_address : Address) where
  abbrev pub account_anew : Address → Result Account
  account_anew a = do
    account_code ← client.get_code a block
    ok (account_of client block safe_address a account_code)

  abbrev pub safe_anew : Result SafeAccount
  safe_anew = do
    safe_code ← client.get_code safe_address block
    slot ← client.get_storage_at safe_address (replicate 32 0) block
    ok (safe_account_of client block safe_address safe_code slot)

  abbrev pub reports_anew : Call → List Call → Result (List ReportedCall)
  reports_anew own [] = ok []
  reports_anew own (c ∷ cs) = do
    to ← account_anew c.to
    empty_call ← empty_multi_send c.to
    rest ← reports_anew own cs
    ok (report_call client block safe_address own empty_call to c ∷ rest)

  abbrev pub amount : Option ℤ → Result ℤ
  amount none = err (message "safe transaction has no value")
  amount (some n) = ok n

  abbrev pub demand : Bool → Error → Result (Unit {0})
  demand true e = ok tt
  demand false e = err e

  -- The report of a reader that reads every account anew.
  abbrev pub calls_anew : SafeTransaction → Result TransactionCalls
  calls_anew tx = do
    parts ← components tx
    checked ←
        demand (is_own client block safe_address tx parts.safe.chain_id)
          (message "safe transaction is for another Safe or chain")
    safe ← safe_anew
    target ← account_anew tx.to
    value ← amount tx.value
    reported ← reports_anew (own_call client block safe_address tx value) parts.calls
    ok (record {
      chain_id = client.chain_id;
      safe_block = block;
      safe = safe;
      target = target;
      calls = reported;
    })

  abbrev IsSafe : Option SafeAccount → Type 0
  IsSafe none = Unit
  IsSafe (some a) = safe_anew ≡ ok a

  -- What is cached is what the node returns.
  pub record IsCoherent (s : Caches) : Type 0 where
    pub code_of :
        All (λ (entry : Address × Bytes). client.get_code entry.0 block ≡ ok entry.1) s.code_of
    pub safe : IsSafe s.safe_account

  -- From coherent caches, the action returns the result, and leaves coherent caches.
  abbrev Reads : {A : Type 0} → Read A → Result A → Type 0
  Reads m r = (s : Caches) → IsCoherent s → ((m s).0 ≡ r) × IsCoherent (m s).1

  bind_read-Reads :
      {A B : Type 0} (f : A → Read B) (g : A → Result B) (t : Result A × Caches) (r : Result A)
      → t.0 ≡ r
      → IsCoherent t.1
      → ((a : A) → r ≡ ok a → Reads (f a) (g a))
      → ((bind_read f t).0 ≡ (r >>= g)) × IsCoherent (bind_read f t).1
  bind_read-Reads f g (ok a, s) r e c h =
      subst (λ x. ((f a s).0 ≡ (x >>= g)) × IsCoherent (f a s).1) e (h a (sym e) s c)
  bind_read-Reads f g (err x, s) r e c h = (ap (λ y. y >>= g) e, c)

  -- The rest may use what the first action returned.
  bind-Reads_eq :
      {A B : Type 0} (m : Read A) (f : A → Read B) (r : Result A) (g : A → Result B)
      → Reads m r
      → ((a : A) → r ≡ ok a → Reads (f a) (g a))
      → Reads (λ s. bind_read f (m s)) (r >>= g)
  bind-Reads_eq m f r g h h' s c = let (e, c') = h s c in bind_read-Reads f g (m s) r e c' h'

  bind-Reads :
      {A B : Type 0} (m : Read A) (f : A → Read B) (r : Result A) (g : A → Result B)
      → Reads m r
      → ((a : A) → Reads (f a) (g a))
      → Reads (λ s. bind_read f (m s)) (r >>= g)
  bind-Reads m f r g h h' = bind-Reads_eq m f r g h (λ a e. h' a)

  lift-Reads : {A : Type 0} (r : Result A) → Reads (lift r) r
  lift-Reads r s c = (refl, c)

  find_code-IsCoherent :
      (a : Address) (entries : List (Address × Bytes)) {b : Bytes}
      → All (λ (entry : Address × Bytes). client.get_code entry.0 block ≡ ok entry.1) entries
      → find_code a entries ≡ some b
      → client.get_code a block ≡ ok b
  unfolding find_code
  find_code-IsCoherent a [] h e = cc
  find_code-IsCoherent a ((other, w) ∷ rest) {b} h e = elim (Bool-cases (bytes_eq other a)) [
    | inl t ↦
        let same : w ≡ b = some-injective w b (rw t at e) in
        sym (ap (λ x. client.get_code x block) ((bytes_eq_iff other a).0 t)) ∙ h.0 ∙ ap ok same
    | inr n ↦ find_code-IsCoherent a rest h.1 (rw n at e)
  ]

  cached_code-Reads :
      (a : Address) (o : Option Bytes) (r : Result Bytes)
      → client.get_code a block ≡ r
      → ((b : Bytes) → o ≡ some b → client.get_code a block ≡ ok b)
      → Reads (cached_code a o r) (client.get_code a block)
  unfolding cached_code
  cached_code-Reads a (some b) r e known s c = (sym (known b refl), c)
  cached_code-Reads a none (err x) e known s c = (sym e, c)
  cached_code-Reads a none (ok b) e known s c =
      (sym e, record { code_of = (e, c.code_of); safe = c.safe })

  code-Reads : (a : Address) → Reads (code client block safe_address a) (client.get_code a block)
  unfolding code
  code-Reads a s c =
      cached_code-Reads a (find_code a s.code_of) (client.get_code a block) refl
        (λ b e. find_code-IsCoherent a s.code_of c.code_of e) s c

  account-Reads : (a : Address) → Reads (account client block safe_address a) (account_anew a)
  unfolding account
  account-Reads a = bind-Reads _ _ _ _ (code-Reads a) (λ b. lift-Reads _)

  keep_safe-Reads :
      (a : SafeAccount) → safe_anew ≡ ok a → Reads (keep_safe client block safe_address a) (ok a)
  unfolding keep_safe
  keep_safe-Reads a e s c = (refl, record { code_of = c.code_of; safe = e })

  read_safe-Reads : Reads (read_safe client block safe_address) safe_anew
  unfolding read_safe
  read_safe-Reads = bind-Reads_eq _ _ _ _ (code-Reads safe_address) (λ safe_code e.
      bind-Reads_eq _ _ _ _ (lift-Reads (client.get_storage_at safe_address (replicate 32 0) block))
        (λ slot e'.
          keep_safe-Reads (safe_account_of client block safe_address safe_code slot)
            (rw (e, e') refl)))

  cached_safe-Reads :
      (o : Option SafeAccount)
      → IsSafe o
      → Reads (cached_safe client block safe_address o) safe_anew
  unfolding cached_safe
  cached_safe-Reads none h s c = read_safe-Reads s c
  cached_safe-Reads (some a) h s c = (sym h, c)

  safe_of-Reads : Reads (safe_of client block safe_address) safe_anew
  unfolding safe_of
  safe_of-Reads s c = cached_safe-Reads s.safe_account c.safe s c

  report_calls-Reads :
      (own : Call) (cs : List Call)
      → Reads (report_calls client block safe_address own cs) (reports_anew own cs)
  unfolding report_calls
  report_calls-Reads own [] = lift-Reads _
  report_calls-Reads own (c ∷ cs) = bind-Reads _ _ _ _ (account-Reads c.to) (λ to.
      bind-Reads _ _ _ _ (lift-Reads (empty_multi_send c.to))
        (λ empty_call. bind-Reads _ _ _ _ (report_calls-Reads own cs) (λ rest. lift-Reads _)))

  given-Reads : (o : Option ℤ) → Reads (given client block safe_address o) (amount o)
  given-Reads none = lift-Reads _
  given-Reads (some n) = lift-Reads _

  require-Reads :
      (b : Bool) (e : Error) → Reads (require client block safe_address b e) (demand b e)
  require-Reads true e = lift-Reads _
  require-Reads false e = lift-Reads _

  -- From coherent caches, the reader gives the report that reading every account anew would, errors
  -- included, and leaves coherent caches.
  pub calls-anew :
      (tx : SafeTransaction) (s : Caches)
      → IsCoherent s
      → ((calls client block safe_address tx s).0 ≡ calls_anew tx)
        × IsCoherent (calls client block safe_address tx s).1
  unfolding calls
  calls-anew tx = bind-Reads _ _ _ _ (lift-Reads (components tx)) (λ parts.
      bind-Reads _ _ _ _ (require-Reads _ _) (λ checked.
        bind-Reads _ _ _ _ safe_of-Reads (λ account.
          bind-Reads _ _ _ _ (account-Reads tx.to) (λ target.
            bind-Reads _ _ _ _ (given-Reads tx.value) (λ value.
              bind-Reads _ _ _ _ (report_calls-Reads _ parts.calls) (λ reported. lift-Reads _))))))
