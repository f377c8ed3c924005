-- ===== src/Checks/Report.antt =====
-- calls.go: the report of the calls that a Safe's transaction makes, and the `CallReader`, whose
-- caches are the state of the monad `Read`.
pub mod Anew
pub mod Faithful
use safenet_arbitration_bot.Base.{
  ℤ, is_uint64, low_uint64, ℕ, ◌^◌, Bool, true, false, not, ◌&&◌, ◌||◌, Option, none, some, List,
  [], ◌∷◌, String, if◌then◌else◌, ltb, ◌==◌, Bytes, codes, bytes_eq, length, replicate, drop, Error,
  message, Result, ok, err,
}
use safenet_arbitration_bot.Keccak.{Keccak, hash}
use safenet_arbitration_bot.Ethrpc.Types.{Address, Hash, Client, Dialer}
use safenet_arbitration_bot.Safenet.Types.{SafeTransaction, Operation, Proposal}
use safenet_arbitration_bot.Functions.{Function}
use safenet_arbitration_bot.Functions as Functions
use safenet_arbitration_bot.Checks.Calls.{CallKind, root, batched, refund, Call, call_eq, kind_eq}
use safenet_arbitration_bot.Checks.MultiSend.{
  Version, MultiSend, multi_send_at, reverting_multi_send, empty_multi_send,
}
use safenet_arbitration_bot.Checks.Components.{Components, components}
use safenet_arbitration_bot.Checks.Safe.{
  networks, contains, ProxyVersion, SafeVersion, singleton_at, singleton_in, proxy_version,
}
use safenet_arbitration_bot.Checks.Accounts.{
  SafeAccount, Contract, Account, Placeholder, no_placeholder, reverting, empty, ReportedCall,
  TransactionCalls, contract_at,
}

-- The caches of a `CallReader`: the code of each account that was read, and the Safe.
pub record Caches : Type 0 where
  pub code_of : List (Address × Bytes)
  pub safe_account : Option SafeAccount

abbrev pub Read : Type 0 → Type 0
Read A = Caches → Result A × Caches

abbrev pub bind_read : {A B : Type 0} → (A → Read B) → Result A × Caches → Result B × Caches
bind_read f (err e, s) = (err e, s)
bind_read f (ok a, s) = f a s

infixl 5 ◌>>=◌
abbrev pub ◌>>=◌ : {A B : Type 0} → Read A → (A → Read B) → Read B
◌>>=◌ m f s = bind_read f (m s)

-- A call that reads no cache.
abbrev pub lift : {A : Type 0} → Result A → Read A
lift r s = (r, s)

unfoldable pub find_code : Address → List (Address × Bytes) → Option Bytes
find_code a [] = none
find_code a ((b, code) ∷ rest) = if bytes_eq b a then some code else find_code a rest

-- The code that is cached, or else what the node returns, which is cached unless it is an error.
unfoldable pub cached_code : Address → Option Bytes → Result Bytes → Read Bytes
cached_code a (some code) answer s = (ok code, s)
cached_code a none (err e) s = (err e, s)
cached_code a none (ok code) s = (ok code, record s { code_of = (a, code) ∷ s.code_of })

abbrev pub covered : Client → Bool
covered client = contains networks client.chain_id

module _ ⦃k : Keccak⦄ (client : Client) (block : ℕ) (safe_address : Address) where
  -- `code`.
  unfoldable pub code : Address → Read Bytes
  code a s = cached_code a (find_code a s.code_of) (client.get_code a block) s

  -- The Safe, by its code and slot 0.
  abbrev pub safe_account_of : Bytes → Hash → SafeAccount
  safe_account_of safe_code slot = record {
    address = safe_address;
    code_hash = hash (safe_code ∷ []);
    code_size = length safe_code;
    proxy_version = proxy_version safe_code client.chain_id;
    singleton = singleton_in slot;
    singleton_version = if covered client then singleton_at (singleton_in slot) else none;
  }

  unfoldable pub keep_safe : SafeAccount → Read SafeAccount
  keep_safe account s = (ok account, record s { safe_account = some account })

  unfoldable pub read_safe : Read SafeAccount
  read_safe = do
    safe_code ← code safe_address
    slot ← lift (client.get_storage_at safe_address (replicate 32 0) block)
    keep_safe (safe_account_of safe_code slot)

  unfoldable pub cached_safe : Option SafeAccount → Read SafeAccount
  cached_safe (some account) s = (ok account, s)
  cached_safe none s = read_safe s

  -- `safeOf`.
  unfoldable pub safe_of : Read SafeAccount
  safe_of s = cached_safe s.safe_account s

  abbrev pub account_of : Address → Bytes → Account
  account_of a account_code = record {
    address = a;
    code_hash = hash (account_code ∷ []);
    code_size = length account_code;
    self = bytes_eq a safe_address;
    contract = if covered client && ltb 0 (length account_code) then contract_at a else none;
  }

  -- `account`.
  unfoldable pub account : Address → Read Account
  account a = do account_code ← code a; lift (ok (account_of a account_code))

  -- The placeholder that a root call other than the transaction's own is.
  unfoldable pub placeholder : Call → Call → Call → Placeholder
  placeholder own empty_call c =
      if kind_eq c.kind root && not (call_eq c own)
      then (if call_eq c (reverting_multi_send c.to)
          then reverting
          else if call_eq c empty_call
          then empty
          else no_placeholder)
      else no_placeholder

  unfoldable pub report_call : Call → Call → Account → Call → ReportedCall
  report_call own empty_call to c = record {
    kind = c.kind;
    placeholder = placeholder own empty_call c;
    to = to;
    value = c.value;
    operation = c.operation;
    input = c.input;
    function = Functions.decode c.input;
  }

  -- The loop over the calls.
  unfoldable pub report_calls : Call → List Call → Read (List ReportedCall)
  report_calls own [] = lift (ok [])
  report_calls own (c ∷ cs) = do
    to ← account c.to
    empty_call ← lift (empty_multi_send c.to)
    rest ← report_calls own cs
    lift (ok (report_call own empty_call to c ∷ rest))

  abbrev own_call : SafeTransaction → ℤ → Call
  own_call tx value = record {
    to = tx.to;
    value = value;
    input = tx.input;
    operation = tx.operation;
    kind = root;
  }

  -- An amount that `components` has found to be given.
  abbrev given : Option ℤ → Read ℤ
  given none = lift (err (message "safe transaction has no value"))
  given (some n) = lift (ok n)

  unfoldable pub is_own : SafeTransaction → ℤ → Bool
  is_own tx chain_id =
      bytes_eq tx.safe safe_address && is_uint64 chain_id && low_uint64 chain_id == client.chain_id

  abbrev require : Bool → Error → Read (Unit {0})
  require true e = lift (ok tt)
  require false e = lift (err e)

  -- `CallReader.Calls`.
  unfoldable pub calls : SafeTransaction → Read TransactionCalls
  calls tx = do
    parts ← lift (components tx)
    checked ←
        require (is_own tx parts.safe.chain_id)
          (message "safe transaction is for another Safe or chain")
    safe_account ← safe_of
    target ← account tx.to
    value ← given tx.value
    reported ← report_calls (own_call tx value) parts.calls
    lift (
        ok (record {
          chain_id = client.chain_id;
          safe_block = block;
          safe = safe_account;
          target = target;
          calls = reported;
        }))

abbrev pub no_caches : Caches
no_caches = record { code_of = []; safe_account = none }

module _ ⦃k : Keccak⦄ where
  -- Reads the calls on the client's chain, with a reader of its own.
  unfoldable pub calls_on : Proposal → Result Client → Result TransactionCalls
  calls_on p (err e) = err e
  calls_on p (ok client) = (calls client p.safe_block p.transaction.safe p.transaction no_caches).0

  unfoldable pub calls_within : Dialer → Proposal → Result Components → Result TransactionCalls
  calls_within dial p (err e) = err e
  calls_within dial p (ok parts) =
      if not (is_uint64 parts.safe.chain_id)
      then err (message "safe transaction has an invalid chainId")
      else if p.safe_block == 0
      then err (message "proposal has no safeBlock")
      else calls_on p (dial (low_uint64 parts.safe.chain_id))

  -- The package's `Calls`.
  unfoldable pub request_calls : Dialer → Proposal → Result TransactionCalls
  request_calls dial p = calls_within dial p (components p.transaction)
