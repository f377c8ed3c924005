-- ===== src/Sourcify/Signatures.antt =====
-- internal/signatures: the list of a verified contract's functions.
use safenet_arbitration_bot.Base.{
  ℕ, Bool, true, false, ◌&&◌, ◌||◌, Option, none, some, List, [], ◌∷◌, ◌++◌, Bytes, codes, bytes_eq,
  ltb, ◌==◌, panic, wrapped, fail_if, Result, ok, err, ◌>>=◌, ◌>>◌, if◌then◌else◌,
}
use safenet_arbitration_bot.Keccak.{Keccak}
use safenet_arbitration_bot.Solabi.Encode.{selector_of}
use safenet_arbitration_bot.Solabi.Abi.{AbiEntry, mutability, signature}
use safenet_arbitration_bot.Ethrpc.Types.{Address}
use safenet_arbitration_bot.Sourcify.Lookup.{
  Status, verified, unverified, no_code, Contract, Found, Repository, fetch,
}

pub record Function : Type 0 where
  pub selector : Bytes
  pub signature : Bytes
  pub state_mutability : Bytes

-- The functions, and the mutability of the fallback and receive functions.
pub record Listed : Type 0 where
  pub functions : List Function
  pub fallback : Option Bytes
  pub receive : Option Bytes

-- `functions` is none where it is nil.
pub record Report : Type 0 where
  pub found : Found
  pub functions : Option (List Function)
  pub fallback : Option Bytes
  pub receive : Option Bytes

abbrev pub nothing_listed : Listed
nothing_listed = record { functions = []; fallback = none; receive = none }

-- `bytes.Compare(a, b) <= 0`
unfoldable pub le_bytes : Bytes → Bytes → Bool
le_bytes [] ys = true
le_bytes (x ∷ xs) [] = false
le_bytes (x ∷ xs) (y ∷ ys) = let rest = le_bytes xs ys in ltb x y || x == y && rest

-- By selector, then by signature.
unfoldable pub le_function : Function → Function → Bool
le_function f g =
    if bytes_eq f.selector g.selector
    then le_bytes f.signature g.signature
    else le_bytes f.selector g.selector

-- `slices.SortFunc`. Where its order is not determined, two functions have the same selector, and
-- Lookup fails.
unfoldable pub insert : Function → List Function → List Function
insert f [] = f ∷ []
insert f (g ∷ gs) = let rest = insert f gs in if le_function f g then f ∷ g ∷ gs else g ∷ rest

unfoldable pub sort : List Function → List Function
sort [] = []
sort (f ∷ fs) = insert f (sort fs)

-- Whether a function has the selector of the one before.
unfoldable pub repeats : List Function → Bool
repeats [] = false
repeats (f ∷ []) = false
repeats (f ∷ g ∷ gs) = bytes_eq f.selector g.selector || repeats (g ∷ gs)

module _ ⦃k : Keccak⦄ where
  abbrev pub function_of : AbiEntry → Bytes → Function
  function_of e text = record {
    selector = selector_of text;
    signature = text;
    state_mutability = mutability e;
  }

  -- An entry that is a function.
  unfoldable pub add_function : Listed → AbiEntry → Result Listed
  add_function l e = do
    text ← wrapped "ABI" (signature e)
    ok (record l { functions = l.functions ++ function_of e text ∷ [] })

  unfoldable pub add_entry : Listed → AbiEntry → Result Listed
  add_entry l e =
      if bytes_eq e.type (codes "function")
      then add_function l e
      else if bytes_eq e.type (codes "fallback")
      then ok (record l { fallback = some (mutability e) })
      else if bytes_eq e.type (codes "receive")
      then ok (record l { receive = some (mutability e) })
      else ok l

  -- The loop over the ABI.
  unfoldable pub list_entries : Listed → List AbiEntry → Result Listed
  list_entries l [] = ok l
  list_entries l (e ∷ es) = do next ← add_entry l e; list_entries next es

  unfoldable pub report_contract : Found → Contract → Result Report
  report_contract found c = do
    l ← list_entries nothing_listed c.abi
    fail_if (repeats (sort l.functions)) "two functions have the same selector"
    ok (record {
      found = found;
      functions = some (sort l.functions);
      fallback = l.fallback;
      receive = l.receive;
    })

  abbrev without_functions : Found → Option (List Function) → Report
  without_functions found functions = record {
    found = found;
    functions = functions;
    fallback = none;
    receive = none;
  }

  -- The switch on the status. Fetch returns the contract of one that is verified.
  unfoldable pub by_status : Status → Found → Option Contract → Result Report
  by_status no_code found c = ok (without_functions found (some []))
  by_status unverified found c = ok (without_functions found none)
  by_status verified found (some c) = report_contract found c
  by_status verified found none = err panic

  -- `Lookup`.
  unfoldable pub lookup : Repository → ℕ → Address → Bytes → Result Report
  lookup repo chain_id address code = do
    (found, c) ← fetch repo chain_id address code
    by_status found.status found c
