-- ===== src/Sourcify/Lookup.antt =====
-- lookup.go: a contract that Sourcify verified against the code of an account.
use safenet_arbitration_bot.Base.{
  ℕ, not, ◌&&◌, Option, none, some, List, [], ◌∷◌, Bytes, codes, bytes_eq, length, wrap,
  is_not_found, fail_if, Result, ok, err, ◌>>=◌, ◌>>◌, if◌then◌else◌,
}
use safenet_arbitration_bot.Keccak.{Keccak, hash}
use safenet_arbitration_bot.Solabi.Abi.{AbiEntry}
use safenet_arbitration_bot.Ethrpc.Types.{Address, Hash}

pub data Status : Type 0 where
  verified unverified no_code : Status

-- The contract that is fetched, less its sources. Texts are their bytes, and times are numbers.
pub record Contract : Type 0 where
  pub match : Bytes
  pub runtime_match : Bytes
  pub verified_at : ℕ
  pub name : Bytes
  pub compiler : Bytes
  pub abi : List AbiEntry
  pub runtime_code : Bytes

-- `Record`.
pub record SourceRecord : Type 0 where
  pub name : Bytes
  pub url : Bytes
  pub observed_at : ℕ
  pub match : Bytes
  pub runtime_match : Bytes
  pub verified_at : Option ℕ
  pub contract : Bytes
  pub compiler : Bytes

-- `Lookup`.
pub record Found : Type 0 where
  pub address : Address
  pub code_hash : Hash
  pub code_size : ℕ
  pub status : Status
  pub source : Option SourceRecord

-- `Repository`, for the fields that are fetched, and the time.
pub record Repository : Type 0 where
  pub url : ℕ → Address → Result Bytes
  pub contract : ℕ → Address → Result Contract
  pub now : ℕ

abbrev observed : Repository → Bytes → SourceRecord
observed repo url = record {
  name = codes "sourcify";
  url = url;
  observed_at = repo.now;
  match = [];
  runtime_match = [];
  verified_at = none;
  contract = [];
  compiler = [];
}

abbrev described : SourceRecord → Contract → SourceRecord
described source c = record source {
  match = c.match;
  runtime_match = c.runtime_match;
  verified_at = some c.verified_at;
  contract = c.name;
  compiler = c.compiler;
}

-- The end of `Fetch`, for a contract that was fetched.
unfoldable pub checked : Found → SourceRecord → Bytes → Contract → Result (Found × Option Contract)
checked found source code c = do
  fail_if (not (bytes_eq c.runtime_code code)) "the code that Sourcify verified has another hash"
  fail_if
      (not (bytes_eq c.runtime_match (codes "match"))
        && not (bytes_eq c.runtime_match (codes "exact_match")))
      "Sourcify has no runtime code match"
  ok (record found { status = verified; source = some (described source c) }, some c)

-- A contract that isn't found is unverified.
unfoldable pub answered :
    Found → SourceRecord → Bytes → Result Contract → Result (Found × Option Contract)
answered found source code (ok c) = checked found source code c
answered found source code (err e) =
    if is_not_found e
    then ok (record found { status = unverified; source = some source }, none)
    else err (wrap "fetching from Sourcify" e)

module _ ⦃k : Keccak⦄ where
  abbrev pub before_fetch : Address → Bytes → Found
  before_fetch address code = record {
    address = address;
    code_hash = hash (code ∷ []);
    code_size = length code;
    status = no_code;
    source = none;
  }

  -- `Fetch`.
  unfoldable pub fetch : Repository → ℕ → Address → Bytes → Result (Found × Option Contract)
  fetch repo chain_id address [] = ok (before_fetch address [], none)
  fetch repo chain_id address (b ∷ code) = do
    url ← repo.url chain_id address
    answered (before_fetch address (b ∷ code)) (observed repo url) (b ∷ code)
        (repo.contract chain_id address)
