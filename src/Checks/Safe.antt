-- ===== src/Checks/Safe.antt =====
-- network.go and safe.go: the networks, the Safe proxies and singletons, and the Safe's version.
pub mod Cached
use safenet_arbitration_bot.Base.{
  low_uint64, ℕ, Bool, true, false, not, ◌||◌, ◌&&◌, ◌%◌, bytes_eq, Option, none, some, List, [],
  ◌∷◌, String, if◌then◌else◌, ◌==◌, ltb, ◌^◌, Bytes, replicate, drop, Result, ok, err, ◌>>=◌,
}
use safenet_arbitration_bot.Keccak.{Keccak, hash}
use safenet_arbitration_bot.Ethrpc.Types.{Address, Hash, Client, Dialer}
use safenet_arbitration_bot.Ethrpc.Hex.{address_of, hash_of}
use safenet_arbitration_bot.Checks.Calls.{SafeId}
use safenet_arbitration_bot.Checks.MultiSend.{Version, v1_3_0, v1_4_1, v1_5_0, find_address}

-- chains.go.
abbrev pub mainnet : ℕ
mainnet = 1

abbrev pub arbitrum_one : ℕ
arbitrum_one = 42161

abbrev pub gnosis : ℕ
gnosis = 100

abbrev pub networks : List ℕ
networks = mainnet ∷ arbitrum_one ∷ gnosis ∷ []

abbrev pub contains : List ℕ → ℕ → Bool
contains [] n = false
contains (x ∷ xs) n = x == n || contains xs n

-- The proxy versions.
pub data ProxyVersion : Type 0 where
  p1_0_0 p1_1_1 p1_3_0 p1_4_1 p1_5_0 : ProxyVersion

pub record SafeProxy : Type 0 where
  pub version : ProxyVersion
  pub networks : List ℕ

abbrev proxy : ProxyVersion → List ℕ → SafeProxy
proxy v on = record { version = v; networks = on }

-- `safeProxyCodeHashes`.
abbrev pub safe_proxy_code_hashes : List (Hash × SafeProxy)
safe_proxy_code_hashes =
    (
      hash_of "0xf8fffcb9b9c73fbc4ffb6dc52f0001fa998951e0d4177894b1b899f7732b6eaf",
      proxy p1_0_0 (mainnet ∷ gnosis ∷ []),
    )
    ∷ (
      hash_of "0xaea7d4252f6245f301e540cfbee27d3a88de543af8e49c5c62405d5499fab7e5",
      proxy p1_1_1 (mainnet ∷ []),
    )
    ∷ (
      hash_of "0x30cf24338d14750aab3433d8bb0cedd0e1263ee1f4f5f84cc482f3541ce61ad5",
      proxy p1_1_1 (gnosis ∷ []),
    )
    ∷ (
      hash_of "0xb89c1b3bdf2cf8827818646bce9a8f6e372885f8c55e5c07acbd307cb133b000",
      proxy p1_3_0 networks,
    )
    ∷ (
      hash_of "0xd7d408ebcd99b2b70be43e20253d6d92a8ea8fab29bd3be7f55b10032331fb4c",
      proxy p1_4_1 networks,
    )
    ∷ (
      hash_of "0x4e381985ca68b3e5d27b4425fa581c19cf33146d3f887a3cfca96f55528ea46f",
      proxy p1_5_0 networks,
    )
    ∷ []

-- A version of `singletons`; `l2` is its suffix "+L2".
pub record SafeVersion : Type 0 where
  pub version : Version
  pub l2 : Bool

abbrev singleton : Version → Bool → SafeVersion
singleton v l2 = record { version = v; l2 = l2 }

-- `singletons`.
abbrev pub singletons : List (Address × SafeVersion)
singletons =
    (address_of "0xd9Db270c1B5E3Bd161E8c8503c55cEABeE709552", singleton v1_3_0 false)
    ∷ (address_of "0x69f4D1788e39c87893C980c06EdF4b7f686e2938", singleton v1_3_0 false)
    ∷ (address_of "0x3E5c63644E683549055b9Be8653de26E0B4CD36E", singleton v1_3_0 true)
    ∷ (address_of "0xfb1bffC9d739B8D520DaF37dF666da4C687191EA", singleton v1_3_0 true)
    ∷ (address_of "0x41675C099F32341bf84BFc5382aF534df5C7461a", singleton v1_4_1 false)
    ∷ (address_of "0x29fcB43b46531BcA003ddC8FCB67FFE91900C762", singleton v1_4_1 true)
    ∷ (address_of "0xFf51A5898e281Db6DfC7855790607438dF2ca44b", singleton v1_5_0 false)
    ∷ (address_of "0xEdd160fEBBD92E350D4D398fb636302fccd67C7e", singleton v1_5_0 true)
    ∷ []

unfoldable pub singleton_at : Address → Option SafeVersion
unfolding find_address
singleton_at a = find_address a singletons

on_network : ℕ → Option SafeProxy → Option ProxyVersion
on_network chain_id none = none
on_network chain_id (some p) = if contains p.networks chain_id then some p.version else none

abbrev is_some {ℓ} : {A : Type ℓ} → Option A → Bool
is_some none = false
is_some (some a) = true

-- The singleton that a proxy's slot 0 holds, which is a uint256 in storage.
abbrev pub singleton_in : Hash → Address
singleton_in slot = drop 12 slot

-- `safeAt`, the keys of the cache `safeVersions`.
pub record SafeAt : Type 0 where
  pub address : Address
  pub chain_id : ℕ
  pub block : ℕ

-- `Uint64` takes the low 64 bits of a chain ID.
abbrev pub key_of : ℕ → SafeId → SafeAt
key_of block safe = record {
  address = safe.address;
  chain_id = low_uint64 safe.chain_id;
  block = block;
}

abbrev pub Cache : Type 0
Cache = List (SafeAt × Option SafeVersion)

same_key : SafeAt → SafeAt → Bool
same_key a b = bytes_eq a.address b.address && a.chain_id == b.chain_id && a.block == b.block

load : SafeAt → Cache → Option (Option SafeVersion)
unfolding same_key
load key [] = none
load key ((other, v) ∷ rest) = if same_key other key then some v else load key rest

-- A version that was read is stored, and an error is not.
stored :
    SafeAt
    → Cache
    → Option (Option SafeVersion)
    → Result (Option SafeVersion)
    → Result (Option SafeVersion) × Cache
stored key cache (some v) read = (ok v, cache)
stored key cache none (ok v) = (ok v, (key, v) ∷ cache)
stored key cache none (err e) = (err e, cache)

module _ ⦃k : Keccak⦄ where
  -- `proxyVersion`.
  unfoldable pub proxy_version : Bytes → ℕ → Option ProxyVersion
  unfolding on_network find_address
  proxy_version code chain_id =
      on_network chain_id (find_address (hash (code ∷ [])) safe_proxy_code_hashes)

  read_singleton : Client → ℕ → Address → Result (Option SafeVersion)
  read_singleton client block account = do
    slot ← client.get_storage_at account (replicate 32 0) block
    ok (singleton_at (singleton_in slot))

  -- What `safeVersion` reads from the chain, past its cache. `none` is the empty version.
  unfoldable pub read_version : Dialer → SafeAt → Result (Option SafeVersion)
  unfolding read_singleton
  read_version dial key = do
    client ← dial key.chain_id
    code ← client.get_code key.address key.block
    (if is_some (proxy_version code key.chain_id)
        then read_singleton client key.block key.address
        else ok none)

  -- `safeVersion`, with the cache before and after it.
  pub safe_version : Cache → Dialer → ℕ → SafeId → Result (Option SafeVersion) × Cache
  unfolding load stored
  safe_version cache dial block safe =
      let key = key_of block safe in stored key cache (load key cache) (read_version dial key)
