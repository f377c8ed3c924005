-- ===== src/Safesettings.antt =====
-- internal/safesettings: the settings of a Safe, from its storage.
pub mod Linked
use safenet_arbitration_bot.Base.{
  ℕ, zero, suc, Bool, true, false, ◌||◌, Option, none, some, List, [], ◌∷◌, ◌++◌, String,
  if◌then◌else◌, Bytes, codes, bytes_eq, from_be, is_zero, drop, replicate, padded, Error, message,
  Result, ok, err,
}
use safenet_arbitration_bot.Keccak.{Keccak, hash}
use safenet_arbitration_bot.Solabi.Decode.{Read, ◌>>=◌, pure}
use safenet_arbitration_bot.Ethrpc.Types.{Address, Hash, Client}

-- `slot` and `sentinel`.
abbrev pub slot : ℕ → Hash
slot i = replicate 31 0 ++ i ∷ []

abbrev pub list_sentinel : Address
list_sentinel = replicate 19 0 ++ 1 ∷ []

abbrev pub max_list_length : ℕ
max_list_length = 1024

pub record Settings : Type 0 where
  pub singleton : Address
  pub owners : List Address
  pub owner_count : ℕ
  pub threshold : ℕ
  pub nonce : ℕ
  pub modules : List Address
  pub fallback_handler : Address
  pub guard : Address
  pub module_guard : Address

-- The reads of `reader`, which keep its first error, of a storage.
module _ (storage : Hash → Result Hash) where
  unfoldable pub read_word : Hash → Read Hash
  read_word s (some e) = (replicate 32 0, some e)
  read_word s none = elim (storage s) [ ok w ↦ (w, none) | err e ↦ (replicate 32 0, some e) ]

  unfoldable pub read_address : Hash → Read Address
  read_address s = do w ← read_word s; pure (drop 12 w)

  unfoldable pub read_uint : Hash → Read ℕ
  read_uint s = do w ← read_word s; pure (from_be w)

abbrev pub is_failed : Option Error → Bool
is_failed none = false
is_failed (some e) = true

module _ ⦃k : Keccak⦄ where
  -- `mappingSlot`.
  unfoldable pub mapping_slot : Address → Hash → Hash
  mapping_slot key s = hash ((replicate 12 0 ++ (key ++ s)) ∷ [])

  module _ (storage : Hash → Result Hash) (s : Hash) where
    -- The loop of `list`, with room for `n` more entries.
    unfoldable pub list_loop : ℕ → Address → List Address → Read (List Address)
    list_loop zero next entries e =
        if bytes_eq next list_sentinel || is_failed e
        then (entries, e)
        else if is_zero next
        then (entries, some (message "the list ends without coming back to its start"))
        else (entries, some (message "the list has too many entries"))
    list_loop (suc n) next entries e = elim (bytes_eq next list_sentinel || is_failed e) [
      | true ↦ (entries, e)
      | false ↦ elim (is_zero next) [
        | true ↦ (entries, some (message "the list ends without coming back to its start"))
        | false ↦
            let read = read_address storage (mapping_slot next s) e in
            list_loop n read.0 (entries ++ next ∷ []) read.1
      ]
    ]

    -- `list`.
    unfoldable pub list : Read (List Address)
    list e =
        let first = read_address storage (mapping_slot list_sentinel s) e in
        elim (is_zero first.0) [
          | true ↦ ([], first.1)
          | false ↦ list_loop max_list_length first.0 [] first.1
        ]

  abbrev pub named_slot : String → Hash
  named_slot name = hash (codes name ∷ [])

  -- The reads of `Read`.
  unfoldable pub read_settings : (Hash → Result Hash) → Read Settings
  read_settings storage = do
    singleton ← read_address storage (slot 0)
    owner_count ← read_uint storage (slot 3)
    threshold ← read_uint storage (slot 4)
    nonce ← read_uint storage (slot 5)
    fallback_handler ← read_address storage (named_slot "fallback_manager.handler.address")
    guard ← read_address storage (named_slot "guard_manager.guard.address")
    module_guard ← read_address storage (named_slot "module_manager.module_guard.address")
    owners ← list storage (slot 2)
    modules ← list storage (slot 1)
    pure (record {
      singleton = singleton;
      owners = owners;
      owner_count = owner_count;
      threshold = threshold;
      nonce = nonce;
      modules = modules;
      fallback_handler = fallback_handler;
      guard = guard;
      module_guard = module_guard;
    })

  returned : Settings × Option Error → Result Settings
  returned (settings, none) = ok settings
  returned (settings, some e) = err e

  -- `Read`.
  unfoldable pub read : Client → Address → ℕ → Result Settings
  unfolding returned
  read client safe block = returned (read_settings (λ s. client.get_storage_at safe s block) none)
