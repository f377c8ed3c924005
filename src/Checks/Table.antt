-- ===== src/Checks/Table.antt =====
-- The checks of `Classify`, in its order: `checks` of checks.go, with the checks that it names.
pub mod Exceptions
use safenet_arbitration_bot.Base.{
  pos, ◌==ℤ◌, is_uint64, low_uint64, ◌^◌, Bool, true, false, not, ◌&&◌, Option, none, some, List,
  [], ◌∷◌, ltb, ◌==◌, bytes_eq, length, replicate, ok, ◌>>=◌,
}
use safenet_arbitration_bot.Keccak.{Keccak}
use safenet_arbitration_bot.Ethrpc.Types.{Address}
use safenet_arbitration_bot.Safenet.Types.{operation_call}
use safenet_arbitration_bot.Checks.Calls.{Call, refund, kind_eq, call_eq}
use safenet_arbitration_bot.Checks.MultiSend.{
  MultiSend, multi_send_at, reverting_multi_send, empty_multi_send,
}
use safenet_arbitration_bot.Checks.Safe.{networks, contains, key_of, read_version}
use safenet_arbitration_bot.Checks.Rules.{
  secure, insecure, CheckFn, Check, allowed, allowed_disable_module, allowed_set_fallback_handler,
  adds_invalid_owner, allowed_settings_change, settings_change, no_module_guard,
}

unfoldable pub off_network_fn : CheckFn
off_network_fn env safe c =
    ok (not (is_uint64 safe.chain_id && contains networks (low_uint64 safe.chain_id)))

abbrev pub off_network : Check
off_network = record {
  verdict = insecure;
  rule = "R-4.0";
  description = "Safe on a network that the Charter doesn't cover";
  fn = off_network_fn;
}

abbrev is_none {ℓ} : {A : Type ℓ} → Option A → Bool
is_none none = true
is_none (some a) = false

abbrev pub has_contract : Option MultiSend → Bool
has_contract none = false
has_contract (some ms) = true

-- `emptyCall`.
unfoldable pub empty_call : Call → Address → Bool
empty_call c to =
    not (kind_eq c.kind refund)
    && bytes_eq c.to to
    && c.operation == operation_call
    && c.value ==ℤ pos 0
    && length c.input == 0

unfoldable pub empty_self_call_fn : CheckFn
empty_self_call_fn env safe c = ok (empty_call c safe.address)

abbrev pub empty_self_call_check : Check
empty_self_call_check = record {
  verdict = secure;
  rule = "";
  description = "calls the Safe with no data or value, as a cancellation does";
  fn = empty_self_call_fn;
}

unfoldable pub empty_zero_address_call_fn : CheckFn
empty_zero_address_call_fn env safe c = ok (empty_call c (replicate 20 0))

abbrev pub empty_zero_address_call_check : Check
empty_zero_address_call_check = record {
  verdict = secure;
  rule = "";
  description = "calls the zero address with no data or value, as a cancellation does";
  fn = empty_zero_address_call_fn;
}

module _ ⦃k : Keccak⦄ where
  unfoldable pub unsupported_safe_fn : CheckFn
  unsupported_safe_fn env safe c = do
    version ← read_version env.dial (key_of env.block safe)
    ok (is_none version)

  abbrev pub unsupported_safe : Check
  unsupported_safe = record {
    verdict = insecure;
    rule = "R-4.0";
    description = "account that isn't a Safe of a version that the Charter covers";
    fn = unsupported_safe_fn;
  }

  unfoldable pub empty_multi_send_fn : CheckFn
  empty_multi_send_fn env safe c = do
    placeholder ← empty_multi_send c.to
    ok (has_contract (multi_send_at c.to) && call_eq c placeholder)

  abbrev pub empty_multi_send_check : Check
  empty_multi_send_check = record {
    verdict = secure;
    rule = "";
    description = "MultiSend that makes no calls";
    fn = empty_multi_send_fn;
  }

  unfoldable pub invalid_multi_send_fn : CheckFn
  invalid_multi_send_fn env safe c =
      ok (has_contract (multi_send_at c.to) && call_eq c (reverting_multi_send c.to))

  abbrev pub invalid_multi_send_check : Check
  invalid_multi_send_check = record {
    verdict = secure;
    rule = "";
    description = "MultiSend call that always reverts";
    fn = invalid_multi_send_fn;
  }

  abbrev pub allowed_disable_module_check : Check
  allowed_disable_module_check = record {
    verdict = secure;
    rule = "";
    description = "calls disableModule on the Safe as R-4.1 allows";
    fn = allowed_settings_change "disableModule(address,address)" allowed_disable_module;
  }

  abbrev pub allowed_set_fallback_handler_check : Check
  allowed_set_fallback_handler_check = record {
    verdict = secure;
    rule = "";
    description = "calls setFallbackHandler on the Safe to remove the handler as R-4.1 allows";
    fn = allowed_settings_change "setFallbackHandler(address)" allowed_set_fallback_handler;
  }

  abbrev pub disable_module_check : Check
  disable_module_check =
      settings_change "disableModule(address,address)"
        "calls disableModule on the Safe outside the allowed exception"
        (some (allowed allowed_disable_module))

  abbrev pub set_fallback_handler_check : Check
  set_fallback_handler_check =
      settings_change "setFallbackHandler(address)"
        "calls setFallbackHandler on the Safe outside the allowed exception"
        (some (allowed allowed_set_fallback_handler))

  -- The settings-change checks.
  abbrev pub settings_change_checks : List Check
  settings_change_checks =
      settings_change "addOwnerWithThreshold(address,uint256)"
        "calls addOwnerWithThreshold on the Safe" (some (adds_invalid_owner 0))
      ∷ settings_change "removeOwner(address,address,uint256)" "calls removeOwner on the Safe" none
      ∷ settings_change "swapOwner(address,address,address)" "calls swapOwner on the Safe"
          (some (adds_invalid_owner 2))
      ∷ settings_change "changeThreshold(uint256)" "calls changeThreshold on the Safe" none
      ∷ settings_change "enableModule(address)" "calls enableModule on the Safe" none
      ∷ disable_module_check
      ∷ settings_change "setGuard(address)" "calls setGuard on the Safe" none
      ∷ set_fallback_handler_check
      ∷ settings_change "setModuleGuard(address)" "calls setModuleGuard on a Safe 1.5.0"
          (some no_module_guard)
      ∷ []

  abbrev pub secure_checks : List Check
  secure_checks =
      empty_multi_send_check ∷ invalid_multi_send_check ∷ allowed_disable_module_check
      ∷ allowed_set_fallback_handler_check ∷ empty_self_call_check ∷ empty_zero_address_call_check
      ∷ []

  abbrev append_checks : List Check → List Check → List Check
  append_checks [] others = others
  append_checks (c ∷ cs) others = c ∷ append_checks cs others

  -- `checks`.
  abbrev pub checks : List Check
  checks = off_network ∷ unsupported_safe ∷ append_checks settings_change_checks secure_checks
