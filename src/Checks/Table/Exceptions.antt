-- ===== src/Checks/Table/Exceptions.antt =====
-- checks.go and settings_change.go: the pairs of checks of a settings change that has an exception.
use safenet_arbitration_bot.Base.{
  ◌≤◌, ◌≡◌, ◌↔◌, inl, inr, refl, Bool, true, false, ok, is_zero, length, take, drop, length-drop,
  bytes_eq, arith, Bool-cases,
}
use safenet_arbitration_bot.Keccak.{Keccak}
use safenet_arbitration_bot.Checks.Calls.{SafeId, Call}
use safenet_arbitration_bot.Checks.Rules.{
  Env, arg_count, allowed_disable_module, allowed_set_fallback_handler,
}
use safenet_arbitration_bot.Checks.Rules.Settings.{
  Canonical, canonical_root_call_lem, array_in_range, Separates, settings_change_fn-Separates,
}
use safenet_arbitration_bot.Checks.Table.{
  disable_module_check, allowed_disable_module_check, set_fallback_handler_check,
  allowed_set_fallback_handler_check,
}

module _ (c : Call) where
  -- A canonical call with the zero address, which removes the fallback handler.
  abbrev pub RemovesHandler : Type 0
  RemovesHandler = Canonical c 1 × (is_zero (take 32 (drop 4 c.input)) ≡ true)

  disable_module_lem : (b : Bool) × (allowed_disable_module c ≡ ok b) × ((b ≡ true) ↔ Canonical c 2)
  unfolding allowed_disable_module
  disable_module_lem = canonical_root_call_lem c 2

  set_fallback_handler_lem :
      (b : Bool) × (allowed_set_fallback_handler c ≡ ok b) × ((b ≡ true) ↔ RemovesHandler)
  unfolding allowed_set_fallback_handler
  set_fallback_handler_lem =
      let (b, m, same) = canonical_root_call_lem c 1 in
      elim (Bool-cases b) [
        | inr other ↦
            (false, rw (m, other) refl, ((λ h. cc), λ z. let t = same.1 z.0 in cc (t, other)))
        | inl held ↦
            let canonical = same.0 held in
            let inside : 32 ≤ length (drop 4 c.input) =
              omega (arith, canonical.2, length-drop 4 c.input) in
            (
              is_zero (take 32 (drop 4 c.input)),
              rw (m, held, array_in_range 32 (drop 4 c.input) inside) refl,
              ((λ t. (canonical, t)), λ z. z.1),
            )
      ]

module _ ⦃k : Keccak⦄ where
  disable_module-arg_count : arg_count "disableModule(address,address)" ≡ 2
  unfolding arg_count bytes_eq
  disable_module-arg_count = refl

  set_fallback_handler-arg_count : arg_count "setFallbackHandler(address)" ≡ 1
  unfolding arg_count bytes_eq
  set_fallback_handler-arg_count = refl

  -- The two pairs of checks of R-4.1's exceptions, on any call: the insecure check of disableModule
  -- matches exactly the calls of the Safe to its own disableModule with both arguments that are not
  -- a canonical call of two arguments by the Safe transaction itself, and the secure check those
  -- that are; the insecure check of setFallbackHandler matches exactly the calls with its argument
  -- that are not a canonical call with the zero address, and the secure check those that are. None
  -- of the four fails.
  pub exceptions_lem :
      (env : Env) (safe : SafeId) (c : Call)
      → Separates "disableModule(address,address)" env safe c disable_module_check.fn
          allowed_disable_module_check.fn 2
          (Canonical c 2)
        × Separates "setFallbackHandler(address)" env safe c set_fallback_handler_check.fn
            allowed_set_fallback_handler_check.fn 1
            (RemovesHandler c)
  exceptions_lem env safe c = (
    settings_change_fn-Separates "disableModule(address,address)" env safe c allowed_disable_module
        2 disable_module-arg_count (disable_module_lem c),
    settings_change_fn-Separates "setFallbackHandler(address)" env safe c
        allowed_set_fallback_handler 1 set_fallback_handler-arg_count (set_fallback_handler_lem c),
  )
