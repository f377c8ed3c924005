-- ===== src/Checks/Rules/Settings.antt =====
-- settings_change.go: the checks on the Safe's settings.
use safenet_arbitration_bot.Base.{
  pos, ◌==ℤ◌, ==ℤ_iff, bytes_eq, ℕ, zero, suc, ◌+◌, ◌-◌, ◌*◌, ◌≤◌, ◌<◌, ◌≡◌, ◌↔◌, inl, inr, refl,
  Bool, true, false, not, ◌&&◌, ◌||◌, some, String, is_zero, ◌==◌, Result, ok, arith, Bool-cases,
  ltb, length, take, drop, length-drop, Bytes,
}
use safenet_arbitration_bot.Keccak.{Keccak}
use safenet_arbitration_bot.Solabi.Encode.{selector}
use safenet_arbitration_bot.Checks.Calls.{SafeId, Call, root, kind_eq}
use safenet_arbitration_bot.Checks.Rules.{
  Env, CheckFn, array, sliced, zero_uppers, canonical_root_call, allowed, self_call, arg_count,
  adds_invalid_owner, sentinel, allowed_settings_change, settings_change_fn,
}

-- The upper 12 bytes of the argument `i`.
abbrev pub upper : Bytes → ℕ → Bytes
upper input i = take 12 (drop (4 + 32 * i) input)

-- The upper bytes of the `n` arguments from `i` on are zero.
abbrev pub AllZero : Bytes → ℕ → ℕ → Type 0
AllZero input i zero = Unit
AllZero input i (suc n) = (is_zero (upper input i) ≡ true) × AllZero input (i + 1) n

pub array_in_range : (n : ℕ) (b : Bytes) → n ≤ length b → array n b ≡ ok (take n b)
array_in_range n b h = ground arith

zero_uppers_lem :
    (input : Bytes) (i n : ℕ)
    → length input ≡ 4 + 32 * (i + n)
    → (b : Bool) × (zero_uppers input i n ≡ ok b) × ((b ≡ true) ↔ AllZero input i n)
unfolding zero_uppers
zero_uppers_lem input i zero h = (true, refl, (λ t. tt, λ t. refl))
zero_uppers_lem input i (suc n) h =
    let inside : 12 ≤ length (drop (4 + 32 * i) input) =
      omega (arith, length-drop (4 + 32 * i) input) in
    let (b, rest, same) = zero_uppers_lem input (i + 1) n (omega arith) in
    elim (Bool-cases (is_zero (upper input i))) [
      | inl t ↦ (
        b,
        rw (array_in_range 12 (drop (4 + 32 * i) input) inside, t) rest,
        (λ h. (t, same.0 h), λ z. same.1 z.1),
      )
      | inr f ↦ (
        false,
        rw (array_in_range 12 (drop (4 + 32 * i) input) inside, f) refl,
        (λ h. cc, λ z. cc (z.0, f)),
      )
    ]

sliced_in_range :
    (from to : ℕ) (b : Bytes)
    → to ≤ length b
    → sliced from to b ≡ ok (take (to - from) (drop from b))
sliced_in_range from to b h = ground arith

adds_invalid_owner_in_range :
    (i : ℕ) (env : Env) (safe : SafeId) (c : Call)
    → 4 + 32 * i + 32 ≤ length c.input
    → (b : Bool) × (adds_invalid_owner i env safe c ≡ ok b)
unfolding adds_invalid_owner
adds_invalid_owner_in_range i env safe c h =
    let start = 4 + 32 * i in
    let owner = take (start + 32 - (start + 12)) (drop (start + 12) c.input) in
    (
      is_zero owner || bytes_eq owner sentinel,
      rw (sliced_in_range (start + 12) (start + 32) c.input h) refl,
    )

module _ (c : Call) where
  -- What `canonicalRootCall` accepts: a call by the Safe itself with no value, of `n` arguments in
  -- canonical ABI encoding.
  abbrev pub Canonical : ℕ → Type 0
  Canonical n =
      (kind_eq c.kind root ≡ true)
      × (c.value ≡ pos 0)
      × (length c.input ≡ 4 + 32 * n)
      × AllZero c.input 0 n

  -- `canonicalRootCall` never panics, whatever the call, and is true exactly for the canonical
  -- calls.
  pub canonical_root_call_lem :
      (n : ℕ) → (b : Bool) × (canonical_root_call c n ≡ ok b) × ((b ≡ true) ↔ Canonical n)
  unfolding canonical_root_call
  canonical_root_call_lem n =
      elim (Bool-cases (
        not (kind_eq c.kind root)
        || not (c.value ==ℤ pos 0)
        || not (length c.input == 4 + 32 * n))) [
          | inl t ↦ (false, rw t refl, (λ h. cc, λ z. ground arith))
          | inr f ↦
              let no_value = ==ℤ_iff c.value (pos 0) in
              let sized : length c.input ≡ 4 + 32 * n = ground arith in
              let (b, m, same) = zero_uppers_lem c.input 0 n (omega (arith, sized)) in
              (b, rw f m, (λ h. (ground arith, ground arith, sized, same.0 h), λ z. same.1 z.3))
        ]

module _ ⦃k : Keccak⦄ (signature : String) (env : Env) (safe : SafeId) (c : Call) where
  -- A call to the function by the Safe on itself.
  abbrev pub Calls : Type 0
  Calls = self_call safe c (selector signature) ≡ true

  -- Neither check fails. The insecure check matches exactly the calls to the function that have all
  -- of its `n` arguments and are not the exception, and the secure check the exception.
  abbrev pub Separates : CheckFn → CheckFn → ℕ → Type 0 → Type 0
  Separates insecure_fn secure_fn n Exception =
      (b : Bool) × (b' : Bool) × (insecure_fn env safe c ≡ ok b)
      × (secure_fn env safe c ≡ ok b')
      × ((b ≡ true) ↔ (Calls × (4 + 32 * n ≤ length c.input) × (¬ Exception)))
      × ((b' ≡ true) ↔ (Calls × Exception))

  pub settings_change_fn-Separates :
      (is_allowed : Call → Result Bool) (n : ℕ) {Exception : Type 0}
      → arg_count signature ≡ n
      → (b : Bool) × (is_allowed c ≡ ok b) × ((b ≡ true) ↔ Exception)
      → Separates
          (settings_change_fn signature (some (allowed is_allowed)))
          (allowed_settings_change signature is_allowed)
          n
          Exception
  unfolding settings_change_fn allowed_settings_change
  settings_change_fn-Separates is_allowed n count (b, h, same) =
      elim (Bool-cases (self_call safe c (selector signature))) [
        | inr other ↦ (
          false,
          false,
          rw other refl,
          rw other refl,
          ((λ h. cc), λ z. cc (z.0, other)),
          ((λ h. cc), λ z. cc (z.0, other)),
        )
        | inl call ↦ elim (Bool-cases (ltb (length c.input) (4 + 32 * n))) [
          | inl short ↦ (
            false,
            b,
            rw (call, count, short) refl,
            rw call h,
            ((λ h. cc), λ z. absurd (ground (arith, z.1))),
            ((λ t. (call, same.0 t)), λ z. same.1 z.1),
          )
          | inr enough ↦ (
            not b,
            b,
            rw (call, count, enough, h) refl,
            rw call h,
            (
              (λ t. (call, ground arith, λ e. let u = same.1 e in ground arith)),
              λ z. elim (Bool-cases b) [ inl t ↦ absurd (z.2 (same.0 t)) | inr u ↦ rw u refl ],
            ),
            ((λ t. (call, same.0 t)), λ z. same.1 z.1),
          )
        ]
      ]

  -- The guard of the function's signature keeps `addsInvalidOwner` in range: the check of a
  -- function that takes an owner as the argument `i` never panics.
  pub settings_change_fn-total :
      (i : ℕ)
      → i < arg_count signature
      → (b : Bool) × (settings_change_fn signature (some (adds_invalid_owner i)) env safe c ≡ ok b)
  unfolding settings_change_fn adds_invalid_owner
  settings_change_fn-total i h =
      elim (Bool-cases (
        self_call safe c (selector signature)
        && not (ltb (length c.input) (4 + 32 * arg_count signature)))) [
          | inr f ↦ (false, rw (f, settings_change_fn) refl)
          | inl t ↦
              let fits : 4 + 32 * i + 32 ≤ length c.input = ground arith in
              let (skip, m) = adds_invalid_owner_in_range i env safe c fits in
              (not skip, rw (t, m, settings_change_fn) refl)
        ]
