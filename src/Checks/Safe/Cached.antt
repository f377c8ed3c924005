-- ===== src/Checks/Safe/Cached.antt =====
-- The cache of `safeVersion` changes no result.
use mathlib.Core.Option.{some-injective}
use safenet_arbitration_bot.Base.{
  ℕ, ◌≡◌, refl, sym, ap, ◌∙◌, true, Option, none, some, [], ◌∷◌, bytes_eq_iff, Result, ok, err,
  arith, Bool-cases, inl, inr, All,
}
use safenet_arbitration_bot.Keccak.{Keccak}
use safenet_arbitration_bot.Ethrpc.Types.{Dialer}
use safenet_arbitration_bot.Checks.Calls.{SafeId}
use safenet_arbitration_bot.Checks.Safe.{
  SafeVersion, SafeAt, key_of, Cache, same_key, load, stored, read_version, safe_version,
}

same_key-eq : (a b : SafeAt) → same_key a b ≡ true → a ≡ b
unfolding same_key
same_key-eq a b h = ground (arith, bytes_eq_iff a.address b.address)

module _ ⦃k : Keccak⦄ (dial : Dialer) where
  -- Every entry is what the chain has at its key.
  abbrev pub IsCoherent : Cache → Type 0
  IsCoherent = All (λ (entry : SafeAt × Option SafeVersion). read_version dial entry.0 ≡ ok entry.1)

  load-IsCoherent :
      (key : SafeAt) (cache : Cache) {v : Option SafeVersion}
      → IsCoherent cache
      → load key cache ≡ some v
      → read_version dial key ≡ ok v
  unfolding load
  load-IsCoherent key [] h e = cc
  load-IsCoherent key ((other, w) ∷ rest) {v} h e = elim (Bool-cases (same_key other key)) [
    | inl same ↦
        let e' : w ≡ v = some-injective w v (rw same at e) in
        sym (ap (read_version dial) (same_key-eq other key same)) ∙ h.0 ∙ ap ok e'
    | inr differs ↦ load-IsCoherent key rest h.1 (rw differs at e)
  ]

  stored-read :
      (key : SafeAt) (cache : Cache) (o : Option (Option SafeVersion))
      (r : Result (Option SafeVersion))
      → IsCoherent cache
      → read_version dial key ≡ r
      → ((v : Option SafeVersion) → o ≡ some v → r ≡ ok v)
      → ((stored key cache o r).0 ≡ r) × IsCoherent (stored key cache o r).1
  unfolding stored
  stored-read key cache (some v) r h e l = (sym (l v refl), h)
  stored-read key cache none (ok v) h e l = (refl, (e, h))
  stored-read key cache none (err x) h e l = (refl, h)

  -- From a coherent cache, `safeVersion` returns what reading the chain anew would, errors
  -- included, and leaves a coherent cache.
  pub safe_version-read :
      (cache : Cache) (block : ℕ) (safe : SafeId)
      → IsCoherent cache
      → ((safe_version cache dial block safe).0 ≡ read_version dial (key_of block safe))
        × IsCoherent (safe_version cache dial block safe).1
  unfolding safe_version
  safe_version-read cache block safe h =
      let key = key_of block safe in
      stored-read key cache (load key cache) (read_version dial key) h refl
        λ v e. load-IsCoherent key cache h e
