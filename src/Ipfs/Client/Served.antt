-- ===== src/Ipfs/Client/Served.antt =====
-- Content that a gateway serves is returned.
use safenet_arbitration_bot.Base.{
  ℕ, zero, suc, ◌≤◌, ◌≡◌, refl, sym, ap, ◌∙◌, inl, inr, false, Option, none, some, List, [], ◌∷◌,
  Any, Result-cases, Bytes, bytes_eq_iff, length, take, ltb, Result, ok, err, arith, subst,
}
use safenet_arbitration_bot.Ipfs.Cid.{Sha256, Cid, compute_cid}
use safenet_arbitration_bot.Ipfs.Client.{
  max_content_size, Gateway, World, Client, cached, verified, download_from, served, race, picked,
  pick, download, kept, fetched, fetch,
}

take-all : (n : ℕ) (xs : Bytes) → length xs ≤ n → take n xs ≡ xs
take-all zero [] h = refl
take-all (suc n) [] h = refl
take-all zero (x ∷ xs) h = let bad : ⊥ = omega arith in elim bad [ ]
take-all (suc n) (x ∷ xs) h = ap (λ ys. x ∷ ys) (take-all n xs (omega arith))

module _ ⦃h : Sha256⦄ where
  -- The gateway answers with the content of the CID, of at most the largest size.
  abbrev pub Serves : World → Cid → Gateway → Type 0
  Serves w cid g =
      (body : Bytes) × (w.get g cid ≡ ok (record { status = 200; body = ok body }))
      × (compute_cid body ≡ cid)
      × (length body ≤ max_content_size)

  abbrev Returns : {A : Type 0} → Result A → Type 0
  Returns {A} r = (a : A) × (r ≡ ok a)

  verified-all :
      (limit : ℕ) (cid : Cid) (body : Bytes)
      → compute_cid body ≡ cid
      → length body ≤ limit
      → verified limit cid body ≡ ok body
  unfolding verified
  verified-all limit cid body is small =
      let fits : ltb limit (length body) ≡ false = ground arith in
      rw (take-all (suc limit) body (omega arith), fits, (bytes_eq_iff (compute_cid body) cid).1 is)
        refl

  download_from-Serves :
      (w : World) (cid : Cid) (g : Gateway) → Serves w cid g → Returns (download_from w g cid)
  unfolding download_from
  download_from-Serves w cid g (body, answer, is, small) =
      (body, rw answer (verified-all max_content_size cid body is small))

  race-Serves :
      (w : World) (cid : Cid) (gs : List Gateway)
      → Any (Serves w cid) gs
      → (r : Gateway × Bytes) × (race w cid gs ≡ some r)
  unfolding race served
  race-Serves w cid [] m = elim m [ ]
  race-Serves w cid (g ∷ gs) m = elim (Result-cases (download_from w g cid)) [
    | inl (content, read) ↦ ((g, content), rw read refl)
    | inr (e, failed) ↦ elim m [
      | inl serves ↦
          let (content, read) = download_from-Serves w cid g serves in cc (sym read ∙ failed)
      | inr later ↦ rw failed (race-Serves w cid gs later)
    ]
  ]

  pick-Serves :
      (w : World) (c : Client) (cid : Cid) (gateways : List Gateway)
      → Any (Serves w cid) (w.answers gateways)
      → Returns (pick w c cid (ok gateways)).0
  unfolding pick picked
  pick-Serves w c cid gateways m =
      let ((g, content), found) = race-Serves w cid (w.answers gateways) m in
      (content, rw found refl)

  download-Serves :
      (w : World) (c : Client) (cid : Cid) (o : Option Gateway) (gateways : List Gateway)
      → o ≡ none
      → w.default_gateways ≡ ok gateways
      → Any (Serves w cid) (w.answers gateways)
      → Returns (download w c cid o).0
  unfolding download
  download-Serves w c cid (some g) gateways is known m = cc
  download-Serves w c cid none gateways is known m =
      subst (λ r. Returns (pick w c cid r).0) (sym known) (pick-Serves w c cid gateways m)

  kept-Returns :
      (w : World) (cid : Cid) (r : Result Bytes × Client) → Returns r.0 → Returns (kept w cid r).0
  unfolding kept
  kept-Returns w cid (ok content, c) returns = (content, refl)
  kept-Returns w cid (err e, c) returns = cc returns.1

  fetched-Serves :
      (w : World) (c : Client) (cid : Cid) (o : Option Bytes) (gateways : List Gateway)
      → c.gateway ≡ none
      → w.default_gateways ≡ ok gateways
      → Any (Serves w cid) (w.answers gateways)
      → Returns (fetched w c cid o).0
  unfolding fetched
  fetched-Serves w c cid (some content) gateways is known m = (content, refl)
  fetched-Serves w c cid none gateways is known m =
      kept-Returns w cid _ (download-Serves w c cid c.gateway gateways is known m)

  -- A client that has not picked a gateway yet fetches the content of a CID, whatever its cache holds,
  -- if one of the default gateways that answer serves it, whatever the others answer.
  pub fetch-Serves :
      (w : World) (c : Client) (cid : Cid) (gateways : List Gateway)
      → c.gateway ≡ none
      → w.default_gateways ≡ ok gateways
      → Any (Serves w cid) (w.answers gateways)
      → (content : Bytes) × ((fetch w c cid).0 ≡ ok content)
  unfolding fetch
  fetch-Serves w c cid gateways is known m =
      fetched-Serves w c cid (cached c.cache cid) gateways is known m
