-- ===== src/Ipfs/Client/Verified.antt =====
-- The content that `Fetch` returns is that of the CID, and is served from the cache from then on.
use safenet_arbitration_bot.Base.{
  ℕ, suc, ◌≤◌, ◌≡◌, refl, ap, ◌∙◌, ◌⊎◌, inl, inr, true, not, Option, none, some, List, [], ◌∷◌,
  Bytes, bytes_eq, bytes_eq_iff, bytes_eq_refl, length, take, ltb, ◌==◌, Bool-cases, Result, ok,
  err, fail_if, >>=-eq-ok, ok-injective, arith, subst,
}
use safenet_arbitration_bot.Ipfs.Cid.{Sha256, Cid, compute_cid}
use safenet_arbitration_bot.Ipfs.Client.{
  max_content_size, Gateway, World, Client, file_of, valid_copy, cached, written, stored, store,
  verified, download_from, served, race, picked, pick, download, kept, fetched, fetch,
}

module _ ⦃h : Sha256⦄ where
  -- Content that is downloaded: it has the CID, and is not too large.
  abbrev pub IsContent : Cid → Bytes → Type 0
  IsContent cid content = (compute_cid content ≡ cid) × (length content ≤ max_content_size)

  verified-IsContent :
      (limit : ℕ) (cid : Cid) (body : Bytes) {content : Bytes}
      → verified limit cid body ≡ ok content
      → (compute_cid content ≡ cid) × (length content ≤ limit)
  unfolding verified
  verified-IsContent limit cid body {content} e =
      let read = take (suc limit) body in
      elim (Bool-cases (ltb limit (length read))) [
        | inl over ↦ cc (rw (over, verified) at e)
        | inr within ↦ elim (Bool-cases (bytes_eq (compute_cid read) cid)) [
          | inr other ↦ cc (rw (within, other, verified) at e)
          | inl same ↦
              let e' : read ≡ content = ok-injective (rw (within, same, verified) at e) in
              subst (λ x. (compute_cid x ≡ cid) × (length x ≤ limit)) e'
                ((bytes_eq_iff (compute_cid read) cid).0 same, ground arith)
        ]
      ]

  download_from-IsContent :
      (w : World) (g : Gateway) (cid : Cid) {content : Bytes}
      → download_from w g cid ≡ ok content
      → IsContent cid content
  unfolding download_from
  download_from-IsContent w g cid e =
      let (response, _, e₁) = >>=-eq-ok (w.get g cid) _ e in
      let (_, _, e₂) = >>=-eq-ok (fail_if (not (response.status == 200)) "HTTP status") _ e₁ in
      let (body, _, e₃) = >>=-eq-ok response.body _ e₂ in
      verified-IsContent max_content_size cid body e₃

  abbrev Served : Cid → Option (Gateway × Bytes) → Type 0
  Served cid none = Unit
  Served cid (some (g, content)) = IsContent cid content

  served-Served :
      (cid : Cid) (g : Gateway) (r : Result Bytes) (next : Option (Gateway × Bytes))
      → ((content : Bytes) → r ≡ ok content → IsContent cid content)
      → Served cid next
      → Served cid (served g r next)
  unfolding served
  served-Served cid g (ok content) next own rest = own content refl
  served-Served cid g (err e) next own rest = rest

  race-Served : (w : World) (cid : Cid) (gs : List Gateway) → Served cid (race w cid gs)
  unfolding race
  race-Served w cid [] = tt
  race-Served w cid (g ∷ gs) =
      served-Served cid g (download_from w g cid) (race w cid gs)
        (λ content e. download_from-IsContent w g cid e) (race-Served w cid gs)

  -- A download, and what it leaves of the client.
  abbrev Downloads : Cid → Client → Result Bytes × Client → Type 0
  Downloads cid c (err e, c') = c'.cache ≡ c.cache
  Downloads cid c (ok content, c') = IsContent cid content × (c'.cache ≡ c.cache)

  picked-Downloads :
      (w : World) (c : Client) (cid : Cid) (o : Option (Gateway × Bytes))
      → Served cid o
      → Downloads cid c (picked w c o)
  unfolding picked
  picked-Downloads w c cid none s = refl
  picked-Downloads w c cid (some (g, content)) s = (s, refl)

  pick-Downloads :
      (w : World) (c : Client) (cid : Cid) (r : Result (List Gateway))
      → Downloads cid c (pick w c cid r)
  unfolding pick
  pick-Downloads w c cid (err e) = refl
  pick-Downloads w c cid (ok gateways) =
      picked-Downloads w c cid _ (race-Served w cid (w.answers gateways))

  downloaded-Downloads :
      (c : Client) (cid : Cid) (r : Result Bytes)
      → ((content : Bytes) → r ≡ ok content → IsContent cid content)
      → Downloads cid c (r, c)
  downloaded-Downloads c cid (ok content) h = (h content refl, refl)
  downloaded-Downloads c cid (err e) h = refl

  download-Downloads :
      (w : World) (c : Client) (cid : Cid) (o : Option Gateway)
      → Downloads cid c (download w c cid o)
  unfolding download
  download-Downloads w c cid (some g) =
      downloaded-Downloads c cid (download_from w g cid)
        (λ content e. download_from-IsContent w g cid e)
  download-Downloads w c cid none = pick-Downloads w c cid w.default_gateways

  valid_copy-cid :
      (cid : Cid) (o : Option Bytes) {content : Bytes}
      → valid_copy cid o ≡ some content
      → compute_cid content ≡ cid
  unfolding valid_copy
  valid_copy-cid cid none e = cc
  valid_copy-cid cid (some copy) {content} e = ground (arith, bytes_eq_iff (compute_cid copy) cid)

  cached-cid :
      (cache : Option (List (Cid × Bytes))) (cid : Cid) {content : Bytes}
      → cached cache cid ≡ some content
      → compute_cid content ≡ cid
  unfolding cached
  cached-cid none cid e = cc
  cached-cid (some files) cid e = valid_copy-cid cid (file_of cid files) e

  kept-IsContent :
      (w : World) (c : Client) (cid : Cid) (r : Result Bytes × Client) {content : Bytes}
      → Downloads cid c r
      → (kept w cid r).0 ≡ ok content
      → IsContent cid content
  unfolding kept
  kept-IsContent w c cid (ok body, c') d e = subst (IsContent cid) (ok-injective e) d.0
  kept-IsContent w c cid (err x, c') d e = cc

  fetched-IsContent :
      (w : World) (c : Client) (cid : Cid) (o : Option Bytes) {content : Bytes}
      → cached c.cache cid ≡ o
      → (fetched w c cid o).0 ≡ ok content
      → (compute_cid content ≡ cid)
        × ((cached c.cache cid ≡ some content) ⊎ (length content ≤ max_content_size))
  unfolding fetched
  fetched-IsContent w c cid (some copy) h e =
      let h' : cached c.cache cid ≡ some _ = h ∙ ap some (ok-injective e) in
      (cached-cid c.cache cid h', inl h')
  fetched-IsContent w c cid none h e =
      let (is, short) =
        kept-IsContent w c cid (download w c cid c.gateway) (download-Downloads w c cid c.gateway)
          e in
      (is, inr short)

  -- The new file is found again, and is a copy.
  written-cached :
      (c : Client) (files : List (Cid × Bytes)) (cid : Cid) (content : Bytes)
      → compute_cid content ≡ cid
      → cached (written true c files cid content).cache cid ≡ some content
  unfolding written cached file_of valid_copy
  written-cached c files cid content is =
      rw (bytes_eq_refl cid, (bytes_eq_iff (compute_cid content) cid).1 is) refl

  stored-cached :
      (o : Option (List (Cid × Bytes))) (w : World) (c : Client) (cid : Cid) (content : Bytes)
      {files : List (Cid × Bytes)}
      → o ≡ some files
      → w.writes cid ≡ true
      → compute_cid content ≡ cid
      → cached (stored o w c cid content).cache cid ≡ some content
  unfolding stored
  stored-cached none w c cid content e writes is = cc
  stored-cached (some files) w c cid content e writes is =
      rw writes (written-cached c files cid content is)

  kept-cached :
      (w : World) (c : Client) (cid : Cid) (r : Result Bytes × Client) {content : Bytes}
      {files : List (Cid × Bytes)}
      → Downloads cid c r
      → c.cache ≡ some files
      → w.writes cid ≡ true
      → (kept w cid r).0 ≡ ok content
      → cached (kept w cid r).1.cache cid ≡ some content
  unfolding kept store
  kept-cached w c cid (err x, c') d has writes e = cc
  kept-cached w c cid (ok body, c') d has writes e =
      stored-cached c'.cache w c' cid body (d.1 ∙ has) writes d.0.0 ∙ ap some (ok-injective e)

  fetched-cached :
      (w : World) (c : Client) (cid : Cid) (o : Option Bytes) {content : Bytes}
      {files : List (Cid × Bytes)}
      → cached c.cache cid ≡ o
      → c.cache ≡ some files
      → w.writes cid ≡ true
      → (fetched w c cid o).0 ≡ ok content
      → cached (fetched w c cid o).1.cache cid ≡ some content
  unfolding fetched
  fetched-cached w c cid (some copy) h has writes e = h ∙ ap some (ok-injective e)
  fetched-cached w c cid none h has writes e =
      kept-cached w c cid (download w c cid c.gateway) (download-Downloads w c cid c.gateway) has
        writes e

  -- Content that Fetch returns has the CID that was asked for, whatever the cache holds and the
  -- gateways serve, and is a copy in the cache or at most the largest size.
  pub fetch-verified :
      (w : World) (c : Client) (cid : Cid) {content : Bytes}
      → (fetch w c cid).0 ≡ ok content
      → (compute_cid content ≡ cid)
        × ((cached c.cache cid ≡ some content) ⊎ (length content ≤ max_content_size))
  unfolding fetch
  fetch-verified w c cid e = fetched-IsContent w c cid (cached c.cache cid) refl e

  -- Content that Fetch returns, with a cache that can be written, is served again by the next Fetch of
  -- the CID, whatever the network and the disk do then, and that changes nothing.
  pub fetch-again :
      (w later : World) (c : Client) (cid : Cid) (files : List (Cid × Bytes)) {content : Bytes}
      → c.cache ≡ some files
      → w.writes cid ≡ true
      → (fetch w c cid).0 ≡ ok content
      → fetch later (fetch w c cid).1 cid ≡ (ok content, (fetch w c cid).1)
  unfolding fetch fetched
  fetch-again w later c cid files has writes e =
      ap (fetched later (fetch w c cid).1 cid)
        (fetched-cached w c cid (cached c.cache cid) refl has writes e)
