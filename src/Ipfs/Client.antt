-- ===== src/Ipfs/Client.antt =====
-- client.go: the fetching of content from the cache or a gateway, and its verification.
pub mod Verified
pub mod Served
use safenet_arbitration_bot.Base.{
  ℕ, suc, ◌+◌, ◌*◌, ◌^◌, Bool, true, false, not, Option, none, some, List, [], ◌∷◌, ◌++◌,
  if◌then◌else◌, ltb, ◌==◌, Bytes, codes, bytes_eq, length, take, Error, message, wrap, Result, ok,
  err, wrapped, ◌>>=◌, fail_if, ◌>>◌,
}
use safenet_arbitration_bot.Ipfs.Cid.{Sha256, Cid, compute_cid}

unfoldable pub max_content_size : ℕ
max_content_size = 2 * 2 ^ 20

-- A gateway, by its URL.
abbrev pub Gateway : Type 0
Gateway = Bytes

pub record Response : Type 0 where
  pub status : ℕ
  pub body : Result Bytes

-- What the network and the disk give: a gateway's response to the request for a CID, the default
-- gateways, the order in which they answer, the error of the context once they have, and whether a
-- file can be written.
pub record World : Type 0 where
  pub get : Gateway → Cid → Result Response
  pub default_gateways : Result (List Gateway)
  pub answers : List Gateway → List Gateway
  pub context_error : Option Error
  pub writes : Cid → Bool

-- The client's state: its cache, if it has one, by CID, and the gateway that it has picked, if any.
pub record Client : Type 0 where
  pub cache : Option (List (Cid × Bytes))
  pub gateway : Option Gateway

-- A file of the cache.
unfoldable pub file_of : Cid → List (Cid × Bytes) → Option Bytes
file_of cid [] = none
file_of cid ((name, content) ∷ files) =
    if bytes_eq name cid then some content else file_of cid files

module _ ⦃h : Sha256⦄ where
  -- A file whose content has another CID is no copy.
  unfoldable pub valid_copy : Cid → Option Bytes → Option Bytes
  valid_copy cid none = none
  valid_copy cid (some content) = if bytes_eq (compute_cid content) cid then some content else none

  -- `cached`.
  unfoldable pub cached : Option (List (Cid × Bytes)) → Cid → Option Bytes
  cached none cid = none
  cached (some files) cid = valid_copy cid (file_of cid files)

-- `store`, which writes nothing without a cache, or where writing fails.
unfoldable pub written : Bool → Client → List (Cid × Bytes) → Cid → Bytes → Client
written false c files cid content = c
written true c files cid content = record c { cache = some ((cid, content) ∷ files) }

unfoldable pub stored : Option (List (Cid × Bytes)) → World → Client → Cid → Bytes → Client
stored none w c cid content = c
stored (some files) w c cid content = written (w.writes cid) c files cid content

unfoldable pub store : World → Client → Cid → Bytes → Client
store w c cid content = stored c.cache w c cid content

module _ ⦃h : Sha256⦄ where
  -- The content of at most `limit` bytes, of which one byte past the limit is read.
  unfoldable pub verified : ℕ → Cid → Bytes → Result Bytes
  verified limit cid body =
      let content = take (suc limit) body in
      if ltb limit (length content)
      then err (message "content exceeds the largest size")
      else if bytes_eq (compute_cid content) cid
      then ok content
      else err (message "gateway returned content with another CID")

  -- `downloadFrom`.
  unfoldable pub download_from : World → Gateway → Cid → Result Bytes
  download_from w gateway cid = do
    response ← w.get gateway cid
    fail_if (not (response.status == 200)) "HTTP status"
    body ← response.body
    verified max_content_size cid body

  -- The first gateway, in the order of the answers, that serves the content; or none.
  unfoldable pub served :
      Gateway → Result Bytes → Option (Gateway × Bytes) → Option (Gateway × Bytes)
  served g (ok content) next = some (g, content)
  served g (err e) next = next

  unfoldable pub race : World → Cid → List Gateway → Option (Gateway × Bytes)
  race w cid [] = none
  race w cid (g ∷ gs) = served g (download_from w g cid) (race w cid gs)

  abbrev pub no_gateway : World → Error
  no_gateway w = elim w.context_error [
    | some e ↦ e
    | none ↦ message "no default gateway serves the content"
  ]

  unfoldable pub picked : World → Client → Option (Gateway × Bytes) → Result Bytes × Client
  picked w c none = (err (no_gateway w), c)
  picked w c (some (g, content)) = (ok content, record c { gateway = some g })

  unfoldable pub pick : World → Client → Cid → Result (List Gateway) → Result Bytes × Client
  pick w c cid (err e) = (err e, c)
  pick w c cid (ok gateways) = picked w c (race w cid (w.answers gateways))

  -- `download`.
  unfoldable pub download : World → Client → Cid → Option Gateway → Result Bytes × Client
  download w c cid (some g) = (download_from w g cid, c)
  download w c cid none = pick w c cid w.default_gateways

  -- What was downloaded is stored; that storing fails is no error.
  unfoldable pub kept : World → Cid → Result Bytes × Client → Result Bytes × Client
  kept w cid (err e, c) = (err (wrap "fetching" e), c)
  kept w cid (ok content, c) = (ok content, store w c cid content)

  unfoldable pub fetched : World → Client → Cid → Option Bytes → Result Bytes × Client
  fetched w c cid (some content) = (ok content, c)
  fetched w c cid none = kept w cid (download w c cid c.gateway)

  -- `Fetch`.
  unfoldable pub fetch : World → Client → Cid → Result Bytes × Client
  fetch w c cid = fetched w c cid (cached c.cache cid)
