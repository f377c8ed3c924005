-- ===== src/Ens.antt =====
-- ens.go: the resolution of a name to the URL of its content.
pub mod Content
pub mod Resolved
use safenet_arbitration_bot.Base.{
  ℕ, ◌+◌, ◌-◌, Bool, true, false, not, ◌||◌, Option, none, some, List, [], ◌∷◌, ◌++◌, if◌then◌else◌,
  ltb, ◌==◌, Bytes, codes, bytes_eq, from_be, is_zero, length, take, drop, replicate, cut_prefix,
  Result, ok, err, message, fail_if, wrapped, ◌>>=◌, ◌>>◌,
}
use safenet_arbitration_bot.Keccak.{Keccak, hash}
use safenet_arbitration_bot.Solabi.Encode.{word, nil, cons, selector, calldata}
use safenet_arbitration_bot.Ethrpc.Types.{Address, Hash, CallRequest, Client}
use safenet_arbitration_bot.Ethrpc.Hex.{address_of}
use safenet_arbitration_bot.Ipfs.Base32.{encode}

-- `Registry`.
abbrev pub registry : Address
registry = address_of "0x00000000000C2E074eC69A0dFb2997BA6C7d2e1e"

-- `strings.Split(name, ".")`.
abbrev cons_first : ℕ → List Bytes → List Bytes
cons_first c [] = (c ∷ []) ∷ []
cons_first c (label ∷ labels) = (c ∷ label) ∷ labels

unfoldable pub split_dots : Bytes → List Bytes
split_dots [] = [] ∷ []
split_dots (c ∷ cs) = let rest = split_dots cs in if c == b'.' then [] ∷ rest else cons_first c rest

abbrev pub is_empty : Bytes → Bool
is_empty [] = true
is_empty (c ∷ cs) = false

-- `slices.Contains(labels, "")`.
unfoldable pub has_empty : List Bytes → Bool
has_empty [] = false
has_empty (label ∷ labels) = is_empty label || has_empty labels

-- `decodeAddress`.
unfoldable pub decode_address : Bytes → Result Address
decode_address result =
    if not (length result == 32) || not (is_zero (take 12 result))
    then err (message "invalid address return value")
    else ok (drop 12 result)

-- `decodeLength`.
unfoldable pub decode_length : Bytes → ℕ → Option ℕ
decode_length d offset =
    if ltb (length d) offset || ltb (length d - offset) 32
    then none
    else if not (is_zero (take 24 (take 32 (drop offset d))))
    then none
    else some (from_be (drop 24 (take 32 (drop offset d))))

-- The end of `decodeBytes`, once the length is read. It leaves 32 bytes for the length's word.
unfoldable pub cut_bytes : Bytes → ℕ → Option ℕ → Result Bytes
cut_bytes d offset none = err (message "invalid bytes return value: bad length")
cut_bytes d offset (some n) =
    if ltb (length d - offset - 32) n
    then err (message "invalid bytes return value: bad length")
    else ok (take n (drop (offset + 32) d))

unfoldable pub bytes_at : Bytes → Option ℕ → Result Bytes
bytes_at d none = err (message "invalid bytes return value: bad offset")
bytes_at d (some offset) =
    if ltb (length d) offset
    then err (message "invalid bytes return value: bad offset")
    else cut_bytes d offset (decode_length d offset)

-- `decodeBytes`.
unfoldable pub decode_bytes : Bytes → Result Bytes
decode_bytes d = bytes_at d (decode_length d 0)

abbrev pub ipfs_namespace : Bytes
ipfs_namespace = 227 ∷ 1 ∷ []

abbrev pub url_scheme : Bytes
url_scheme = codes "ipfs://"

-- `decodeContentHash`, of the bytes after the namespace.
unfoldable pub cid_url : Option Bytes → Result Bytes
cid_url none = err (message "unsupported content hash: not an IPFS content hash")
cid_url (some []) = err (message "unsupported content hash: not a CIDv1")
cid_url (some (version ∷ rest)) =
    if version == 1
    then ok (url_scheme ++ (codes "b" ++ encode (version ∷ rest)))
    else err (message "unsupported content hash: not a CIDv1")

unfoldable pub decode_content_hash : Bytes → Result Bytes
decode_content_hash contenthash = cid_url (cut_prefix ipfs_namespace contenthash)

module _ ⦃k : Keccak⦄ where
  abbrev pub resolver_selector : Bytes
  resolver_selector = selector "resolver(bytes32)"

  abbrev pub contenthash_selector : Bytes
  contenthash_selector = selector "contenthash(bytes32)"

  -- The node of a name's labels, from the last label on.
  unfoldable pub node_of : List Bytes → Hash
  node_of [] = replicate 32 0
  node_of (label ∷ labels) = hash (node_of labels ∷ hash (label ∷ []) ∷ [])

  -- `Namehash`.
  unfoldable pub namehash : Bytes → Hash
  namehash [] = replicate 32 0
  namehash (c ∷ cs) = node_of (split_dots (c ∷ cs))

  -- A call of a function of the node: its selector, and the node.
  unfoldable pub call_node : Client → Address → Bytes → Hash → ℕ → Result Bytes
  call_node client to sel node block = do
    input ← calldata sel (cons (word node) nil)
    client.call (record { to = to; input = input }) block

  -- `Resolve`.
  unfoldable pub resolve : Client → Bytes → ℕ → Result Bytes
  resolve client name block = do
    fail_if (is_empty name || has_empty (split_dots name)) "invalid ENS name"
    let node = namehash name
    answer ←
        wrapped "resolving name: getting resolver"
          (call_node client registry resolver_selector node block)
    resolver ← wrapped "resolving name: getting resolver" (decode_address answer)
    fail_if (is_zero resolver) "resolving name: name has no resolver"
    content ←
        wrapped "resolving name: getting content hash"
          (call_node client resolver contenthash_selector node block)
    contenthash ← wrapped "resolving name: getting content hash" (decode_bytes content)
    fail_if (length contenthash == 0) "resolving name: name has no content hash record"
    wrapped "resolving name" (decode_content_hash contenthash)
