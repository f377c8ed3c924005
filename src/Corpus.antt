-- ===== src/Corpus.antt =====
-- internal/corpus: the tags of a corpus file. Texts are their bytes.
pub mod Written
pub mod Bounded
use safenet_arbitration_bot.Base.{
  ℕ, zero, suc, Bool, true, false, not, ◌&&◌, ◌||◌, Option, none, some, List, [], ◌∷◌, ◌++◌, ◌==◌,
  Bytes, codes, bytes_eq, length, cut_prefix, cut, message, fuel, wrapped, Result, ok, err, ◌>>=◌,
  if◌then◌else◌,
}
use safenet_arbitration_bot.Safenet.Rules.{trim_space}
use safenet_arbitration_bot.Ipfs.Cid.{Cid, parse_cid, parse_cid_from_url}

-- `DocumentStart`.
abbrev pub document_start : Bytes
document_start = codes "<!-- DOCUMENT START -->\n---\n\n"

abbrev pub delimiter : Bytes
delimiter = codes "---"

pub record Tag : Type 0 where
  pub key : Bytes
  pub value : Bytes

abbrev pub is_empty : Bytes → Bool
is_empty [] = true
is_empty (c ∷ cs) = false

-- `strings.ContainsAny(key, " \t")`
unfoldable pub has_blank : Bytes → Bool
has_blank [] = false
has_blank (c ∷ cs) = c == b' ' || c == b'\t' || has_blank cs

-- A line of a header, cut at its colon.
unfoldable pub cut_tag : Option (Bytes × Bytes) → Result Tag
cut_tag none = err (message "line is not key: value")
cut_tag (some (key, value)) =
    if is_empty key || has_blank key
    then err (message "line is not key: value")
    else ok (record { key = key; value = trim_space value })

unfoldable pub read_tag : Bytes → Result Tag
unfolding cut_tag
read_tag line = cut_tag (cut (codes ":") line)

abbrev cons_tag : Result Tag → Result (List Tag) → Result (List Tag)
cons_tag tag rest = do t ← tag; ts ← rest; ok (t ∷ ts)

-- The first line and the lines after it, whose tags are given.
unfoldable pub line_tags : Bytes → Result (List Tag) → Result (List Tag)
line_tags line rest = if bytes_eq line delimiter then ok [] else cons_tag (read_tag line) rest

-- The loop over the lines, each of which has a byte at least.
unfoldable pub read_lines : ℕ → Bytes → Result (List Tag)
read_lines zero text = err fuel
read_lines (suc f) text = elim (cut (codes "\n") text) [
  | none ↦ err (message "no --- line ends it")
  | some c ↦ line_tags c.0 (read_lines f c.1)
]

unfoldable pub header_lines : Option Bytes → Result (List Tag)
header_lines none = err (message "doesn't start with a --- line")
header_lines (some rest) = read_lines (suc (length rest)) rest

-- `parseHeader`.
unfoldable pub parse_header : Bytes → Result (List Tag)
unfolding header_lines
parse_header text = header_lines (cut_prefix (codes "---\n") text)

-- The tags of a document, of which a malformed header has none.
unfoldable pub document_tags : Option Bytes → Result (List Tag) → List Tag
document_tags none read = []
document_tags (some rest) (err e) = []
document_tags (some rest) (ok tags) = tags

unfoldable pub with_document : List Tag → Option (Bytes × Bytes) → Result (List Tag × List Tag)
with_document header none = err (message "no DOCUMENT START line")
with_document header (some (before, document)) =
    ok (header, document_tags (cut_prefix (codes "---\n") document) (parse_header document))

-- `Tags`.
unfoldable pub tags : Bytes → Result (List Tag × List Tag)
tags content = do
  header ← wrapped "header" (parse_header content)
  with_document header (cut (codes "\n" ++ document_start) content)

-- `ContextCID`.
unfoldable pub or_parsed : Result Cid → Result Cid → Option Cid
or_parsed (ok cid) other = some cid
or_parsed (err e) (ok cid) = some cid
or_parsed (err e) (err e') = none

unfoldable pub context_cid : Bytes → Option Cid
unfolding or_parsed
context_cid context = or_parsed (parse_cid_from_url context) (parse_cid context)
