-- ===== src/Corpus/Written.antt =====
-- The tags of a header are read back from its text.
use safenet_arbitration_bot.Base.{
  ℕ, zero, suc, ◌≤◌, ◌<◌, ◌≡◌, refl, ap, ◌∙◌, sym, inl, inr, false, none, some, List, [], ◌∷◌, ◌++◌,
  ◌==◌, ==_iff, Bytes, codes, bytes_eq, bytes_eq_iff, length, length-append, cut_prefix,
  cut_prefix-append, cut, All, All-append, Bool-cases, ok, arith,
}
use safenet_arbitration_bot.Safenet.Rules.{trim_space, trim_space-blank}
use safenet_arbitration_bot.Corpus.{
  delimiter, Tag, is_empty, has_blank, cut_tag, read_tag, line_tags, read_lines, header_lines,
  parse_header,
}

-- No byte of the text is `c`.
abbrev pub Lacks : ℕ → Bytes → Type 0
Lacks c = All (λ x. (c == x) ≡ false)

-- A text is cut at the first separator of one byte.
cut-Lacks : (c : ℕ) (xs rest : Bytes) → Lacks c xs → cut (c ∷ []) (xs ++ c ∷ rest) ≡ some (xs, rest)
unfolding cut cut_prefix
cut-Lacks c [] rest h = rw ((==_iff c c).1 refl) refl
cut-Lacks c (x ∷ xs) rest h = rw (h.0, cut-Lacks c xs rest h.1) refl

-- The line of a tag, as Markdown writes it, without the newline.
abbrev pub line_of : Tag → Bytes
line_of t = t.key ++ b':' ∷ b' ' ∷ t.value

abbrev pub written : List Tag → Bytes → Bytes
written [] rest = delimiter ++ b'\n' ∷ rest
written (t ∷ ts) rest = line_of t ++ b'\n' ∷ written ts rest

-- A key that is not empty and has no colon, blank or newline, and a value without a newline, and
-- without a space at its ends.
pub record IsTag (t : Tag) : Type 0 where
  pub key : is_empty t.key ≡ false
  pub no_blank : has_blank t.key ≡ false
  pub no_colon : Lacks b':' t.key
  pub key_line : Lacks b'\n' t.key
  pub value_line : Lacks b'\n' t.value
  pub trimmed : trim_space t.value ≡ t.value

read_tag-line_of : (t : Tag) → IsTag t → read_tag (line_of t) ≡ ok t
unfolding read_tag cut_tag
read_tag-line_of t is =
    rw (cut-Lacks b':' t.key (b' ' ∷ t.value) is.no_colon, is.key, is.no_blank)
      (ap (λ v. ok (record t { value = v })) (trim_space-blank t.value ∙ is.trimmed))

cut-delimiter : cut (codes ":") delimiter ≡ none
unfolding cut cut_prefix
cut-delimiter = refl

-- A line with a colon is no delimiter.
line_of-delimiter : (t : Tag) → IsTag t → bytes_eq (line_of t) delimiter ≡ false
line_of-delimiter t is = elim (Bool-cases (bytes_eq (line_of t) delimiter)) [
  | inr n ↦ n
  | inl e ↦
      let same : line_of t ≡ delimiter = (bytes_eq_iff (line_of t) delimiter).0 e in
      let colon = cut-Lacks b':' t.key (b' ' ∷ t.value) is.no_colon in
      cc (sym colon ∙ ap (cut (codes ":")) same ∙ cut-delimiter)
]

line_of-Lacks : (t : Tag) → IsTag t → Lacks b'\n' (line_of t)
line_of-Lacks t is =
    All-append _ t.key (b':' ∷ b' ' ∷ t.value) is.key_line (refl, (refl, is.value_line))

-- There are fewer tags than bytes.
length-written : (ts : List Tag) (rest : Bytes) → length ts ≤ length (written ts rest)
length-written [] rest = omega arith
length-written (t ∷ ts) rest =
    omega (arith, length-append (line_of t) (b'\n' ∷ written ts rest), length-written ts rest)

read_lines-delimiter :
    (f : ℕ) (rest : Bytes) → read_lines (suc f) (delimiter ++ b'\n' ∷ rest) ≡ ok []
unfolding read_lines line_tags cut cut_prefix bytes_eq
read_lines-delimiter f rest = refl

read_lines-line :
    (f : ℕ) (text : Bytes) {line after : Bytes}
    → cut (codes "\n") text ≡ some (line, after)
    → read_lines (suc f) text ≡ line_tags line (read_lines f after)
unfolding read_lines
read_lines-line f text h = rw (h, read_lines) refl

read_lines-written :
    (f : ℕ) (ts : List Tag) (rest : Bytes)
    → length ts < f
    → All IsTag ts
    → read_lines f (written ts rest) ≡ ok ts
unfolding read_lines line_tags
read_lines-written zero ts rest enough all = let bad : ⊥ = omega arith in elim bad [ ]
read_lines-written (suc f) [] rest enough all = read_lines-delimiter f rest
read_lines-written (suc f) (t ∷ ts) rest enough all =
    let line = cut-Lacks b'\n' (line_of t) (written ts rest) (line_of-Lacks t all.0) in
    let later = read_lines-written f ts rest (omega arith) all.1 in
    read_lines-line f (written (t ∷ ts) rest) line
    ∙ rw (line_of-delimiter t all.0, read_tag-line_of t all.0, later) refl

-- parseHeader reads back the tags of a header, from the text that has a line "key: value" for each
-- between two lines "---", whatever follows: for keys that are not empty and have no colon, space,
-- tab or newline, and values without a newline that have no space at their ends.
pub parse_header-written :
    (ts : List Tag) (rest : Bytes)
    → All IsTag ts
    → parse_header (delimiter ++ b'\n' ∷ written ts rest) ≡ ok ts
unfolding parse_header header_lines
parse_header-written ts rest all = rw (cut_prefix-append (codes "---\n") (written ts rest)) (
    read_lines-written (suc (length (written ts rest))) ts rest
      (omega (arith, length-written ts rest)) all)
