-- ===== src/Corpus/Bounded.antt =====
-- The bound on the lines of a header is enough for every text.
use mathlib.Core.Option.{some-injective}
use safenet_arbitration_bot.Base.{
  ℕ, zero, suc, ◌<◌, ◌≡◌, ap, ◌∙◌, inl, inr, ◌||◌, Option, none, some, List, [], ◌∷◌, ◌==◌, Bytes,
  codes, bytes_eq, length, cut, cut_prefix, Bool-cases, Option-cases, Result-cases, fuel, Result,
  err, arith, subst,
}
use safenet_arbitration_bot.Corpus.{
  delimiter, Tag, is_empty, has_blank, cut_tag, read_tag, line_tags, read_lines, header_lines,
  parse_header,
}

cut-shorter :
    (c : ℕ) (xs : Bytes) {found : Bytes × Bytes}
    → cut (c ∷ []) xs ≡ some found
    → length found.1 < length xs
unfolding cut cut_prefix
cut-shorter c [] h = cc
cut-shorter c (x ∷ xs) {found} h = elim (Bool-cases (c == x)) [
  | inl t ↦
      let e : ([], xs) ≡ found = some-injective _ found (rw (t, cut, cut_prefix) at h) in
      subst (λ p. length p.1 < length (x ∷ xs)) e (omega arith)
  | inr n ↦ elim (Option-cases (cut (c ∷ []) xs)) [
    | inl missing ↦ cc (rw (n, missing, cut, cut_prefix) at h)
    | inr ((a, b), later) ↦
        let e : (x ∷ a, b) ≡ found = some-injective _ found (rw (n, later, cut, cut_prefix) at h) in
        subst (λ p. length p.1 < length (x ∷ xs)) e (omega (arith, cut-shorter c xs later))
  ]
]

abbrev NoFuel : {A : Type 0} → Result A → Type 0
NoFuel r = ¬ (r ≡ err fuel)

cut_tag-NoFuel : (o : Option (Bytes × Bytes)) → NoFuel (cut_tag o)
unfolding cut_tag
cut_tag-NoFuel none h = cc
cut_tag-NoFuel (some (key, value)) h = elim (Bool-cases (is_empty key || has_blank key)) [
  | inl t ↦ cc (rw (t, cut_tag) at h)
  | inr n ↦ cc (rw (n, cut_tag) at h)
]

line_tags-NoFuel :
    (line : Bytes) (rest : Result (List Tag)) → NoFuel rest → NoFuel (line_tags line rest)
unfolding line_tags read_tag
line_tags-NoFuel line rest more h = elim (Bool-cases (bytes_eq line delimiter)) [
  | inl t ↦ cc (rw (t, line_tags) at h)
  | inr n ↦ elim (Result-cases (read_tag line)) [
    | inr (e, failed) ↦
        let same : e ≡ fuel = cc (rw (n, failed, line_tags) at h) in
        cut_tag-NoFuel (cut (codes ":") line) (failed ∙ ap err same)
    | inl (tag, read) ↦ elim (Result-cases rest) [
      | inr (e, failed) ↦ more (failed ∙ rw (n, read, failed, line_tags) at h)
      | inl (tags, done) ↦ cc (rw (n, read, done, line_tags) at h)
    ]
  ]
]

read_lines-NoFuel : (f : ℕ) (text : Bytes) → length text < f → NoFuel (read_lines f text)
unfolding read_lines
read_lines-NoFuel zero text enough h = let bad : ⊥ = omega arith in elim bad [ ]
read_lines-NoFuel (suc f) text enough h = elim (Option-cases (cut (codes "\n") text)) [
  | inl missing ↦ cc (rw (missing, read_lines) at h)
  | inr (found, first) ↦
      let shorter : length found.1 < length text = cut-shorter b'\n' text first in
      line_tags-NoFuel found.0 (read_lines f found.1) (read_lines-NoFuel f found.1 (omega arith))
        (rw (first, read_lines) at h)
]

header_lines-NoFuel : (o : Option Bytes) → NoFuel (header_lines o)
unfolding header_lines
header_lines-NoFuel none h = cc
header_lines-NoFuel (some rest) h = read_lines-NoFuel (suc (length rest)) rest (omega arith) h

-- parseHeader ends on every text, well within the bound on its lines.
parse_header-NoFuel : (text : Bytes) → NoFuel (parse_header text)
unfolding parse_header
parse_header-NoFuel text = header_lines-NoFuel (cut_prefix (codes "---\n") text)
