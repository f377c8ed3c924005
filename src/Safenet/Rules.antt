-- ===== src/Safenet/Rules.antt =====
-- rules.go: the rules that votes cite. Texts are their UTF-8 bytes.
pub mod Cited
use mathlib.Core.List.{reverse}
use safenet_arbitration_bot.Base.{
  ℕ, zero, suc, ◌≡◌, refl, Bool, true, false, not, ◌&&◌, ◌||◌, List, [], ◌∷◌, ◌++◌, map,
  if◌then◌else◌, ltb, leb, ◌==◌, Bytes, codes, bytes_eq,
}
use safenet_arbitration_bot.Safenet.Types.{Vote, vote_denied, Commitment}

-- strings.SplitSeq at the commas.
add_first : ℕ → List Bytes → List Bytes
add_first c [] = (c ∷ []) ∷ []
add_first c (part ∷ parts) = (c ∷ part) ∷ parts

unfoldable pub split_commas : Bytes → List Bytes
unfolding add_first
split_commas [] = [] ∷ []
split_commas (c ∷ cs) =
    let rest = split_commas cs in if c == b',' then [] ∷ rest else add_first c rest

-- An ASCII space, as in asciiSpace of the strings package.
ascii_space : ℕ → Bool
ascii_space c = leb 9 c && leb c 13 || c == 32

-- unicode.IsSpace of the encoding of two or three bytes.
space_2 : ℕ → ℕ → Bool
space_2 a b = a == 194 && (b == 133 || b == 160)

space_3 : ℕ → ℕ → ℕ → Bool
space_3 a b c =
    a == 225 && b == 154 && c == 128
    || a == 226 && b == 128 && (leb 128 c && leb c 138 || c == 168 || c == 169 || c == 175)
    || a == 226 && b == 129 && c == 159
    || a == 227 && b == 128 && c == 128

-- The bytes of the space that a text starts with, or that a text read backwards ends with: 0 if
-- there is none.
first_space : Bytes → ℕ
first_space (a ∷ b ∷ c ∷ cs) =
    if ascii_space a then 1 else if space_2 a b then 2 else if space_3 a b c then 3 else 0
first_space (a ∷ b ∷ []) = if ascii_space a then 1 else if space_2 a b then 2 else 0
first_space (a ∷ []) = if ascii_space a then 1 else 0
first_space [] = 0

last_space : Bytes → ℕ
last_space (a ∷ b ∷ c ∷ cs) =
    if ascii_space a then 1 else if space_2 b a then 2 else if space_3 c b a then 3 else 0
last_space (a ∷ b ∷ []) = if ascii_space a then 1 else if space_2 b a then 2 else 0
last_space (a ∷ []) = if ascii_space a then 1 else 0
last_space [] = 0

-- The text without the next `n` bytes and the spaces after them.
trim_from : (Bytes → ℕ) → ℕ → Bytes → Bytes
trim_from space n [] = []
trim_from space (suc n) (c ∷ cs) = trim_from space n cs
trim_from space zero (c ∷ cs) = elim (space (c ∷ cs)) [
  | zero ↦ c ∷ cs
  | suc w ↦ trim_from space w cs
]

-- strings.TrimSpace.
unfoldable pub trim_space : Bytes → Bytes
unfolding trim_from ascii_space space_2 space_3 first_space last_space
trim_space text = reverse (trim_from last_space 0 (reverse (trim_from first_space 0 text)))

-- A space before the text is trimmed.
pub trim_space-blank : (text : Bytes) → trim_space (b' ' ∷ text) ≡ trim_space text
unfolding trim_space
trim_space-blank [] = refl
trim_space-blank (a ∷ []) = refl
trim_space-blank (a ∷ b ∷ cs) = refl

is_digit : ℕ → Bool
is_digit c = leb b'0' c && leb c b'9'

-- The rest of a rule identifier: digits, or a point between digits. The test is whether the last
-- byte was a digit.
numbers : Bool → Bytes → Bool
unfolding is_digit
numbers after_digit [] = after_digit
numbers after_digit (c ∷ cs) = (is_digit c || c == b'.' && after_digit) && numbers (is_digit c) cs

-- `rulePattern`: ^R-[0-9]+(?:\.[0-9]+)*$
unfoldable pub is_rule : Bytes → Bool
unfolding numbers
is_rule (r ∷ dash ∷ cs) = r == b'R' && dash == b'-' && numbers false cs
is_rule _ = false

-- slices.Contains.
unfoldable pub contains_rule : List Bytes → Bytes → Bool
contains_rule [] rule = false
contains_rule (r ∷ rules) rule = bytes_eq r rule || contains_rule rules rule

-- The append of a rule that is not in the list.
unfoldable pub add_rule : List Bytes → Bytes → List Bytes
add_rule rules rule = if contains_rule rules rule then rules else rules ++ rule ∷ []

-- The loop of `CitedRules` over the parts.
unfoldable pub cite_parts : List Bytes → List Bytes → List Bytes
cite_parts rules [] = rules
cite_parts rules (part ∷ parts) =
    let rule = trim_space part in
    cite_parts (if is_rule rule then add_rule rules rule else rules) parts

unfoldable pub cited_rules : Bytes → List Bytes
cited_rules reason = cite_parts [] (split_commas reason)

pub add_rules : List Bytes → List Bytes → List Bytes
add_rules rules [] = rules
add_rules rules (rule ∷ others) = add_rules (add_rule rules rule) others

abbrev pub is_denied : Vote → Bool
is_denied vote_denied = true
is_denied _ = false

-- The loop of `DisputedRules` over the votes.
pub dispute_votes : List Bytes → List Commitment → List Bytes
dispute_votes rules [] = rules
dispute_votes rules (v ∷ votes) =
    dispute_votes (if is_denied v.vote then add_rules rules (cited_rules v.reason) else rules) votes

pub disputed_rules : List Commitment → List Bytes
disputed_rules = dispute_votes []
