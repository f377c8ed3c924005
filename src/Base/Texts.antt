-- ===== src/Base/Texts.antt =====
-- Texts as their bytes: `strings.CutPrefix` and `strings.Cut`.
use Prim.Native.Nat.{ℕ}
use mathlib.Core.Path.{◌≡◌, refl}
use mathlib.Core.Option.{Option, none, some}
use mathlib.Core.List.{[], ◌∷◌, ◌++◌}
use safenet_arbitration_bot.Base.Tests.{◌==◌, if◌then◌else◌, ==_iff}
use safenet_arbitration_bot.Base.Octets.{Bytes}

-- CutPrefix: the rest of a text with the prefix, and `none` for one without it.
unfoldable pub cut_prefix : Bytes → Bytes → Option Bytes
cut_prefix [] text = some text
cut_prefix (x ∷ xs) [] = none
cut_prefix (x ∷ xs) (y ∷ ys) = if x == y then cut_prefix xs ys else none

pub cut_prefix-append : (prefix text : Bytes) → cut_prefix prefix (prefix ++ text) ≡ some text
unfolding cut_prefix
cut_prefix-append [] text = refl
cut_prefix-append (x ∷ xs) text = rw ((==_iff x x).1 refl) (cut_prefix-append xs text)

abbrev before : Bytes → Option (Bytes × Bytes) → Option (Bytes × Bytes)
before xs none = none
before xs (some (a, b)) = some (xs ++ a, b)

-- What `Cut` finds at a place: the rest after a separator there, or a cut later in the text.
cut_here : ℕ → Option Bytes → Option (Bytes × Bytes) → Option (Bytes × Bytes)
cut_here c (some rest) later = some ([], rest)
cut_here c none later = before (c ∷ []) later

-- Cut: the text before and after the first separator, and `none` without one.
unfoldable pub cut : Bytes → Bytes → Option (Bytes × Bytes)
unfolding cut_here
cut separator [] = elim (cut_prefix separator []) [ none ↦ none | some rest ↦ some ([], rest) ]
cut separator (c ∷ cs) = cut_here c (cut_prefix separator (c ∷ cs)) (cut separator cs)
