-- ===== src/Executions/Frames.antt =====
-- decode.go: `callsTo`, and the calls of a trace whose effects stand.
use safenet_arbitration_bot.Base.{
  ◌≡◌, ◌↔◌, ◌⊎◌, inl, inr, Bool, true, false, ◌&&◌, Option, none, some, List, [], ◌∷◌, ◌++◌, Any,
  if◌then◌else◌, Bytes, codes, bytes_eq, bytes_eq_iff, arith, refl, Bool-cases,
}
use safenet_arbitration_bot.Ethrpc.Types.{Address}
use safenet_arbitration_bot.Executions.Types.{CallFrame, frame, Frames, nil, cons}

abbrev pub empty_text : Bytes → Bool
empty_text [] = true
empty_text (c ∷ cs) = false

-- `f.To != nil && *f.To == safe`
unfoldable pub is_to : Option Address → Address → Bool
is_to none safe = false
is_to (some a) safe = bytes_eq a safe

-- `f.Type == "CALL" && f.To != nil && *f.To == safe`
unfoldable pub calls_safe : Bytes → Option Address → Address → Bool
unfolding is_to
calls_safe type to safe = bytes_eq type (codes "CALL") && is_to to safe

unfoldable mutual
  -- `callsTo`, which appends to the inputs.
  pub calls_to : Address → CallFrame → List Bytes → List Bytes
  calls_to safe (frame type to input error calls) inputs = elim (empty_text error) [
    | false ↦ inputs
    | true ↦
        calls_to_all safe calls (if calls_safe type to safe then inputs ++ input ∷ [] else inputs)
  ]

  -- The loop over the frame's calls.
  pub calls_to_all : Address → Frames → List Bytes → List Bytes
  calls_to_all safe nil inputs = inputs
  calls_to_all safe (cons f fs) inputs = calls_to_all safe fs (calls_to safe f inputs)

-- The calls to the Safe in a trace, read off its tree: `Makes safe f input` is a way to reach a CALL
-- to the Safe with the input from the root of `f` through frames that did not revert.
mutual
  pub data Makes (safe : Address) (input : Bytes) : CallFrame → Type 0 where
    own :
        {type : Bytes} {to : Option Address} {x error : Bytes} {calls : Frames}
        → error ≡ []
        → type ≡ codes "CALL"
        → to ≡ some safe
        → x ≡ input
        → Makes safe input (frame type to x error calls)
    inner :
        {type : Bytes} {to : Option Address} {x error : Bytes} {calls : Frames}
        → error ≡ []
        → MakesAny safe input calls
        → Makes safe input (frame type to x error calls)

  pub data MakesAny (safe : Address) (input : Bytes) : Frames → Type 0 where
    first : {f : CallFrame} {fs : Frames} → Makes safe input f → MakesAny safe input (cons f fs)
    later : {f : CallFrame} {fs : Frames} → MakesAny safe input fs → MakesAny safe input (cons f fs)

calls_safe_iff :
    (type : Bytes) (to : Option Address) (safe : Address)
    → (calls_safe type to safe ≡ true) ↔ ((type ≡ codes "CALL") × (to ≡ some safe))
unfolding calls_safe
calls_safe_iff type none safe = ground arith
calls_safe_iff type (some a) safe =
    ground (arith, bytes_eq_iff type (codes "CALL"), bytes_eq_iff a safe)

abbrev Among : Bytes → List Bytes → Type 0
Among input = Any (λ x. x ≡ input)

Among-concat_last : (input : Bytes) (xs : List Bytes) → Among input (xs ++ input ∷ [])
Among-concat_last input [] = inl refl
Among-concat_last input (x ∷ xs) = inr (Among-concat_last input xs)

Among-concat : (input y : Bytes) (xs : List Bytes) → Among input xs → Among input (xs ++ y ∷ [])
Among-concat input y [] m = elim m [ ]
Among-concat input y (x ∷ xs) (inl e) = inl e
Among-concat input y (x ∷ xs) (inr m) = inr (Among-concat input y xs m)

Among-concat_inv :
    (input y : Bytes) (xs : List Bytes) → Among input (xs ++ y ∷ []) → Among input xs ⊎ (y ≡ input)
Among-concat_inv input y [] (inl e) = inr e
Among-concat_inv input y [] (inr m) = elim m [ ]
Among-concat_inv input y (x ∷ xs) (inl e) = inl (inl e)
Among-concat_inv input y (x ∷ xs) (inr m) = elim (Among-concat_inv input y xs m) [
  | inl n ↦ inl (inr n)
  | inr e ↦ inr e
]

-- The inputs after the frame's own call.
abbrev with_own : Bool → Bytes → List Bytes → List Bytes
with_own b x inputs = if b then inputs ++ x ∷ [] else inputs

Among-with_own :
    (input x : Bytes) (b : Bool) (inputs : List Bytes)
    → Among input inputs
    → Among input (with_own b x inputs)
Among-with_own input x true inputs m = Among-concat input x inputs m
Among-with_own input x false inputs m = m

mutual
  unfolding calls_to

  calls_to_keeps :
      (safe : Address) (input : Bytes) (f : CallFrame) (inputs : List Bytes)
      → Among input inputs
      → Among input (calls_to safe f inputs)
  calls_to_keeps safe input (frame type to x [] calls) inputs m =
      calls_to_all_keeps safe input calls (with_own (calls_safe type to safe) x inputs)
        (Among-with_own input x (calls_safe type to safe) inputs m)
  calls_to_keeps safe input (frame type to x (c ∷ error) calls) inputs m = m

  calls_to_all_keeps :
      (safe : Address) (input : Bytes) (fs : Frames) (inputs : List Bytes)
      → Among input inputs
      → Among input (calls_to_all safe fs inputs)
  calls_to_all_keeps safe input nil inputs m = m
  calls_to_all_keeps safe input (cons f fs) inputs m =
      calls_to_all_keeps safe input fs (calls_to safe f inputs)
        (calls_to_keeps safe input f inputs m)

mutual
  unfolding calls_to

  calls_to_finds :
      (safe : Address) (input : Bytes) (f : CallFrame) (inputs : List Bytes)
      → Makes safe input f
      → Among input (calls_to safe f inputs)
  calls_to_finds safe input (frame type to x (c ∷ error) calls) inputs (own e _ _ _) = cc
  calls_to_finds safe input (frame type to x (c ∷ error) calls) inputs (inner e _) = cc
  calls_to_finds safe input (frame type to x [] calls) inputs (own _ t o e) =
      let b : calls_safe type to safe ≡ true = (calls_safe_iff type to safe).1 (t, o) in
      rw (b, e)
        (calls_to_all_keeps safe input calls (inputs ++ input ∷ [])
          (Among-concat_last input inputs))
  calls_to_finds safe input (frame type to x [] calls) inputs (inner _ m) =
      calls_to_all_finds safe input calls (with_own (calls_safe type to safe) x inputs) m

  calls_to_all_finds :
      (safe : Address) (input : Bytes) (fs : Frames) (inputs : List Bytes)
      → MakesAny safe input fs
      → Among input (calls_to_all safe fs inputs)
  calls_to_all_finds safe input nil inputs m = elim m [ ]
  calls_to_all_finds safe input (cons f fs) inputs (first m) =
      calls_to_all_keeps safe input fs (calls_to safe f inputs)
        (calls_to_finds safe input f inputs m)
  calls_to_all_finds safe input (cons f fs) inputs (later m) =
      calls_to_all_finds safe input fs (calls_to safe f inputs) m

with_own-made :
    (safe : Address) (input type : Bytes) (to : Option Address) (x : Bytes) (calls : Frames)
    (inputs : List Bytes)
    → Among input (with_own (calls_safe type to safe) x inputs)
    → Among input inputs ⊎ Makes safe input (frame type to x [] calls)
with_own-made safe input type to x calls inputs m = elim (Bool-cases (calls_safe type to safe)) [
  | inl b ↦
      let (t, o) = (calls_safe_iff type to safe).0 b in
      elim (Among-concat_inv input x inputs (rw b at m)) [
        | inl n ↦ inl n
        | inr e ↦ inr (own refl t o e)
      ]
  | inr b ↦ inl (rw b at m)
]

mutual
  unfolding calls_to

  calls_to_made :
      (safe : Address) (input : Bytes) (f : CallFrame) (inputs : List Bytes)
      → Among input (calls_to safe f inputs)
      → Among input inputs ⊎ Makes safe input f
  calls_to_made safe input (frame type to x (c ∷ error) calls) inputs m = inl m
  calls_to_made safe input (frame type to x [] calls) inputs m =
      let before = with_own (calls_safe type to safe) x inputs in
      elim (calls_to_all_made safe input calls before m) [
        | inl n ↦ with_own-made safe input type to x calls inputs n
        | inr made ↦ inr (inner refl made)
      ]

  calls_to_all_made :
      (safe : Address) (input : Bytes) (fs : Frames) (inputs : List Bytes)
      → Among input (calls_to_all safe fs inputs)
      → Among input inputs ⊎ MakesAny safe input fs
  calls_to_all_made safe input nil inputs m = inl m
  calls_to_all_made safe input (cons f fs) inputs m =
      elim (calls_to_all_made safe input fs (calls_to safe f inputs) m) [
        | inl n ↦ elim (calls_to_made safe input f inputs n) [
          | inl o ↦ inl o
          | inr made ↦ inr (first made)
        ]
        | inr made ↦ inr (later made)
      ]

-- callsTo returns exactly the inputs of the CALLs to the Safe that the trace reaches through frames
-- that did not revert.
pub calls_to_iff :
    (safe : Address) (input : Bytes) (f : CallFrame)
    → Any (λ x. x ≡ input) (calls_to safe f []) ↔ Makes safe input f
calls_to_iff safe input f = (
  λ m. elim (calls_to_made safe input f [] m) [ inl n ↦ elim n [ ] | inr made ↦ made ],
  λ made. calls_to_finds safe input f [] made,
)
