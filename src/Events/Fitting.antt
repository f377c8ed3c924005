-- ===== src/Events/Fitting.antt =====
-- A log is decoded as an event only if it has the event's topic and layout.
use safenet_arbitration_bot.Base.{
  ℕ, ◌+◌, ◌*◌, ◌≡◌, refl, ◌⊎◌, inl, inr, true, Option, none, some, List, [], ◌∷◌, Any, Bool-cases,
  Option-cases, bytes_eq, bytes_eq_iff, length, drop, ==_iff, ◌==◌, if◌then◌else◌, subst,
}
use mathlib.Core.Option.{some-injective}
use safenet_arbitration_bot.Keccak.{Keccak}
use safenet_arbitration_bot.Solabi.Encode.{event_of}
use safenet_arbitration_bot.Ethrpc.Types.{Hash, Log}
use safenet_arbitration_bot.Events.{
  Param, Definition, ArgValue, Arg, Event, all_definitions, indexed_count, held_count, is_dynamic,
  cons_arg, read_args, exact, decode_as, named, decode_in, decode_topics, decode,
}

-- An argument for each parameter, with its name and type.
abbrev pub Label : Param → Arg → Type 0
Label p a = (a.name ≡ p.name) × (a.type ≡ p.type)

abbrev pub Labelled : List Param → List Arg → Type 0
Labelled [] [] = Unit
Labelled (p ∷ ps) (a ∷ args) = Label p a × Labelled ps args
Labelled _ _ = ⊥

abbrev LabelledIfSome : List Param → Option (List Arg) → Type 0
LabelledIfSome ps none = Unit
LabelledIfSome ps (some args) = Labelled ps args

cons_arg-Labelled :
    (p : Param) (ps : List Param) (v : Option ArgValue) (o : Option (List Arg))
    → LabelledIfSome ps o
    → LabelledIfSome (p ∷ ps) (cons_arg p v o)
cons_arg-Labelled p ps (some v) (some args) h = ((refl, refl), h)
cons_arg-Labelled p ps (some v) none h = tt
cons_arg-Labelled p ps none o h = tt

read_args-Labelled :
    (d : List ℕ) (topics : List Hash) (word : ℕ) (ps : List Param)
    → LabelledIfSome ps (read_args d topics word ps)
unfolding read_args
read_args-Labelled d topics word [] = tt
read_args-Labelled d topics word (p ∷ ps) = cons_arg-Labelled p ps _ _ (
    read_args-Labelled d (if p.indexed then drop 1 topics else topics)
      (if p.indexed then word else word + 1) ps)

-- The layout of a definition: a topic for each indexed parameter, after the event's own; a word of
-- data for each other one, and nothing else unless one is dynamic; and an argument for each.
pub record HasLayout (def : Definition) (log : Log) (args : List Arg) : Type 0 where
  pub topics : length log.topics ≡ indexed_count def.params + 1
  pub words : (is_dynamic def.params ≡ true) ⊎ (length log.payload ≡ 32 * held_count def.params)
  pub labelled : Labelled def.params args
  pub read : read_args log.payload (drop 1 log.topics) 0 def.params ≡ some args

exact-HasLayout :
    (def : Definition) (log : Log) (o : Option (List Arg)) {args : List Arg}
    → exact def log o ≡ some args
    → (o ≡ some args)
      × ((is_dynamic def.params ≡ true) ⊎ (length log.payload ≡ 32 * held_count def.params))
unfolding exact
exact-HasLayout def log none h = cc
exact-HasLayout def log (some read) h = elim (Bool-cases (is_dynamic def.params)) [
  | inl t ↦ (rw (t, exact) at h, inl t)
  | inr n ↦ elim (Bool-cases (length log.payload == 32 * held_count def.params)) [
    | inl e ↦ (rw (n, e, exact) at h, inr ((==_iff _ _).0 e))
    | inr f ↦ cc (rw (n, f, exact) at h)
  ]
]

decode_as-HasLayout :
    (def : Definition) (log : Log) {args : List Arg}
    → decode_as def log ≡ some args
    → HasLayout def log args
unfolding decode_as
decode_as-HasLayout def log h =
    elim (Bool-cases (length log.topics == indexed_count def.params + 1)) [
      | inl t ↦
          let (read, words) = exact-HasLayout def log _ (rw (t, decode_as) at h) in
          record {
            topics = (==_iff _ _).0 t;
            words = words;
            labelled =
                subst (LabelledIfSome def.params) read
                  (read_args-Labelled log.payload (drop 1 log.topics) 0 def.params);
            read = read;
          }
      | inr n ↦ cc (rw (n, decode_as) at h)
    ]

module _ ⦃k : Keccak⦄ where
  -- The event is that of a definition with the topic, whose layout the log has.
  abbrev pub IsOf : Hash → Log → Event → Definition → Type 0
  IsOf topic log e def =
      (event_of def.signature ≡ topic)
      × (e.name ≡ def.name)
      × (e.signature ≡ def.signature)
      × HasLayout def log e.args

  decode_in-IsOf :
      (topic : Hash) (log : Log) (defs : List Definition) {e : Event}
      → decode_in topic log defs ≡ some e
      → Any (IsOf topic log e) defs
  unfolding decode_in
  decode_in-IsOf topic log [] h = cc
  decode_in-IsOf topic log (def ∷ defs) {e} h =
      elim (Bool-cases (bytes_eq (event_of def.signature) topic)) [
        | inr n ↦ inr (decode_in-IsOf topic log defs (rw (n, decode_in) at h))
        | inl t ↦ elim (Option-cases (decode_as def log)) [
          | inl unfit ↦ inr (decode_in-IsOf topic log defs (rw (t, unfit, decode_in) at h))
          | inr (args, s) ↦
              let e' : named def args ≡ e = some-injective _ e (rw (t, s, decode_in) at h) in
              inl (
                subst (λ x. IsOf topic log x def) e'
                  (
                    (bytes_eq_iff (event_of def.signature) topic).0 t,
                    refl,
                    refl,
                    decode_as-HasLayout def log s,
                  ))
        ]
      ]

  -- A log that is decoded as an event has the topic and the layout of one of the well-known events
  -- with the event's name and signature: a topic for each indexed parameter, a word of data for each
  -- other one and nothing else unless one is dynamic, and the arguments that are read are named and
  -- typed as its parameters.
  pub decode-IsOf :
      (log : Log) (topic : Hash) (topics : List Hash) {e : Event}
      → log.topics ≡ topic ∷ topics
      → decode log ≡ some e
      → Any (IsOf topic log e) all_definitions
  unfolding decode decode_topics
  decode-IsOf log topic topics is h =
      decode_in-IsOf topic log all_definitions (rw (is, decode_topics) at h)
