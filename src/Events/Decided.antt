-- ===== src/Events/Decided.antt =====
-- A log is decoded as an event exactly if it has the topic and the layout of a well-known one.
use safenet_arbitration_bot.Base.{◌≡◌, Option, none, some, List, All, Any}
use safenet_arbitration_bot.Keccak.{Keccak}
use safenet_arbitration_bot.Solabi.Encode.{event_of}
use safenet_arbitration_bot.Ethrpc.Types.{Hash, Log}
use safenet_arbitration_bot.Events.{Definition, Arg, Event, all_definitions}
use safenet_arbitration_bot.Events.Fitting.{HasLayout, IsOf}

module _ ⦃k : Keccak⦄ where
  -- A definition with the topic whose layout the log has.
  abbrev pub Fits : Hash → Log → Definition → Type 0
  Fits topic log def = (event_of def.signature ≡ topic) × (args : List Arg) × HasLayout def log args

  abbrev pub Decided : Hash → Log → Option Event → Type 0
  Decided topic log none = All (λ def. ¬ Fits topic log def) all_definitions
  Decided topic log (some e) = Any (IsOf topic log e) all_definitions
