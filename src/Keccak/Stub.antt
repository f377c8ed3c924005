-- ===== src/Keccak/Stub.antt =====
-- A hash function to evaluate the model with: the first 32 bytes of the message, filled up with
-- zeros. It gives the functions and events of the contracts different selectors and topics.
use safenet_arbitration_bot.Base.{padded, length-padded}
use safenet_arbitration_bot.Keccak.{Keccak}

abbrev pub stub : Keccak
stub = record { sum = padded 32; length-sum = length-padded 32 }
