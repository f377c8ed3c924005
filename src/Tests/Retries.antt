-- ===== src/Tests/Retries.antt =====
-- internal/httpretry, on a server that is busy for two attempts.
use safenet_arbitration_bot.Base.{◌*◌, false, none, ok, if◌then◌else◌, ltb}
use safenet_arbitration_bot.Httpretry.{second, no_header, seconds, Transport, World, round_trip}
use safenet_arbitration_bot.Httpretry.Bounded.{IsRandom, IsTrip, round_trip-IsTrip}

abbrev defaults : Transport
defaults = record { retries = 0; delay = 0; max_delay = 0 }

abbrev busy_server : World
busy_server = record {
  answer = λ i.
      if ltb i 2
      then ok (record { status = 429; header = seconds 3 })
      else ok (record { status = 200; header = no_header });
  now = λ i. 0;
  random = λ i n. 0;
  done = λ i. none;
  get_body = λ i. ok tt;
}

busy_server-IsRandom : IsRandom busy_server (30 * second)
busy_server-IsRandom i n h = h

round_trip-IsTrip_example :
    IsTrip busy_server (30 * second) 4 0 (round_trip defaults busy_server false)
round_trip-IsTrip_example = round_trip-IsTrip defaults busy_server false busy_server-IsRandom
