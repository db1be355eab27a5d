-- ===== src/Packet/Udp/Tests.antt =====
-- A DNS sized header, there and back.
use skan.Base.{◌≡◌, ◌≢◌, refl, none, some, [], ◌∷◌, arith, replicate}
use skan.Core.{ok}
use skan.Packet.Udp.{Udp, validate, serialize, parse}
use skan.Packet.Udp.RoundTrip.{udp-parse-serialize, parse_in_bounds}

abbrev query : Udp
query = record {
  source_port = 40000;
  destination_port = 53;
  checksum = 0xbeef;
  payload = 1 ∷ 2 ∷ 3 ∷ [];
}

udp-parse-serialize_example :
    let (status, bytes) = serialize query (replicate 11 0) in
    (status ≡ ok) × (parse bytes ≡ some (some query))
unfolding validate
udp-parse-serialize_example = udp-parse-serialize query (omega arith) refl

short_in_bounds : parse (1 ∷ 2 ∷ 3 ∷ []) ≢ none
short_in_bounds = parse_in_bounds (1 ∷ 2 ∷ 3 ∷ [])

parse_short : parse (0 ∷ 53 ∷ 0 ∷ 53 ∷ 0 ∷ 9 ∷ 0 ∷ 0 ∷ []) ≡ some none
unfolding parse
parse_short = refl
