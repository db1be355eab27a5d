-- ===== src/Packet/Ipv6/Tests.antt =====
-- A header from and to the loopback address, with two bytes of payload.
use skan.Base.{ℕ, ◌≡◌, ◌++◌, refl, some, List, [], ◌∷◌, arith, replicate}
use skan.Core.{ok}
use skan.Packet.Ipv6.{Ipv6, validate, serialize, parse}
use skan.Packet.Ipv6.RoundTrip.{IsInRange, ipv6-parse-serialize}

abbrev loopback : List ℕ
loopback = replicate 15 0 ++ (1 ∷ [])

abbrev header : Ipv6
header = record {
  version = 6;
  traffic_class = 171;
  flow_label = 703710;
  payload_length = 2;
  next_header = 17;
  hop_limit = 64;
  source_address = loopback;
  destination_address = loopback;
}

header-IsInRange : IsInRange header
header-IsInRange = record {
  traffic_class = omega arith;
  payload_length = omega arith;
  next_header = omega arith;
  hop_limit = omega arith;
  source_address = refl;
  destination_address = refl;
}

ipv6-parse-serialize_example :
    let (status, bytes) = serialize header (replicate 40 0) in
    (status ≡ ok) × (parse (bytes ++ (1 ∷ 2 ∷ [])) ≡ some (some header))
unfolding validate
ipv6-parse-serialize_example =
    ipv6-parse-serialize header (1 ∷ 2 ∷ []) header-IsInRange refl (omega arith)
