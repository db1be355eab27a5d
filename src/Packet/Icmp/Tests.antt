-- ===== src/Packet/Icmp/Tests.antt =====
-- An echo request.
use skan.Base.{◌≡◌, refl, some, [], ◌∷◌, arith, replicate}
use skan.Core.{ok}
use skan.Packet.Checksum.{internet}
use skan.Packet.Icmp.{Icmp, echo_request, validate, serialize, parse}
use skan.Packet.Icmp.RoundTrip.{IsInRange, with_checksum, icmp-parse-serialize}

abbrev request : Icmp
request = record {
  type = echo_request;
  code = 0;
  identifier = 4660;
  sequence = 7;
  checksum = 0;
  payload = 1 ∷ 2 ∷ 3 ∷ [];
}

request-IsInRange : IsInRange request
request-IsInRange = record {
  code = omega arith;
  identifier = omega arith;
  sequence = omega arith;
  payload = (omega arith, (omega arith, (omega arith, tt)));
}

icmp-parse-serialize_example :
    let (status, bytes) = serialize request (replicate 11 0) in
    (status ≡ ok) × ((internet bytes ≡ 0) × (parse bytes ≡ some (some (with_checksum request))))
unfolding validate
icmp-parse-serialize_example = icmp-parse-serialize request request-IsInRange refl
