-- ===== src/Packet/Ipv4/Tests.antt =====
-- A header with eight bytes of payload, there and back.
use skan.Base.{◌≡◌, refl, some, [], ◌∷◌, ◌++◌, arith, replicate}
use skan.Core.{ok}
use skan.Packet.Ipv4.{Ipv4, validate, serialize, parse}
use skan.Packet.Ipv4.RoundTrip.{with_checksum, ipv4-parse-serialize}

abbrev header : Ipv4
header = record {
  version = 4;
  ihl = 5;
  dscp_ecn = 0;
  total_length = 24;
  identification = 7;
  flags_fragment_offset = 0x4000;
  ttl = 64;
  protocol = 17;
  header_checksum = 0;
  source_address = 0xc000_0201;
  destination_address = 0xc000_0202;
}

ipv4-parse-serialize_example :
    let (status, bytes) = serialize header (replicate 20 0 ++ (1 ∷ 2 ∷ 3 ∷ 4 ∷ [])) in
    (status ≡ ok) × (parse bytes ≡ some (some (with_checksum header)))
unfolding validate
ipv4-parse-serialize_example =
    ipv4-parse-serialize header (1 ∷ 2 ∷ 3 ∷ 4 ∷ []) (omega arith) refl (omega arith)
