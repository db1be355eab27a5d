-- ===== src/Packet/Tcp/Tests.antt =====
-- A SYN segment with the options of a usual client.
use skan.Base.{ℕ, ◌≡◌, refl, true, List, [], ◌∷◌, some, replicate, arith}
use skan.Core.{ok}
use skan.Packet.Tcp.{
  Tcp, mss, nop, window_scale, sack_permitted, serialize, serialized_size, validate,
}
use skan.Packet.Tcp.Parse.{plain, parse}
use skan.Packet.Tcp.Options.{mss_option, nop_option, scale_option, sack_option}
use skan.Packet.Tcp.Bounds.{Parses, tcp-parse-IsWithin}
use skan.Packet.Tcp.RoundTrip.{tcp-parse-serialize}

abbrev syn : Tcp
syn = record {
  source_port = 40000;
  destination_port = 443;
  sequence_number = 3735928559;
  acknowledgment_number = 0;
  data_offset = 8;
  flags = 2;
  window = 65535;
  checksum = 0;
  urgent_pointer = 0;
  options = plain mss 1460 ∷ plain nop 0 ∷ plain window_scale 7 ∷ plain sack_permitted 0 ∷ [];
  payload = 1 ∷ 2 ∷ [];
}

syn_is_valid : validate syn ≡ true
unfolding validate
syn_is_valid = refl

tcp-parse-serialize_example :
    let (status, output) = serialize syn (replicate (serialized_size syn) 0) in
    (status ≡ ok) × (parse output ≡ some (some syn))
tcp-parse-serialize_example =
    tcp-parse-serialize syn (omega arith)
      (
        mss_option 1460 (omega arith),
        (nop_option, (scale_option 7 (omega arith), (sack_option, tt))),
      )
      syn_is_valid

-- An option whose length runs past the header.
abbrev overlong : List ℕ
overlong =
    0 ∷ 80 ∷ 0 ∷ 81 ∷ 0 ∷ 0 ∷ 0 ∷ 0 ∷ 0 ∷ 0 ∷ 0 ∷ 0 ∷ 96 ∷ 2 ∷ 0 ∷ 0 ∷ 0 ∷ 0 ∷ 0 ∷ 0 ∷ 2 ∷ 9 ∷ 0 ∷ 0
    ∷ []

tcp-parse-IsWithin_example : Parses overlong (parse overlong)
tcp-parse-IsWithin_example = tcp-parse-IsWithin overlong
