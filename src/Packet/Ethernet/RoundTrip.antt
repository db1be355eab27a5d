-- ===== src/Packet/Ethernet/RoundTrip.antt =====
-- An Ethernet header that is serialized parses back, and parsing reads nothing outside its input.
use skan.Base.{ℕ, ◌<◌, ◌≡◌, some, List, [], ◌∷◌, ◌++◌, arith, replicate, true}
use skan.Core.{ok}
use skan.Packet.Ethernet.{Ethernet, validate, serialize, parse}

-- A header whose addresses have six bytes and whose type is a 16-bit word.
abbrev pub of_bytes : (a b c d e f u v w x y z type : ℕ) → Ethernet
of_bytes a b c d e f u v w x y z type = record {
  destination = a ∷ b ∷ c ∷ d ∷ e ∷ f ∷ [];
  source = u ∷ v ∷ w ∷ x ∷ y ∷ z ∷ [];
  ether_type = type;
}

-- A valid header, serialized into a zeroed buffer of 14 bytes and followed by any bytes, parses back
-- to the same header.
pub ethernet-parse-serialize :
    (a b c d e f u v w x y z type : ℕ) (payload : List ℕ)
    → type < 65536
    → validate (of_bytes a b c d e f u v w x y z type) ≡ true
    → let (status, header) = serialize (of_bytes a b c d e f u v w x y z type) (replicate 14 0) in
      (status ≡ ok)
      × (parse (header ++ payload) ≡ some (some (of_bytes a b c d e f u v w x y z type)))
unfolding serialize parse validate
ethernet-parse-serialize a b c d e f u v w x y z type payload small valid =
    (ground arith, ground arith)
