-- ===== src/Packet/Ethernet/Tests.antt =====
-- A frame that carries IPv6.
use skan.Base.{◌≡◌, ◌++◌, refl, some, [], ◌∷◌, arith, replicate}
use skan.Core.{ok}
use skan.Packet.Ethernet.{validate, serialize, parse}
use skan.Packet.Ethernet.RoundTrip.{of_bytes, ethernet-parse-serialize}

frame_returns :
    let frame = of_bytes 255 255 255 255 255 255 2 0 0 0 0 1 34525 in
    let (status, header) = serialize frame (replicate 14 0) in
    (status ≡ ok) × (parse (header ++ (96 ∷ [])) ≡ some (some frame))
unfolding validate
frame_returns =
    ethernet-parse-serialize 255 255 255 255 255 255 2 0 0 0 0 1 34525 (96 ∷ []) (omega arith) refl
