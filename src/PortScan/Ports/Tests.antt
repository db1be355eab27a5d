-- ===== src/PortScan/Ports/Tests.antt =====
-- Texts of ports and what they select.
use skan.Base.{ℕ, ◌≡◌, refl, Bool, true, List, [], ◌∷◌, ◌⊎◌, arith}
use skan.Core.{ok, invalid_argument}
use skan.PortScan.Types.{Port, tcp, udp}
use skan.PortScan.Ports.{parse_ports, token_ports}
use skan.PortScan.Ports.Members.{holds}
use skan.PortScan.Ports.Texts.{Padded, single, span, text}
use skan.PortScan.Ports.Choice.{parse_ports-text}
use skan.PortScan.Ports.Selection.{Ascending, AllPorts, parse_ports-Ascending}

abbrev enough : ℕ → Bool
enough i = true

-- " 81,22,80-82"
abbrev listed : List ℕ
listed = b' ' ∷ b'8' ∷ b'1' ∷ b',' ∷ b'2' ∷ b'2' ∷ b',' ∷ b'8' ∷ b'0' ∷ b'-' ∷ b'8' ∷ b'2' ∷ []

abbrev tcp_port : ℕ → Port
tcp_port n = record { number = n; protocol = tcp }

listed_selects :
    parse_ports enough listed tcp ≡ (ok, tcp_port 22 ∷ tcp_port 80 ∷ tcp_port 81 ∷ tcp_port 82 ∷ [])
unfolding parse_ports token_ports
listed_selects = refl

-- "22,"
trailing_comma : parse_ports enough (b'2' ∷ b'2' ∷ b',' ∷ []) tcp ≡ (invalid_argument, [])
unfolding parse_ports token_ports
trailing_comma = refl

parse_ports-Ascending_example :
    let (status, ports) = parse_ports enough listed udp in
    Ascending ports × AllPorts udp ports × ((status ≡ ok) ⊎ (ports ≡ []))
parse_ports-Ascending_example = parse_ports-Ascending enough listed udp

-- " 080-82,22"
abbrev first_item : Padded
first_item = record { before = 1; item = span (0 ∷ 8 ∷ 0 ∷ []) (8 ∷ 2 ∷ []); after = 0 }

abbrev second_item : Padded
second_item = record { before = 0; item = single (2 ∷ 2 ∷ []); after = 0 }

parse_ports-text_example :
    let (status, ports) = parse_ports enough (text first_item (second_item ∷ [])) tcp in
    (status ≡ ok) × (holds (tcp_port 81) ports ≡ true)
parse_ports-text_example =
    parse_ports-text enough tcp first_item (second_item ∷ []) (tcp_port 81)
      (
        (
          (refl, omega arith, omega arith, omega arith),
          (refl, omega arith, omega arith, omega arith),
          omega arith,
        ),
        ((refl, omega arith, omega arith, omega arith), tt),
      )
      (λ i. refl)
