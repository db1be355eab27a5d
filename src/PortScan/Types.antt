-- ===== src/PortScan/Types.antt =====
-- include/portscan/port_types.hpp and src/portscan/port_types.cpp: ports, the states and reasons of
-- their results, and which of these go together.
use skan.Base.{ℕ, Bool, true, false, ◌&&◌, ◌||◌, not, List, [], ◌∷◌, ◌==◌, if◌then◌else◌}

-- `enum class Protocol`
pub data Protocol : Type 0 where
  tcp udp : Protocol

-- `enum class ScanProbeType`
pub data ScanProbeType : Type 0 where
  tcp_connect tcp_syn udp_probe tcp_ack : ScanProbeType

-- `enum class PortState`
pub data PortState : Type 0 where
  open_port closed filtered unknown open_or_filtered unfiltered error unreachable : PortState

-- `enum class ScanReason`
pub data ScanReason : Type 0 where
  immediate_success connection_refused network_unreachable : ScanReason
  local_address_unavailable syn_ack rst timeout socket_error : ScanReason
  malformed_response unrelated_response invalid_target invalid_port : ScanReason
  unsupported_method capability_unavailable internal_error udp_response : ScanReason
  icmp_port_unreachable icmp_administratively_prohibited icmp_network_unreachable : ScanReason
  udp_timeout duplicate_response late_response unsupported_protocol ack_rst : ScanReason
  ack_timeout conflicting_evidence icmp_protocol_unreachable : ScanReason

-- `struct Port`
pub record Port : Type 0 where
  pub number : ℕ
  pub protocol : Protocol

-- The numbers of the enumerators, by which they are compared.
abbrev pub protocol_number : Protocol → ℕ
protocol_number tcp = 0
protocol_number udp = 1

abbrev pub probe_number : ScanProbeType → ℕ
probe_number tcp_connect = 0
probe_number tcp_syn = 1
probe_number udp_probe = 2
probe_number tcp_ack = 3

abbrev pub state_number : PortState → ℕ
state_number open_port = 0
state_number closed = 1
state_number filtered = 2
state_number unknown = 3
state_number open_or_filtered = 4
state_number unfiltered = 5
state_number error = 6
state_number unreachable = 7

abbrev pub reason_number : ScanReason → ℕ
reason_number immediate_success = 0
reason_number connection_refused = 1
reason_number network_unreachable = 2
reason_number local_address_unavailable = 3
reason_number syn_ack = 4
reason_number rst = 5
reason_number timeout = 6
reason_number socket_error = 7
reason_number malformed_response = 8
reason_number unrelated_response = 9
reason_number invalid_target = 10
reason_number invalid_port = 11
reason_number unsupported_method = 12
reason_number capability_unavailable = 13
reason_number internal_error = 14
reason_number udp_response = 15
reason_number icmp_port_unreachable = 16
reason_number icmp_administratively_prohibited = 17
reason_number icmp_network_unreachable = 18
reason_number udp_timeout = 19
reason_number duplicate_response = 20
reason_number late_response = 21
reason_number unsupported_protocol = 22
reason_number ack_rst = 23
reason_number ack_timeout = 24
reason_number conflicting_evidence = 25
reason_number icmp_protocol_unreachable = 26

abbrev pub same_probe : ScanProbeType → ScanProbeType → Bool
same_probe a b = probe_number a == probe_number b

abbrev pub same_reason : ScanReason → ScanReason → Bool
same_reason a b = reason_number a == reason_number b

-- The two sides of the first test of `valid_port_result_semantics`.
abbrev pub is_udp : Protocol → Bool
is_udp p = protocol_number p == 1

abbrev pub agrees : Bool → Bool → Bool
agrees true b = b
agrees false b = not b

-- The reasons that make a SYN or an ACK probe's port filtered, its own timeout aside.
abbrev icmp_filtered : ScanReason → Bool
icmp_filtered reason =
    same_reason reason icmp_administratively_prohibited
    || same_reason reason icmp_port_unreachable
    || same_reason reason icmp_protocol_unreachable

-- The switch of `valid_port_result_semantics`.
unfoldable pub state_semantics : ScanProbeType → PortState → ScanReason → Bool
state_semantics probe open_port reason =
    (same_probe probe tcp_connect && same_reason reason immediate_success)
    || (same_probe probe tcp_syn && same_reason reason syn_ack)
    || (same_probe probe udp_probe && same_reason reason udp_response)
state_semantics probe closed reason =
    (same_probe probe tcp_connect && same_reason reason connection_refused)
    || (same_probe probe tcp_syn && same_reason reason rst)
    || (same_probe probe udp_probe && same_reason reason icmp_port_unreachable)
state_semantics probe filtered reason =
    (same_probe probe tcp_connect && same_reason reason timeout)
    || (same_probe probe tcp_syn && (same_reason reason timeout || icmp_filtered reason))
    || (same_probe probe tcp_ack && (same_reason reason ack_timeout || icmp_filtered reason))
    || (same_probe probe udp_probe && same_reason reason icmp_administratively_prohibited)
state_semantics probe unknown reason = same_reason reason conflicting_evidence
state_semantics probe open_or_filtered reason =
    same_probe probe udp_probe && same_reason reason udp_timeout
state_semantics probe unfiltered reason = same_probe probe tcp_ack && same_reason reason ack_rst
state_semantics probe error reason =
    same_reason reason local_address_unavailable
    || same_reason reason socket_error
    || same_reason reason invalid_target
    || same_reason reason invalid_port
    || same_reason reason unsupported_method
    || same_reason reason capability_unavailable
    || same_reason reason internal_error
    || same_reason reason unsupported_protocol
state_semantics probe unreachable reason =
    (same_probe probe tcp_connect && same_reason reason network_unreachable)
    || (not (same_probe probe tcp_connect) && same_reason reason icmp_network_unreachable)

-- `valid_port_result_semantics`
unfoldable pub valid_port_result_semantics :
    Protocol → ScanProbeType → PortState → ScanReason → Bool
unfolding state_semantics
valid_port_result_semantics protocol probe state reason =
    if not (agrees (is_udp protocol) (same_probe probe udp_probe))
    then false
    else state_semantics probe state reason

-- `default_tcp_ports`
unfoldable pub default_tcp_ports : List Port
default_tcp_ports =
    record { number = 22; protocol = tcp }
    ∷ record { number = 80; protocol = tcp }
    ∷ record { number = 443; protocol = tcp }
    ∷ []
