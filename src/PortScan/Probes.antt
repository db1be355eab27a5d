-- ===== src/PortScan/Probes.antt =====
-- include/portscan/port_probe.hpp, and the `assess` methods of src/portscan/tcp_connect.cpp,
-- tcp_syn.cpp and tcp_ack.cpp: what a response says about a port.
--
-- An IP address is a number, or none where it is not valid; an error number of the system is a
-- number, and the ones that the source names are parameters.
pub mod Semantics
pub mod Opening
mod Tests
use skan.Base.{
  ℕ, ℤ, ◌+◌, ◌/◌, ◌%◌, ◌^◌, Bool, true, false, ◌&&◌, ◌||◌, not, Option, none, some, List, [], ◌∷◌,
  ◌==◌, if◌then◌else◌,
}
use skan.Core.{StatusCode, ok, not_found, parse_error}
use skan.ScanEngine.Rtt.{or_else}
use skan.Packet.Tcp.{Tcp}
use skan.Packet.Tcp.Parse.{parse}
use skan.PortScan.Types.{
  Port, ScanProbeType, tcp_connect, tcp_syn, udp_probe, tcp_ack, PortState, open_port, closed,
  filtered, unfiltered, error, unreachable, ScanReason, immediate_success, connection_refused,
  network_unreachable, local_address_unavailable, syn_ack, rst, timeout, socket_error,
  icmp_port_unreachable, icmp_administratively_prohibited, icmp_network_unreachable, ack_rst,
  ack_timeout, icmp_protocol_unreachable, same_reason, same_probe,
}

-- `enum class PortResponseKind`
pub data PortResponseKind : Type 0 where
  connected refused system_failure packet unreached : PortResponseKind

-- `struct PortSubmission`, without the packet.
pub record PortSubmission : Type 0 where
  pub id : ℕ
  pub probe : ScanProbeType
  pub target : List ℕ
  pub port : Port
  pub source_port : ℕ
  pub sequence_number : ℕ
  pub acknowledgment_number : ℕ
  pub target_ip : Option ℕ
  pub source_ip : Option ℕ

-- `struct PortResponse`
pub record PortResponse : Type 0 where
  pub id : ℕ
  pub source_address : List ℕ
  pub kind : PortResponseKind
  pub system_error : ℕ
  pub bytes : List ℕ
  pub received_at : ℤ
  pub source_ip : Option ℕ
  pub reason : ScanReason

-- What `assess` writes through its references when it returns `Ok`, or the status that it returns.
pub data Assessment : Type 0 where
  assessed : PortState → ScanReason → Assessment
  refuses : StatusCode → Assessment

-- `==` on strings
abbrev pub same_text : List ℕ → List ℕ → Bool
same_text [] [] = true
same_text (a ∷ as_) (b ∷ bs) = a == b && same_text as_ bs
same_text _ _ = false

-- What `TCP::parse` returns of some bytes; it reads no byte outside them.
abbrev pub parsed : List ℕ → Option Tcp
parsed bytes = or_else (parse bytes) none (λ t. t)

-- `packet::has_flag`, at the number of the flag's bit
abbrev has_flag : ℕ → ℕ → Bool
has_flag flags bit = flags / 2 ^ bit % 2 == 1

abbrev pub has_fin : Tcp → Bool
has_fin s = has_flag s.flags 0

abbrev pub has_syn : Tcp → Bool
has_syn s = has_flag s.flags 1

abbrev pub has_rst : Tcp → Bool
has_rst s = has_flag s.flags 2

abbrev pub has_ack : Tcp → Bool
has_ack s = has_flag s.flags 4

-- The sender of the response is not the target of the probe.
abbrev pub foreign : PortResponse → PortSubmission → Bool
foreign r s =
    or_else r.source_ip (not (same_text r.source_address s.target))
      λ source. or_else s.target_ip true (λ target. not (source == target))

-- The ports of the segment are not those of the probe, the other way round.
abbrev pub misdirected : Tcp → PortSubmission → Bool
misdirected t s = not (t.source_port == s.port.number) || not (t.destination_port == s.source_port)

-- What an ICMP error says to a SYN or an ACK probe.
assess_unreachable : ScanReason → Assessment
assess_unreachable reason =
    if same_reason reason icmp_network_unreachable
    then assessed unreachable reason
    else if same_reason reason icmp_administratively_prohibited
        || same_reason reason icmp_port_unreachable
        || same_reason reason icmp_protocol_unreachable
    then assessed filtered reason
    else refuses not_found

-- A packet, once the response belongs to the probe; `answer` reads the segment.
unfoldable pub assess_packet : (Tcp → Assessment) → PortResponse → PortSubmission → Assessment
assess_packet answer r s =
    if foreign r s
    then refuses not_found
    else or_else (parsed r.bytes) (refuses parse_error)
        λ t. if misdirected t s then refuses not_found else answer t

-- The switch of the SYN and the ACK probe on the kind of the response.
unfoldable pub assess_raw : (Tcp → Assessment) → PortResponse → PortSubmission → Assessment
unfolding assess_unreachable assess_packet
assess_raw answer r s = elim r.kind [
  | system_failure ↦ assessed error socket_error
  | unreached ↦ assess_unreachable r.reason
  | packet ↦ assess_packet answer r s
  | _ ↦ refuses not_found
]

-- The flags of a segment, to a SYN probe.
unfoldable pub syn_answer : PortSubmission → Tcp → Assessment
syn_answer s t =
    if has_syn t && has_ack t && not (has_rst t) && not (has_fin t) && acknowledged
    then assessed open_port syn_ack
    else if has_rst t && not (has_syn t) && not (has_fin t) && (not (has_ack t) || acknowledged)
    then assessed closed rst
    else refuses not_found
  where
    acknowledged : Bool
    acknowledged = t.acknowledgment_number == (s.sequence_number + 1) % 2 ^ 32

-- `TcpSynProbe::assess`
unfoldable pub assess_syn : PortResponse → PortSubmission → Assessment
unfolding assess_raw syn_answer
assess_syn r s = if not (r.id == s.id) then refuses not_found else assess_raw (syn_answer s) r s

-- The flags of a segment, to an ACK probe.
ack_answer : PortSubmission → Tcp → Assessment
ack_answer s t =
    if not (has_rst t)
      || has_ack t
      || has_syn t
      || has_fin t
      || not (t.sequence_number == s.acknowledgment_number)
    then refuses not_found
    else assessed unfiltered ack_rst

-- `TcpAckProbe::assess`
pub assess_ack : PortResponse → PortSubmission → Assessment
unfolding assess_raw ack_answer
assess_ack r s =
    if not (r.id == s.id) || not (same_probe s.probe tcp_ack)
    then refuses not_found
    else assess_raw (ack_answer s) r s

-- The error numbers of the system that src/portscan/tcp_connect.cpp names: `ETIMEDOUT`,
-- `EADDRNOTAVAIL`, `ENETUNREACH`, `EHOSTUNREACH`, `ENETDOWN`, `EHOSTDOWN` and `ENETRESET`.
pub record SystemErrors : Type 0 where
  pub timed_out : ℕ
  pub address_not_available : ℕ
  pub net_unreachable : ℕ
  pub host_unreachable : ℕ
  pub net_down : ℕ
  pub host_down : ℕ
  pub net_reset : ℕ

-- `is_unreachable_error`
abbrev is_unreachable_error : SystemErrors → ℕ → Bool
is_unreachable_error errors number =
    number == errors.net_unreachable
    || number == errors.host_unreachable
    || number == errors.net_down
    || number == errors.host_down
    || number == errors.net_reset

-- `TcpConnectProbe::assess`
pub assess_connect : SystemErrors → PortResponse → PortSubmission → Assessment
assess_connect errors r s =
    if not (r.id == s.id)
      || (not (same_text r.source_address []) && not (same_text r.source_address s.target))
    then refuses not_found
    else elim r.kind [
      | connected ↦ assessed open_port immediate_success
      | refused ↦ assessed closed connection_refused
      | system_failure ↦
          if r.system_error == errors.timed_out
          then assessed filtered timeout
          else if is_unreachable_error errors r.system_error
          then assessed unreachable network_unreachable
          else if r.system_error == errors.address_not_available
          then assessed error local_address_unavailable
          else assessed error socket_error
      | _ ↦ refuses parse_error
    ]

-- `timeout_state` and `timeout_reason` of the three probes
pub timeout_of : ScanProbeType → Option (PortState × ScanReason)
timeout_of tcp_connect = some (filtered, timeout)
timeout_of tcp_syn = some (filtered, timeout)
timeout_of tcp_ack = some (filtered, ack_timeout)
timeout_of udp_probe = none
