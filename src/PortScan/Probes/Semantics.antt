-- ===== src/PortScan/Probes/Semantics.antt =====
-- `valid_port_result_semantics` of src/portscan/port_types.cpp against the `assess` methods of
-- src/portscan/tcp_connect.cpp, tcp_syn.cpp and tcp_ack.cpp.
use skan.Base.{
  ap, replicate, ◌∙◌, ◌≡◌, refl, Bool, true, false, Option, none, some, ◌==◌, if◌then◌else◌, not,
  ◌||◌, ◌+◌, ◌%◌, ◌^◌, arith,
}
use skan.Core.{not_found, parse_error}
use skan.ScanEngine.Rtt.{or_else}
use skan.PortScan.Types.{
  tcp, ScanProbeType, tcp_connect, tcp_syn, tcp_ack, valid_port_result_semantics, ScanReason,
  same_probe, error, socket_error, open_port, syn_ack,
}
use skan.Packet.Tcp.{Tcp, validate, serialize, serialized_size}
use skan.Packet.Tcp.Options.{AllCanonical}
use skan.Packet.Tcp.RoundTrip.{IsInRange, tcp-parse-serialize}
use skan.PortScan.Probes.{
  PortResponse, PortSubmission, Assessment, assessed, refuses, SystemErrors, assess_unreachable,
  assess_packet, assess_raw, syn_answer, ack_answer, assess_syn, assess_ack, assess_connect,
  foreign, misdirected, parsed, packet,
}

-- The assessment is a refusal, or a state and a reason that are valid for a TCP probe.
abbrev pub IsMeaningful : ScanProbeType → Assessment → Type 0
IsMeaningful probe (assessed state reason) =
    valid_port_result_semantics tcp probe state reason ≡ true
IsMeaningful probe (refuses status) = Unit

unreachable-IsMeaningful_syn :
    (reason : ScanReason) → IsMeaningful tcp_syn (assess_unreachable reason)
unfolding assess_unreachable valid_port_result_semantics
unreachable-IsMeaningful_syn reason = ground arith

unreachable-IsMeaningful_ack :
    (reason : ScanReason) → IsMeaningful tcp_ack (assess_unreachable reason)
unfolding assess_unreachable valid_port_result_semantics
unreachable-IsMeaningful_ack reason = ground arith

guarded-IsMeaningful :
    (probe : ScanProbeType)
    → (b : Bool) → (a : Assessment) → IsMeaningful probe a
    → IsMeaningful probe (if b then refuses not_found else a)
guarded-IsMeaningful probe true a h = tt
guarded-IsMeaningful probe false a h = h

present-IsMeaningful :
    (probe : ScanProbeType)
    → (segment : Option Tcp) → (f : Tcp → Assessment) → ((t : Tcp) → IsMeaningful probe (f t))
    → IsMeaningful probe (or_else segment (refuses parse_error) f)
present-IsMeaningful probe none f h = tt
present-IsMeaningful probe (some t) f h = h t

packet-IsMeaningful :
    (probe : ScanProbeType)
    → (answer : Tcp → Assessment) → ((t : Tcp) → IsMeaningful probe (answer t))
    → (r : PortResponse) → (s : PortSubmission) → IsMeaningful probe (assess_packet answer r s)
unfolding assess_packet
packet-IsMeaningful probe answer h r s = guarded-IsMeaningful probe (foreign r s) _ (
    present-IsMeaningful probe (parsed r.bytes) _
      λ t. guarded-IsMeaningful probe (misdirected t s) (answer t) (h t))

syn_answer-IsMeaningful : (s : PortSubmission) → (t : Tcp) → IsMeaningful tcp_syn (syn_answer s t)
unfolding syn_answer valid_port_result_semantics
syn_answer-IsMeaningful s t = ground arith

ack_answer-IsMeaningful : (s : PortSubmission) → (t : Tcp) → IsMeaningful tcp_ack (ack_answer s t)
unfolding ack_answer valid_port_result_semantics
ack_answer-IsMeaningful s t = ground arith

raw-IsMeaningful :
    (probe : ScanProbeType)
    → ((reason : ScanReason) → IsMeaningful probe (assess_unreachable reason))
    → valid_port_result_semantics tcp probe error socket_error ≡ true
    → (answer : Tcp → Assessment) → ((t : Tcp) → IsMeaningful probe (answer t))
    → (r : PortResponse) → (s : PortSubmission) → IsMeaningful probe (assess_raw answer r s)
unfolding assess_raw
raw-IsMeaningful probe unreached_case failed answer h r s =
    let a : IsMeaningful probe (assess_unreachable r.reason) = unreached_case r.reason in
    let b : IsMeaningful probe (assess_packet answer r s) =
      packet-IsMeaningful probe answer h r s in
    ground arith

connect-IsMeaningful :
    (errors : SystemErrors)
    → (r : PortResponse) → (s : PortSubmission)
    → IsMeaningful tcp_connect (assess_connect errors r s)
unfolding assess_connect valid_port_result_semantics
connect-IsMeaningful errors r s = ground arith

syn-IsMeaningful : (r : PortResponse) → (s : PortSubmission) → IsMeaningful tcp_syn (assess_syn r s)
unfolding assess_syn valid_port_result_semantics
syn-IsMeaningful r s = guarded-IsMeaningful tcp_syn (not (r.id == s.id)) _ (
    raw-IsMeaningful tcp_syn unreachable-IsMeaningful_syn refl (syn_answer s)
      (syn_answer-IsMeaningful s) r s)

ack-IsMeaningful : (r : PortResponse) → (s : PortSubmission) → IsMeaningful tcp_ack (assess_ack r s)
unfolding assess_ack valid_port_result_semantics
ack-IsMeaningful r s =
    guarded-IsMeaningful tcp_ack (not (r.id == s.id) || not (same_probe s.probe tcp_ack)) _ (
      raw-IsMeaningful tcp_ack unreachable-IsMeaningful_ack refl (ack_answer s)
        (ack_answer-IsMeaningful s) r s)

-- Whatever a response says, the state and the reason that the assessment of a SYN probe, an ACK
-- probe or a connect probe writes, where it does not refuse the response, are a combination that
-- `valid_port_result_semantics` admits for a TCP port and that probe.
pub assessments-IsMeaningful :
    (errors : SystemErrors)
    → (r : PortResponse) → (s : PortSubmission)
    → IsMeaningful tcp_syn (assess_syn r s)
      × IsMeaningful tcp_ack (assess_ack r s)
      × IsMeaningful tcp_connect (assess_connect errors r s)
assessments-IsMeaningful errors r s =
    (syn-IsMeaningful r s, ack-IsMeaningful r s, connect-IsMeaningful errors r s)

packet_lem :
    (answer : Tcp → Assessment)
    → (r : PortResponse) → (s : PortSubmission) → (t : Tcp) → r.kind ≡ packet
    → parsed r.bytes ≡ some t
    → assess_raw answer r s ≡ (
        if foreign r s
        then refuses not_found
        else if misdirected t s
        then refuses not_found
        else answer t)
unfolding assess_raw assess_packet
packet_lem answer r s t hk hs = rw (hk, hs) refl

answer_opens :
    (s : PortSubmission) (t : Tcp)
    → t.flags ≡ 18
    → t.acknowledgment_number ≡ (s.sequence_number + 1) % 2 ^ 32
    → syn_answer s t ≡ assessed open_port syn_ack
unfolding syn_answer
answer_opens s t g n = rw g (ground arith)

-- A segment in range with the flags SYN and ACK alone, from the port that the SYN probe asked about
-- to the one it used and with the number after the probe's, serialized and received from the
-- target: the probe is assessed open.
pub answering_segment_opens :
    (r : PortResponse) (s : PortSubmission) (t : Tcp)
    → IsInRange t
    → AllCanonical t.options
    → validate t ≡ true
    → r.bytes ≡ (serialize t (replicate (serialized_size t) 0)).1
    → r.kind ≡ packet
    → r.id ≡ s.id
    → foreign r s ≡ false
    → t.source_port ≡ s.port.number
    → t.destination_port ≡ s.source_port
    → t.flags ≡ 18
    → t.acknowledgment_number ≡ (s.sequence_number + 1) % 2 ^ 32
    → assess_syn r s ≡ assessed open_port syn_ack
unfolding assess_syn
answering_segment_opens r s t w c v b k i f p q g n =
    let read : parsed r.bytes ≡ some t =
      ap parsed b ∙ ap (λ z. or_else z none (λ u. u)) (tcp-parse-serialize t w c v).1 in
    let aimed : misdirected t s ≡ false = ground arith in
    let same : (r.id == s.id) ≡ true = ground arith in
    let answered : syn_answer s t ≡ assessed open_port syn_ack = answer_opens s t g n in
    rw (same, packet_lem (syn_answer s) r s t k read, f, aimed) answered
