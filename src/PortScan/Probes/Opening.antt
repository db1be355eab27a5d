-- ===== src/PortScan/Probes/Opening.antt =====
-- What a response that `TcpSynProbe::assess` of src/portscan/tcp_syn.cpp calls open is, down to the
-- bytes of its packet.
use mathlib.Core.Path.{subst}
use skan.Packet.Wire.{read_u16, read_u32}
use skan.Packet.Tcp.Parse.{parse}
use skan.Packet.Tcp.Fields.{parse-Shows}
use skan.Base.{
  List, ℕ, [], ◌∷◌, ◌/◌, get_elem?, ap, sym, ◌∙◌, ◌≡◌, refl, Bool, true, false, Option, none, some,
  ◌==◌, if◌then◌else◌, not, ◌+◌, ◌%◌, ◌^◌, arith,
}
use skan.Core.{not_found, parse_error}
use skan.ScanEngine.Rtt.{or_else}
use skan.PortScan.Types.{open_port, syn_ack}
use skan.Packet.Tcp.{Tcp}
use skan.PortScan.Probes.{
  PortResponse, PortSubmission, Assessment, assessed, refuses, assess_unreachable, assess_packet,
  assess_raw, syn_answer, assess_syn, same_text, foreign, misdirected, parsed, has_syn, has_ack,
  has_rst, has_fin, packet,
}

-- The sender of the response, an address if one is known and else a text, is the target.
abbrev Sender : Option ℕ → Option ℕ → List ℕ → List ℕ → Type 0
Sender none target_ip source_address target = source_address ≡ target
Sender (some ip) target_ip source_address target = target_ip ≡ some ip

-- A byte of flags with SYN and ACK, and with neither FIN nor RST.
abbrev SynAck : Option ℕ → Type 0
SynAck none = ⊥
SynAck (some flags) =
    (flags % 2 ≡ 0) × (flags / 2 % 2 ≡ 1) × (flags / 4 % 2 ≡ 0) × (flags / 16 % 2 ≡ 1)

-- What the response to a SYN probe is that a listening port answers.
pub record AnswersSyn (r : PortResponse) (s : PortSubmission) : Type 0 where
  arrived : r.kind ≡ packet
  same_id : r.id ≡ s.id
  from_target : Sender r.source_ip s.target_ip r.source_address s.target
  from_port : read_u16 r.bytes 0 ≡ some s.port.number
  to_port : read_u16 r.bytes 2 ≡ some s.source_port
  acknowledges : read_u32 r.bytes 8 ≡ some ((s.sequence_number + 1) % 2 ^ 32)
  flags : SynAck (get_elem? r.bytes 13)

same_text-≡ : (a b : List ℕ) → same_text a b ≡ true → a ≡ b
same_text-≡ [] [] h = refl
same_text-≡ [] (y ∷ b) h = absurd (ground arith)
same_text-≡ (x ∷ a) [] h = absurd (ground arith)
same_text-≡ (x ∷ a) (y ∷ b) h =
    let e : x ≡ y = ground arith in
    let k : same_text a b ≡ true = ground arith in rw (e, same_text-≡ a b k) refl

near-Sender :
    (source_ip target_ip : Option ℕ) (source_address target : List ℕ)
    → or_else source_ip
        (not (same_text source_address target))
        (λ source. or_else target_ip true (λ other. not (source == other)))
      ≡ false
    → Sender source_ip target_ip source_address target
near-Sender none target_ip source_address target h =
    same_text-≡ source_address target (ground arith)
near-Sender (some ip) none source_address target h = absurd (ground arith)
near-Sender (some ip) (some other) source_address target h =
    let e : ip ≡ other = ground arith in rw e refl

flags-SynAck :
    (t : Tcp)
    → has_syn t ≡ true
    → has_ack t ≡ true
    → has_rst t ≡ false
    → has_fin t ≡ false
    → SynAck (some t.flags)
flags-SynAck t syn ack rst fin = ground arith

raw_open :
    (answer : Tcp → Assessment) (r : PortResponse) (s : PortSubmission)
    → assess_raw answer r s ≡ assessed open_port syn_ack
    → (r.kind ≡ packet) × (assess_packet answer r s ≡ assessed open_port syn_ack)
unfolding assess_raw assess_unreachable
raw_open answer r s h = ground arith

present_open :
    (segment : Option Tcp) (f : Tcp → Assessment)
    → or_else segment (refuses parse_error) f ≡ assessed open_port syn_ack
    → (t : Tcp) × (segment ≡ some t) × (f t ≡ assessed open_port syn_ack)
present_open none f h = absurd (ground arith)
present_open (some t) f h = (t, refl, h)

found :
    (outcome : Option (Option Tcp)) (t : Tcp)
    → or_else outcome none (λ u. u) ≡ some t
    → outcome ≡ some (some t)
found none t h = absurd (ground arith)
found (some o) t h = ap some h

syn_answer-open :
    (s : PortSubmission)
    → (t : Tcp) → syn_answer s t ≡ assessed open_port syn_ack
    → (has_syn t ≡ true)
      × (has_ack t ≡ true)
      × (has_rst t ≡ false)
      × (has_fin t ≡ false)
      × (t.acknowledgment_number ≡ (s.sequence_number + 1) % 2 ^ 32)
unfolding syn_answer
syn_answer-open s t h = ground arith

guarded_open :
    (b : Bool)
    → (a : Assessment) → (if b then refuses not_found else a) ≡ assessed open_port syn_ack
    → (b ≡ false) × (a ≡ assessed open_port syn_ack)
guarded_open true a h = ground arith
guarded_open false a h = (refl, h)

-- A response that the SYN probe's assessment calls open is a packet for that submission from its
-- target; the first two bytes of the packet are the port asked about and the next two the port that
-- the probe used, the acknowledgment number is the one after the probe's, round 32 bits, and the
-- flags have SYN and ACK, and neither RST nor FIN.
pub syn_open_answered :
    (r : PortResponse) (s : PortSubmission)
    → assess_syn r s ≡ assessed open_port syn_ack
    → AnswersSyn r s
unfolding assess_syn assess_packet
syn_open_answered r s h =
    let (id, raw) = guarded_open (not (r.id == s.id)) (assess_raw (syn_answer s) r s) h in
    let (kind, shown) = raw_open (syn_answer s) r s raw in
    let (near, read) = guarded_open (foreign r s) _ shown in
    let (t, segment, directed) = present_open (parsed r.bytes) _ read in
    let (right, answered) = guarded_open (misdirected t s) (syn_answer s t) directed in
    let (syn, ack, rst, fin, number) = syn_answer-open s t answered in
    let bytes = parse-Shows r.bytes t (found (parse r.bytes) t segment) in
    let source : t.source_port ≡ s.port.number = ground arith in
    let destination : t.destination_port ≡ s.source_port = ground arith in
    record {
      arrived = kind;
      same_id = ground arith;
      from_target = near-Sender r.source_ip s.target_ip r.source_address s.target near;
      from_port = bytes.source ∙ ap some source;
      to_port = bytes.destination ∙ ap some destination;
      acknowledges = bytes.acknowledgment ∙ ap some number;
      flags = subst SynAck (sym bytes.flag_byte) (flags-SynAck t syn ack rst fin);
    }
