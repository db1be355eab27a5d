-- ===== src/PortScan/Probes/Tests.antt =====
-- A SYN probe of port 80 and the answers to it, as in tcp_syn.cpp.
use skan.Base.{pos, ℕ, ◌≡◌, refl, true, replicate, arith, some, List, [], ◌∷◌}
use skan.PortScan.Types.{tcp, tcp_syn, open_port, syn_ack, tcp_connect, tcp_ack}
use skan.Packet.Tcp.{Tcp, validate, serialize, serialized_size}
use skan.Packet.Tcp.Parse.{parse, parse_options}
use skan.PortScan.Probes.{
  parsed, PortSubmission, PortResponse, packet, assessed, SystemErrors, assess_syn, assess_ack,
  assess_connect,
}
use skan.PortScan.Probes.Opening.{AnswersSyn, syn_open_answered}
use skan.PortScan.Probes.Semantics.{IsMeaningful, assessments-IsMeaningful, answering_segment_opens}

abbrev probe : PortSubmission
probe = record {
  id = 7;
  probe = tcp_syn;
  target = 49 ∷ 50 ∷ [];
  port = record { number = 80; protocol = tcp };
  source_port = 40000;
  sequence_number = 4294967295;
  acknowledgment_number = 0;
  target_ip = some 12;
  source_ip = some 11;
}

-- SYN and ACK, with the acknowledgment number past the wrap.
abbrev syn_ack_bytes : List ℕ
syn_ack_bytes =
    0 ∷ 80 ∷ 156 ∷ 64 ∷ 0 ∷ 0 ∷ 0 ∷ 55 ∷ 0 ∷ 0 ∷ 0 ∷ 0 ∷ 80 ∷ 18 ∷ 0 ∷ 0 ∷ 0 ∷ 0 ∷ 0 ∷ 0 ∷ []

abbrev syn_ack_segment : Tcp
syn_ack_segment = record {
  source_port = 80;
  destination_port = 40000;
  sequence_number = 55;
  acknowledgment_number = 0;
  data_offset = 5;
  flags = 18;
  window = 0;
  checksum = 0;
  urgent_pointer = 0;
  options = [];
  payload = [];
}

abbrev answer : PortResponse
answer = record {
  id = 7;
  source_address = 49 ∷ 50 ∷ [];
  kind = packet;
  system_error = 0;
  bytes = syn_ack_bytes;
  received_at = pos 0;
  source_ip = some 12;
  reason = syn_ack;
}

abbrev errors : SystemErrors
errors = record {
  timed_out = 110;
  address_not_available = 99;
  net_unreachable = 101;
  host_unreachable = 113;
  net_down = 100;
  host_down = 112;
  net_reset = 102;
}

segment_is_valid : validate syn_ack_segment ≡ true
unfolding validate
segment_is_valid = refl

serialized :
    answer.bytes ≡ (serialize syn_ack_segment (replicate (serialized_size syn_ack_segment) 0)).1
unfolding serialize validate
serialized = refl

answer_is_open : assess_syn answer probe ≡ assessed open_port syn_ack
unfolding assess_syn parse parse_options
answer_is_open = refl

bytes_parse : parsed syn_ack_bytes ≡ some syn_ack_segment
unfolding parse parse_options
bytes_parse = refl

assessments-IsMeaningful_example :
    IsMeaningful tcp_syn (assess_syn answer probe)
    × IsMeaningful tcp_ack (assess_ack answer probe)
    × IsMeaningful tcp_connect (assess_connect errors answer probe)
assessments-IsMeaningful_example = assessments-IsMeaningful errors answer probe

syn_open_answered_example : AnswersSyn answer probe
syn_open_answered_example = syn_open_answered answer probe answer_is_open

-- The same answer as a segment that is serialized.
answering_segment_opens_example : assess_syn answer probe ≡ assessed open_port syn_ack
answering_segment_opens_example =
    answering_segment_opens answer probe syn_ack_segment (omega arith) tt segment_is_valid
      serialized refl refl refl refl refl refl refl
