-- ===== src/Packet/Ipv6.antt =====
-- include/packet/ipv6.hpp and src/packet/ipv6.cpp: IPv6 base headers. An address is its 16 bytes.
pub mod RoundTrip
mod Tests
use skan.Base.{
  ℕ, ◌+◌, ◌-◌, ◌*◌, ◌/◌, ◌%◌, ◌^◌, Bool, true, false, ◌&&◌, ◌||◌, not, Option, none, some, List, [],
  ◌∷◌, ltb, ◌==◌, if◌then◌else◌, length, take, drop, set, get_elem?,
}
use skan.Core.{StatusCode, ok, invalid_argument}
use skan.Packet.Wire.{◌>>=◌, write_u16, read_u16, copy_to}

-- `class IPv6`
pub record Ipv6 : Type 0 where
  pub version : ℕ
  pub traffic_class : ℕ
  pub flow_label : ℕ
  pub payload_length : ℕ
  pub next_header : ℕ
  pub hop_limit : ℕ
  pub source_address : List ℕ
  pub destination_address : List ℕ

-- `set_flow_label`
unfoldable pub set_flow_label : Ipv6 → ℕ → Ipv6
set_flow_label p value = record p { flow_label = value % 2 ^ 20 }

-- `validate`; the flow label has 32 bits, of which the upper twelve are tested.
unfoldable pub validate : Ipv6 → Bool
validate p = p.version == 6 && p.flow_label / 2 ^ 20 == 0

-- `serialize`; the span is returned as it is left. The shifted fields have no bits in common, and the
-- loop copies both addresses.
unfoldable pub serialize : Ipv6 → List ℕ → StatusCode × List ℕ
unfolding validate
serialize p output =
    if not (validate p) || ltb (length output) 40 then (invalid_argument, output) else (
      ok,
      let o0 = set output 0 ((p.version * 16 + p.traffic_class / 16) % 256) in
          let o1 = set o0 1 ((p.traffic_class * 16 + p.flow_label / 2 ^ 16 % 16) % 256) in
          let o2 = set o1 2 (p.flow_label / 256 % 256) in
          let o3 = set o2 3 (p.flow_label % 256) in
          let o4 = write_u16 o3 4 p.payload_length in
          let o5 = set o4 6 p.next_header in
          let o6 = set o5 7 p.hop_limit in
          copy_to (copy_to o6 8 p.source_address) 24 p.destination_address,
    )

-- The reads of `parse`, of an input that holds a header of version 6.
unfoldable pub parse_fields : List ℕ → Option (Option Ipv6)
parse_fields input = do
  b0 ← get_elem? input 0
  b1 ← get_elem? input 1
  b2 ← get_elem? input 2
  b3 ← get_elem? input 3
  payload_length ← read_u16 input 4
  next_header ← get_elem? input 6
  hop_limit ← get_elem? input 7
  some (
      if ltb (length input - 40) payload_length
      then none
      else some (record {
        version = b0 / 16;
        traffic_class = b0 % 16 * 16 + b1 / 16;
        flow_label = b1 % 16 * 2 ^ 16 + b2 * 256 + b3;
        payload_length = payload_length;
        next_header = next_header;
        hop_limit = hop_limit;
        source_address = take 16 (drop 8 input);
        destination_address = take 16 (drop 24 input);
      }))

-- `parse`. The outer option is `none` where a byte outside the input is read; the loop over the
-- addresses reads bytes that the first test has found.
unfoldable pub parse : List ℕ → Option (Option Ipv6)
unfolding parse_fields
parse input = if ltb (length input) 40 then some none else (do
  first ← get_elem? input 0
  (if not (first / 16 == 6) then some none else parse_fields input))
