-- ===== src/Packet/Ipv4.antt =====
-- include/packet/ipv4.hpp and src/packet/ipv4.cpp: IPv4 headers without options.
pub mod RoundTrip
mod Tests
use skan.Base.{
  ℕ, ◌+◌, ◌*◌, ◌/◌, ◌%◌, ◌^◌, Bool, true, false, ◌&&◌, ◌||◌, not, Option, none, some, List, [], ◌∷◌,
  ltb, leb, ◌==◌, if◌then◌else◌, length, take, set, get_elem?, replicate,
}
use skan.Core.{StatusCode, ok, invalid_argument}
use skan.Packet.Wire.{◌>>=◌, write_u16, write_u32, read_u16, read_u32, copy_to}
use skan.Packet.Checksum.{internet}

-- `class IPv4`
pub record Ipv4 : Type 0 where
  pub version : ℕ
  pub ihl : ℕ
  pub dscp_ecn : ℕ
  pub total_length : ℕ
  pub identification : ℕ
  pub flags_fragment_offset : ℕ
  pub ttl : ℕ
  pub protocol : ℕ
  pub header_checksum : ℕ
  pub source_address : ℕ
  pub destination_address : ℕ

-- `serialized_size`
abbrev pub serialized_size : Ipv4 → ℕ
serialized_size p = p.ihl * 4

-- `validate`; the size of five words fits the cast to 16 bits.
unfoldable pub validate : Ipv4 → Bool
validate p = p.version == 4 && p.ihl == 5 && leb (serialized_size p % 2 ^ 16) p.total_length

-- The writes of `serialize` before the checksum.
header_of : Ipv4 → List ℕ → List ℕ
header_of p output =
    let b0 = copy_to output 0 (replicate (serialized_size p) 0) in
    let b1 = set b0 0 ((p.version * 16 + p.ihl % 16) % 256) in
    let b2 = set b1 1 p.dscp_ecn in
    let b3 = write_u16 b2 2 p.total_length in
    let b4 = write_u16 b3 4 p.identification in
    let b5 = write_u16 b4 6 p.flags_fragment_offset in
    let b6 = set b5 8 p.ttl in
    let b7 = set b6 9 p.protocol in
    let b8 = write_u16 b7 10 0 in
    let b9 = write_u32 b8 12 p.source_address in write_u32 b9 16 p.destination_address

-- `serialize`; the span is returned as it is left.
unfoldable pub serialize : Ipv4 → List ℕ → StatusCode × List ℕ
unfolding header_of
serialize p output =
    if not (validate p) || ltb (length output) (serialized_size p)
    then (invalid_argument, output)
    else (ok, write_u16 header 10 (internet (take (serialized_size p) header)))
  where
    header : List ℕ
    header = header_of p output

-- The reads of `parse`, once version and length of the header have been tested.
unfoldable pub parse_fields : List ℕ → ℕ → ℕ → Option Ipv4
parse_fields input version ihl = do
  dscp_ecn ← get_elem? input 1
  total_length ← read_u16 input 2
  identification ← read_u16 input 4
  flags_fragment_offset ← read_u16 input 6
  ttl ← get_elem? input 8
  protocol ← get_elem? input 9
  header_checksum ← read_u16 input 10
  source_address ← read_u32 input 12
  destination_address ← read_u32 input 16
  some (record {
    version = version;
    ihl = ihl;
    dscp_ecn = dscp_ecn;
    total_length = total_length;
    identification = identification;
    flags_fragment_offset = flags_fragment_offset;
    ttl = ttl;
    protocol = protocol;
    header_checksum = header_checksum;
    source_address = source_address;
    destination_address = destination_address;
  })

-- The last test of `parse`.
unfoldable pub accept : List ℕ → ℕ → Ipv4 → Option Ipv4
accept input header_size p =
    if not (validate p)
      || ltb (length input) p.total_length
      || not (internet (take header_size input) == 0)
    then none
    else some p

-- `parse` from the tests of the version and of the header's length on.
unfoldable pub parse_header : List ℕ → ℕ → Option (Option Ipv4)
parse_header input first =
    if not (first / 16 == 4) || not (first % 16 == 5) || ltb (length input) (first % 16 * 4)
    then some none
    else (do
      p ← parse_fields input (first / 16) (first % 16)
      some (accept input (first % 16 * 4) p))

-- `IPv4::parse`. The outer option is `none` if a byte outside the input is read.
unfoldable pub parse : List ℕ → Option (Option Ipv4)
parse input =
    if ltb (length input) 20
    then some none
    else (do first ← get_elem? input 0; parse_header input first)
