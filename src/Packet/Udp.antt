-- ===== src/Packet/Udp.antt =====
-- include/packet/udp.hpp and src/packet/udp.cpp: UDP headers and their checksums.
pub mod RoundTrip
mod Tests
use skan.Base.{
  ℕ, ◌+◌, ◌%◌, ◌^◌, Bool, true, false, ◌||◌, not, Option, none, some, List, [], ◌∷◌, ltb, leb, ◌==◌,
  if◌then◌else◌, length, drop, replicate,
}
use skan.Core.{StatusCode, ok, invalid_argument, is_ok}
use skan.Packet.Wire.{◌>>=◌, write_u16, read_u16, overwrite, copy_to}
use skan.Packet.Checksum.{ipv4_pseudo_header, ipv6_pseudo_header}

-- `class UDP`
pub record Udp : Type 0 where
  pub source_port : ℕ
  pub destination_port : ℕ
  pub checksum : ℕ
  pub payload : List ℕ

-- `serialized_size`
abbrev pub serialized_size : Udp → ℕ
serialized_size u = 8 + length u.payload

-- `length`
abbrev pub length_field : Udp → ℕ
length_field u = serialized_size u % 2 ^ 16

-- `validate`
unfoldable pub validate : Udp → Bool
validate u = leb (serialized_size u) 65535

-- `serialize`; the span is returned as it is left.
unfoldable pub serialize : Udp → List ℕ → StatusCode × List ℕ
unfolding validate
serialize u output =
    if not (validate u) || ltb (length output) (serialized_size u)
    then (invalid_argument, output)
    else (ok, copy_to header 8 u.payload)
  where
    header : List ℕ
    header =
        write_u16
          (write_u16 (write_u16 (write_u16 output 0 u.source_port) 2 u.destination_port) 4
            (length_field u))
          6 u.checksum

-- A calculated checksum of zero is sent as all ones.
abbrev sent_checksum : ℕ → ℕ
sent_checksum calculated = if calculated == 0 then 65535 else calculated

-- What `serialize_with_checksum` and `checksum_for_ipv4` or `checksum_for_ipv6` share: the segment
-- with a zero checksum field, if it can be built.
cleared : Udp → Option (List ℕ)
cleared u =
    let (status, bytes) = serialize u (replicate (serialized_size u) 0) in
    if is_ok status then some (write_u16 bytes 6 0) else none

-- `serialize_with_checksum`, for the pseudo header of one of the two versions.
serialize_with : (List ℕ → ℕ) → Udp → List ℕ → StatusCode × List ℕ
unfolding cleared
serialize_with pseudo u output =
    if not (validate u) || ltb (length output) (serialized_size u)
    then (invalid_argument, output)
    else elim (cleared u) [
      | none ↦ (invalid_argument, output)
      | some bytes ↦ (ok, overwrite output (write_u16 bytes 6 (sent_checksum (pseudo bytes))))
    ]

checksum_with : (List ℕ → ℕ) → Udp → ℕ
unfolding cleared
checksum_with pseudo u =
    if not (validate u)
    then 0
    else elim (cleared u) [ none ↦ 0 | some bytes ↦ sent_checksum (pseudo bytes) ]

-- `serialize_with_checksum` with IPv4 addresses
unfoldable pub serialize_with_checksum_ipv4 : Udp → List ℕ → ℕ → ℕ → StatusCode × List ℕ
unfolding serialize_with
serialize_with_checksum_ipv4 u output source destination =
    serialize_with (ipv4_pseudo_header source destination 17) u output

-- `serialize_with_checksum` with IPv6 addresses
unfoldable pub serialize_with_checksum_ipv6 : Udp → List ℕ → List ℕ → List ℕ → StatusCode × List ℕ
unfolding serialize_with
serialize_with_checksum_ipv6 u output source destination =
    serialize_with (ipv6_pseudo_header source destination 17) u output

-- `checksum_for_ipv4`
unfoldable pub checksum_for_ipv4 : Udp → ℕ → ℕ → ℕ
unfolding checksum_with
checksum_for_ipv4 u source destination = checksum_with (ipv4_pseudo_header source destination 17) u

-- `checksum_for_ipv6`
unfoldable pub checksum_for_ipv6 : Udp → List ℕ → List ℕ → ℕ
unfolding checksum_with
checksum_for_ipv6 u source destination = checksum_with (ipv6_pseudo_header source destination 17) u

-- `UDP::parse`. The outer option is `none` if a byte outside the input is read.
unfoldable pub parse : List ℕ → Option (Option Udp)
parse input =
    let fields = do
      source_port ← read_u16 input 0
      destination_port ← read_u16 input 2
      size ← read_u16 input 4
      checksum ← read_u16 input 6
      some (
          if ltb size 8 || not (size == length input)
          then none
          else some (record {
            source_port = source_port;
            destination_port = destination_port;
            checksum = checksum;
            payload = drop 8 input;
          }))
    in if ltb (length input) 8 then some none else fields
