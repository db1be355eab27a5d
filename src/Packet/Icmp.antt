-- ===== src/Packet/Icmp.antt =====
-- include/packet/icmp.hpp and src/packet/icmp.cpp: ICMP echo messages and errors.
pub mod RoundTrip
mod Tests
use skan.Base.{
  ℕ, ◌+◌, ◌*◌, ◌/◌, ◌%◌, ◌^◌, Bool, true, false, ◌&&◌, ◌||◌, not, Option, none, some, List, [], ◌∷◌,
  ltb, leb, ◌==◌, if◌then◌else◌, length, take, drop, set, get_elem?,
}
use skan.Core.{StatusCode, ok, invalid_argument}
use skan.Packet.Wire.{◌>>=◌, write_u16, read_u16, copy_to}
use skan.Packet.Checksum.{internet}

-- `enum class IcmpType`, with the values that it does not name.
pub data IcmpType : Type 0 where
  echo_reply destination_unreachable echo_request : IcmpType
  unnamed : ℕ → IcmpType

abbrev pub type_number : IcmpType → ℕ
type_number echo_reply = 0
type_number destination_unreachable = 3
type_number echo_request = 8
type_number (unnamed n) = n

-- The types that `validate` admits.
abbrev pub is_known : IcmpType → Bool
is_known echo_reply = true
is_known destination_unreachable = true
is_known echo_request = true
is_known (unnamed n) = false

-- `class ICMP`
pub record Icmp : Type 0 where
  pub type : IcmpType
  pub code : ℕ
  pub identifier : ℕ
  pub sequence : ℕ
  pub checksum : ℕ
  pub payload : List ℕ

-- `serialized_size`
abbrev pub serialized_size : Icmp → ℕ
serialized_size p = 8 + length p.payload

-- `validate`
unfoldable pub validate : Icmp → Bool
validate p = is_known p.type && leb (serialized_size p) 65535

-- The writes of `serialize` before the checksum is calculated.
unfoldable pub write_message : Icmp → List ℕ → List ℕ
write_message p o0 =
    let o1 = write_u16 o0 0 (type_number p.type % 256 * 256 + p.code) in
    let o2 = write_u16 o1 2 0 in
    let o3 = write_u16 o2 4 p.identifier in
    let o4 = write_u16 o3 6 p.sequence in copy_to o4 8 p.payload

-- `serialize`; the span is returned as it is left.
unfoldable pub serialize : Icmp → List ℕ → StatusCode × List ℕ
unfolding validate write_message
serialize p output =
    if not (validate p) || ltb (length output) (serialized_size p)
    then (invalid_argument, output)
    else (
      ok,
      (let message = write_message p output in
          write_u16 message 2 (internet (take (serialized_size p) message))),
    )

-- The type of a first byte that `parse` accepts.
unfoldable pub known_type : ℕ → Option IcmpType
known_type raw =
    if raw == 8
    then some echo_request
    else if raw == 0
    then some echo_reply
    else if raw == 3
    then some destination_unreachable
    else none

-- The reads of `parse` behind the type, and the test of the checksum.
unfoldable pub parse_rest : List ℕ → IcmpType → Option (Option Icmp)
parse_rest input type = do
  code ← get_elem? input 1
  checksum ← read_u16 input 2
  identifier ← read_u16 input 4
  sequence ← read_u16 input 6
  some (
      if not (internet input == 0)
      then none
      else some (record {
        type = type;
        code = code;
        identifier = identifier;
        sequence = sequence;
        checksum = checksum;
        payload = drop 8 input;
      }))

unfoldable pub parse_typed : List ℕ → Option IcmpType → Option (Option Icmp)
unfolding parse_rest
parse_typed input none = some none
parse_typed input (some type) = parse_rest input type

-- `parse`. The outer option is `none` where a byte outside the input is read.
unfoldable pub parse : List ℕ → Option (Option Icmp)
unfolding known_type parse_typed
parse input =
    if ltb (length input) 8
    then some none
    else (do raw ← get_elem? input 0; parse_typed input (known_type raw))
