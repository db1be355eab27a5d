-- ===== src/Packet/Ipv4/RoundTrip.antt =====
-- An IPv4 header that is serialized parses back with its checksum, and parsing stays in its input.
use skan.Base.{
  ℕ, ◌+◌, ◌*◌, ◌/◌, ◌%◌, ◌^◌, ◌≤◌, ◌<◌, ◌≡◌, refl, some, List, [], ◌∷◌, ◌++◌, arith, length,
  replicate, true, false, ltb,
}
use skan.Core.{ok}
use skan.Packet.Wire.{AllBytes}
use skan.Packet.Checksum.{internet}
use skan.Packet.Checksum.OnesComplement.{internet-lt, stored_checksum_verifies}
use skan.Packet.Ipv4.{Ipv4, validate, serialize, parse, parse_header, parse_fields, accept}

-- The fields fit the integers of the source.
pub record IsInRange (p : Ipv4) : Type 0 where
  pub dscp_ecn : p.dscp_ecn < 256
  pub total_length : p.total_length < 65536
  pub identification : p.identification < 65536
  pub flags_fragment_offset : p.flags_fragment_offset < 65536
  pub ttl : p.ttl < 256
  pub protocol : p.protocol < 256
  pub source_address : p.source_address < 2 ^ 32
  pub destination_address : p.destination_address < 2 ^ 32

-- The ten bytes before the checksum, and the eight bytes of the addresses.
abbrev front : Ipv4 → List ℕ
front p =
    0x45
    ∷ p.dscp_ecn
    ∷ p.total_length / 256 % 256
    ∷ p.total_length % 256
    ∷ p.identification / 256 % 256
    ∷ p.identification % 256
    ∷ p.flags_fragment_offset / 256 % 256
    ∷ p.flags_fragment_offset % 256
    ∷ p.ttl
    ∷ p.protocol
    ∷ []

abbrev word_bytes : ℕ → List ℕ → List ℕ
word_bytes a rest = a / 2 ^ 24 % 256 ∷ a / 2 ^ 16 % 256 ∷ a / 2 ^ 8 % 256 ∷ a % 256 ∷ rest

abbrev addresses : Ipv4 → List ℕ → List ℕ
addresses p rest = word_bytes p.source_address (word_bytes p.destination_address rest)

abbrev checksum_of : Ipv4 → ℕ
checksum_of p = internet (front p ++ (0 ∷ 0 ∷ addresses p []))

abbrev header_then : Ipv4 → List ℕ → List ℕ
header_then p rest = front p ++ (checksum_of p / 256 % 256 ∷ checksum_of p % 256 ∷ addresses p rest)

valid_fields :
    (p : Ipv4) → validate p ≡ true → (p.version ≡ 4) × (p.ihl ≡ 5) × (20 ≤ p.total_length)
unfolding validate
valid_fields p v = ground arith

serialize_header :
    (p : Ipv4) (payload : List ℕ)
    → validate p ≡ true
    → serialize p (replicate 20 0 ++ payload) ≡ (ok, header_then p payload)
unfolding serialize
serialize_header p payload v =
    let (e, f, h) = valid_fields p v in
    let long : ltb (20 + length payload) 20 ≡ false = ground arith in
    let size : length (replicate {A = ℕ} 20 0 ++ payload) ≡ 20 + length payload = omega arith in
    rw (v, e, f, size, long)

word16 : (n : ℕ) → n < 65536 → n / 256 % 256 * 256 + n % 256 ≡ n
word16 n h = omega arith

word32 :
    (n : ℕ)
    → n < 2 ^ 32
    → n / 2 ^ 24 % 256 * 2 ^ 24 + n / 2 ^ 16 % 256 * 2 ^ 16 + n / 2 ^ 8 % 256 * 2 ^ 8 + n % 256 ≡ n
word32 n h = omega arith

AllBytes-front : (p : Ipv4) → IsInRange p → AllBytes (front p)
AllBytes-front p r = omega arith

AllBytes-addresses : (p : Ipv4) → AllBytes (addresses p [])
AllBytes-addresses p = omega arith

checksum_verifies : (p : Ipv4) → IsInRange p → internet (header_then p []) ≡ 0
checksum_verifies p r =
    stored_checksum_verifies (front p) (addresses p []) tt (AllBytes-front p r)
      (AllBytes-addresses p)

-- The header with the checksum that `serialize` stores.
abbrev pub with_checksum : Ipv4 → Ipv4
with_checksum p = record p { header_checksum = checksum_of p }

parse_fields-header_then :
    (p : Ipv4) (payload : List ℕ)
    → IsInRange p
    → parse_fields (header_then p payload) 4 5
      ≡ some (record (with_checksum p) { version = 4; ihl = 5 })
unfolding parse_fields
parse_fields-header_then p payload r = rw (
  word16 p.total_length r.total_length,
  word16 p.identification r.identification,
  word16 p.flags_fragment_offset r.flags_fragment_offset,
  word16 (checksum_of p) (internet-lt (front p ++ (0 ∷ 0 ∷ addresses p []))),
  word32 p.source_address r.source_address,
  word32 p.destination_address r.destination_address,
)

-- What the two ways of writing the parsed header have in common: version and length are those of
-- a valid header.
accept-header_then :
    (p : Ipv4) (payload : List ℕ)
    → IsInRange p
    → validate p ≡ true
    → p.total_length ≤ 20 + length payload
    → accept (header_then p payload) 20 (record (with_checksum p) { version = 4; ihl = 5 })
      ≡ some (with_checksum p)
unfolding accept validate
accept-header_then p payload r v l = ground (arith, valid_fields p v, checksum_verifies p r)

parse-header_then :
    (p : Ipv4) (payload : List ℕ)
    → IsInRange p
    → validate p ≡ true
    → p.total_length ≤ 20 + length payload
    → parse (header_then p payload) ≡ some (some (with_checksum p))
unfolding parse parse_header
parse-header_then p payload r v l =
    let long : ltb (length (header_then p payload)) 20 ≡ false = ground arith in
    rw (long, parse_fields-header_then p payload r, accept-header_then p payload r v l)

-- A valid header with fields in range, serialized in front of a payload that reaches its total
-- length, parses back to the same header with the calculated checksum.
pub ipv4-parse-serialize :
    (p : Ipv4) (payload : List ℕ)
    → IsInRange p
    → validate p ≡ true
    → p.total_length ≤ 20 + length payload
    → let (status, bytes) = serialize p (replicate 20 0 ++ payload) in
      (status ≡ ok) × (parse bytes ≡ some (some (with_checksum p)))
ipv4-parse-serialize p payload r v l =
    rw (serialize_header p payload v) (refl, parse-header_then p payload r v l)
