-- ===== src/Packet/Ipv6/RoundTrip.antt =====
-- An IPv6 header that is serialized parses back.
use skan.Base.{
  ℕ, ◌+◌, ◌*◌, ◌/◌, ◌%◌, ◌^◌, ◌≤◌, ◌<◌, ◌≡◌, refl, sym, ap, ◌∙◌, some, List, [], ◌∷◌, ◌++◌, arith,
  length, length-append, take, drop, replicate, true,
}
use mathlib.Core.Path.{subst}
use mathlib.Core.List.{append_assoc, append-nil}
use skan.Core.{ok}
use skan.Packet.Wire.{overwrite, copy_to, overwrite-replicate}
use skan.Packet.Wire.Splice.{overwrite-append, copy_behind, take_front, drop_front}
use skan.Packet.Ipv6.{Ipv6, validate, serialize, parse, parse_fields}

-- The fields that are words of the width that they have on the wire, and the addresses.
pub record IsInRange (p : Ipv6) : Type 0 where
  pub traffic_class : p.traffic_class < 256
  pub payload_length : p.payload_length < 65536
  pub next_header : p.next_header < 256
  pub hop_limit : p.hop_limit < 256
  pub source_address : length p.source_address ≡ 16
  pub destination_address : length p.destination_address ≡ 16

-- The bytes before the addresses.
abbrev front : Ipv6 → List ℕ
front p =
    (p.version * 16 + p.traffic_class / 16) % 256
    ∷ (p.traffic_class * 16 + p.flow_label / 2 ^ 16 % 16) % 256
    ∷ p.flow_label / 256 % 256
    ∷ p.flow_label % 256
    ∷ p.payload_length / 256 % 256
    ∷ p.payload_length % 256
    ∷ p.next_header
    ∷ p.hop_limit
    ∷ []

abbrev zeros16 : List ℕ
zeros16 = replicate 16 0

overwrite_zeros : (b : List ℕ) → length b ≡ 16 → overwrite zeros16 b ≡ b
overwrite_zeros b h = subst (λ n. overwrite (replicate n 0) b ≡ b) h (overwrite-replicate b)

address_copies :
    (a b : List ℕ)
    → length a ≡ 16
    → length b ≡ 16
    → copy_to (overwrite (zeros16 ++ zeros16) a) 16 b ≡ a ++ b
address_copies a b h k =
    let first : overwrite (zeros16 ++ zeros16) a ≡ a ++ zeros16 =
      ap (overwrite (zeros16 ++ zeros16)) (sym (append-nil a))
      ∙ overwrite-append zeros16 zeros16 a [] (sym h) in
    ap (λ o. copy_to o 16 b) first
    ∙ ap (λ n. copy_to (a ++ zeros16) n b) (sym h)
    ∙ copy_behind a zeros16 b
    ∙ ap (◌++◌ a) (overwrite_zeros b k)

-- The two copies fill the rest.
copies :
    (p : Ipv6)
    → IsInRange p
    → copy_to
        (copy_to (front p ++ (zeros16 ++ zeros16)) 8 p.source_address)
        24
        p.destination_address
      ≡ front p ++ (p.source_address ++ p.destination_address)
copies p r =
    ap (◌++◌ (front p))
      (address_copies p.source_address p.destination_address r.source_address r.destination_address)

serialize_zeros :
    (p : Ipv6)
    → IsInRange p
    → validate p ≡ true
    → serialize p (replicate 40 0) ≡ (ok, front p ++ (p.source_address ++ p.destination_address))
unfolding serialize
serialize_zeros p r v = rw v (ap (λ x. (ok, x)) (copies p r))

-- The addresses are found behind the first bytes.
addresses_read :
    (a b rest : List ℕ)
    → length a ≡ 16
    → length b ≡ 16
    → (take 16 (a ++ (b ++ rest)) ≡ a) × (take 16 (drop 16 (a ++ (b ++ rest))) ≡ b)
addresses_read a b rest h k = (
  ap (λ n. take n (a ++ (b ++ rest))) (sym h) ∙ take_front a (b ++ rest),
  ap (λ n. take 16 (drop n (a ++ (b ++ rest)))) (sym h)
      ∙ ap (take 16) (drop_front a (b ++ rest))
      ∙ ap (λ n. take n (b ++ rest)) (sym k)
      ∙ take_front b rest,
)

parse-front :
    (p : Ipv6) (behind : List ℕ)
    → IsInRange p
    → validate p ≡ true
    → 32 + p.payload_length ≤ length behind
    → parse (front p ++ behind)
      ≡ some (
          some (record p {
            source_address = take 16 behind;
            destination_address = take 16 (drop 16 behind);
          }))
unfolding parse parse_fields validate
parse-front p behind r v fits = ground arith

parse_lem :
    (p : Ipv6) (payload : List ℕ)
    → IsInRange p
    → validate p ≡ true
    → p.payload_length ≤ length payload
    → parse ((front p ++ (p.source_address ++ p.destination_address)) ++ payload) ≡ some (some p)
parse_lem p payload r v fits =
    let a = p.source_address in
    let b = p.destination_address in
    let (source, destination) = addresses_read a b payload r.source_address r.destination_address in
    ap parse (ap (◌++◌ (front p)) (append_assoc a b payload))
    ∙ parse-front p (a ++ (b ++ payload)) r v (
        omega (
          arith,
          length-append a (b ++ payload),
          length-append b payload,
          r.source_address,
          r.destination_address,
          fits,
        ))
    ∙ ap
        (λ x. some (
          some (record p {
            source_address = x;
            destination_address = take 16 (drop 16 (a ++ (b ++ payload)));
          })))
        source
    ∙ ap (λ y. some (some (record p { destination_address = y }))) destination

-- A valid header with fields and addresses in range, serialized into a zeroed buffer of 40 bytes and
-- followed by at least the bytes that its payload length says, parses back to the same header.
pub ipv6-parse-serialize :
    (p : Ipv6) (payload : List ℕ)
    → IsInRange p
    → validate p ≡ true
    → p.payload_length ≤ length payload
    → let (status, header) = serialize p (replicate 40 0) in
      (status ≡ ok) × (parse (header ++ payload) ≡ some (some p))
ipv6-parse-serialize p payload r v fits =
    rw (serialize_zeros p r v) (refl, parse_lem p payload r v fits)
