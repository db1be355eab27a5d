-- ===== src/Packet/Icmp/RoundTrip.antt =====
-- An ICMP message that is serialized carries a checksum that verifies, and parses back.
use skan.Base.{
  ℕ, suc, ◌+◌, ◌*◌, ◌/◌, ◌%◌, ◌<◌, ◌≡◌, refl, ap, some, List, [], ◌∷◌, ◌++◌, arith, length, take,
  replicate, length-replicate, true, false, ltb,
}
use skan.Core.{ok}
use skan.Packet.Wire.{AllBytes, overwrite-replicate}
use skan.Packet.Checksum.{internet}
use skan.Packet.Checksum.OnesComplement.{stored_checksum_verifies, internet-lt}
use skan.Packet.Icmp.{
  Icmp, IcmpType, echo_reply, destination_unreachable, echo_request, unnamed, type_number, is_known,
  known_type, serialized_size, validate, write_message, serialize, parse_rest, parse_typed, parse,
}

-- The fields that are words of the width that they have on the wire.
pub record IsInRange (p : Icmp) : Type 0 where
  pub code : p.code < 256
  pub identifier : p.identifier < 65536
  pub sequence : p.sequence < 65536
  pub payload : AllBytes p.payload

-- What comes before and after the checksum.
abbrev front : Icmp → List ℕ
front p = type_number p.type ∷ p.code ∷ []

abbrev behind : Icmp → List ℕ
behind p =
    p.identifier / 256 % 256
    ∷ p.identifier % 256
    ∷ p.sequence / 256 % 256
    ∷ p.sequence % 256
    ∷ p.payload

-- The checksum that `serialize` calculates, and the message with it.
abbrev pub checksum_of : Icmp → ℕ
checksum_of p = internet (front p ++ (0 ∷ 0 ∷ behind p))

abbrev pub with_checksum : Icmp → Icmp
with_checksum p = record p { checksum = checksum_of p }

abbrev message : Icmp → List ℕ
message p = front p ++ (checksum_of p / 256 % 256 ∷ checksum_of p % 256 ∷ behind p)

zeroed : (n : ℕ) → replicate {A = ℕ} (8 + n) 0 ≡ 0 ∷ 0 ∷ 0 ∷ 0 ∷ 0 ∷ 0 ∷ 0 ∷ 0 ∷ replicate n 0
zeroed n =
    let e : 8 + n ≡ suc (suc (suc (suc (suc (suc (suc (suc n))))))) = omega arith in
    ap (λ (k : ℕ). replicate {A = ℕ} k 0) e

take_all : (xs : List ℕ) → take (length xs) xs ≡ xs
take_all [] = refl
take_all (x ∷ xs) = ap (◌∷◌ x) (take_all xs)

small_number : (t : IcmpType) → is_known t ≡ true → type_number t < 256
small_number echo_reply h = omega arith
small_number destination_unreachable h = omega arith
small_number echo_request h = omega arith
small_number (unnamed n) h = absurd (ground arith)

known_type-type_number : (t : IcmpType) → is_known t ≡ true → known_type (type_number t) ≡ some t
unfolding known_type
known_type-type_number echo_reply h = refl
known_type-type_number destination_unreachable h = refl
known_type-type_number echo_request h = refl
known_type-type_number (unnamed n) h = absurd (ground arith)

validate-is_known : (p : Icmp) → validate p ≡ true → is_known p.type ≡ true
unfolding validate
validate-is_known p v = ground arith

-- The two bytes of the first word.
first_word :
    (p : Icmp)
    → IsInRange p
    → validate p ≡ true
    → ((type_number p.type % 256 * 256 + p.code) / 256 % 256 ≡ type_number p.type)
      × ((type_number p.type % 256 * 256 + p.code) % 256 ≡ p.code)
first_word p r v =
    let small = small_number p.type (validate-is_known p v) in
    (omega (arith, small, r.code), omega (arith, small, r.code))

write_message_zeros :
    (p : Icmp)
    → IsInRange p
    → validate p ≡ true
    → write_message p (0 ∷ 0 ∷ 0 ∷ 0 ∷ 0 ∷ 0 ∷ 0 ∷ 0 ∷ replicate (length p.payload) 0)
      ≡ front p ++ (0 ∷ 0 ∷ behind p)
unfolding write_message
write_message_zeros p r v =
    let (high, low) = first_word p r v in rw (high, low, overwrite-replicate p.payload) refl

serialize_zeros :
    (p : Icmp)
    → IsInRange p
    → validate p ≡ true
    → serialize p (replicate (serialized_size p) 0) ≡ (ok, message p)
unfolding serialize
serialize_zeros p r v =
    let n = length p.payload in
    let long : ltb (length (replicate {A = ℕ} (8 + n) 0)) (8 + n) ≡ false =
      ground (arith, length-replicate {A = ℕ} (8 + n) 0) in
    let eight : 8 + n ≡ suc (suc (suc (suc (suc (suc (suc (suc n))))))) = omega arith in
    let (high, low) = first_word p r v in
    rw
      (
        v,
        long,
        zeroed n,
        write_message_zeros p r v,
        eight,
        take_all p.payload,
        high,
        low,
        overwrite-replicate p.payload,
      )
      refl

AllBytes-front : (p : Icmp) → IsInRange p → validate p ≡ true → AllBytes (front p)
AllBytes-front p r v = (small_number p.type (validate-is_known p v), (r.code, tt))

AllBytes-behind : (p : Icmp) → IsInRange p → AllBytes (behind p)
AllBytes-behind p r = (omega arith, (omega arith, (omega arith, (omega arith, r.payload))))

checksum_verifies : (p : Icmp) → IsInRange p → validate p ≡ true → internet (message p) ≡ 0
checksum_verifies p r v =
    stored_checksum_verifies (front p) (behind p) tt (AllBytes-front p r v) (AllBytes-behind p r)

word16 : (n : ℕ) → n < 65536 → n / 256 % 256 * 256 + n % 256 ≡ n
word16 n h = omega arith

parse_lem :
    (p : Icmp) → IsInRange p → validate p ≡ true → parse (message p) ≡ some (some (with_checksum p))
unfolding parse parse_typed parse_rest
parse_lem p r v =
    let long : ltb (length (message p)) 8 ≡ false = ground arith in
    rw
      (
        long,
        known_type-type_number p.type (validate-is_known p v),
        checksum_verifies p r v,
        word16 p.identifier r.identifier,
        word16 p.sequence r.sequence,
        word16 (checksum_of p) (internet-lt (front p ++ (0 ∷ 0 ∷ behind p))),
      )
      refl

-- A valid message with fields and bytes in range, serialized into a zeroed buffer of its size, has the
-- checksum zero as a whole and parses back to the same message with the calculated checksum.
pub icmp-parse-serialize :
    (p : Icmp)
    → IsInRange p
    → validate p ≡ true
    → let (status, bytes) = serialize p (replicate (serialized_size p) 0) in
      (status ≡ ok) × ((internet bytes ≡ 0) × (parse bytes ≡ some (some (with_checksum p))))
icmp-parse-serialize p r v =
    rw (serialize_zeros p r v) (refl, (checksum_verifies p r v, parse_lem p r v))
