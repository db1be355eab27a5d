-- ===== src/Packet/Udp/RoundTrip.antt =====
-- A UDP header that is serialized parses back, and parsing reads nothing outside its input.
use skan.Base.{
  ℕ, suc, ◌+◌, ◌/◌, ◌%◌, ◌≤◌, ◌<◌, ◌≡◌, ◌≢◌, refl, ap, ◌∙◌, none, some, List, ◌∷◌, arith, length,
  replicate, length-replicate, true, Bool-cases, ltb, ltb→le, inl, inr,
}
use skan.Core.{ok}
use skan.Packet.Wire.{overwrite, overwrite-replicate, read_u16-some}
use skan.Packet.Udp.{Udp, serialized_size, length_field, validate, serialize, parse}

-- The ports and the checksum are 16-bit words.
pub record IsWord16 (u : Udp) : Type 0 where
  pub source_port : u.source_port < 65536
  pub destination_port : u.destination_port < 65536
  pub checksum : u.checksum < 65536

-- The header of `u`, and then the given bytes.
abbrev header_then : Udp → List ℕ → List ℕ
header_then u rest =
    u.source_port / 256 % 256
    ∷ u.source_port % 256
    ∷ u.destination_port / 256 % 256
    ∷ u.destination_port % 256
    ∷ length_field u / 256 % 256
    ∷ length_field u % 256
    ∷ u.checksum / 256 % 256
    ∷ u.checksum % 256
    ∷ rest

-- Into a buffer that is long enough, `serialize` writes the header and the payload and leaves the
-- rest.
serialize_into :
    (u : Udp) (a b c d e f g h : ℕ) (rest : List ℕ)
    → validate u ≡ true
    → length u.payload ≤ length rest
    → serialize u (a ∷ b ∷ c ∷ d ∷ e ∷ f ∷ g ∷ h ∷ rest)
      ≡ (ok, header_then u (overwrite rest u.payload))
unfolding serialize
serialize_into u a b c d e f g h rest v l = ground arith

zeroed : (n : ℕ) → replicate {A = ℕ} (8 + n) 0 ≡ 0 ∷ 0 ∷ 0 ∷ 0 ∷ 0 ∷ 0 ∷ 0 ∷ 0 ∷ replicate n 0
zeroed n =
    let e : 8 + n ≡ suc (suc (suc (suc (suc (suc (suc (suc n))))))) = omega arith in
    ap (λ (k : ℕ). replicate {A = ℕ} k 0) e

parse-header_then :
    (u : Udp) → IsWord16 u → validate u ≡ true → parse (header_then u u.payload) ≡ some (some u)
unfolding parse validate
parse-header_then u w v = ground arith

serialize_zeroed :
    (u : Udp)
    → validate u ≡ true
    → serialize u (replicate (serialized_size u) 0) ≡ (ok, header_then u u.payload)
serialize_zeroed u v =
    ap (serialize u) (zeroed (length u.payload))
    ∙ serialize_into u 0 0 0 0 0 0 0 0 (replicate (length u.payload) 0) v
        (omega (arith, length-replicate {A = ℕ} (length u.payload) 0))
    ∙ ap (λ p. (ok, header_then u p)) (overwrite-replicate u.payload)

-- A valid header with word-sized fields, serialized into a zeroed buffer of its size, parses back to
-- the same header, checksum and payload.
pub udp-parse-serialize :
    (u : Udp)
    → IsWord16 u
    → validate u ≡ true
    → let (status, bytes) = serialize u (replicate (serialized_size u) 0) in
      (status ≡ ok) × (parse bytes ≡ some (some u))
udp-parse-serialize u w v = rw (serialize_zeroed u v) (refl, parse-header_then u w v)

-- Whatever the input, `parse` reads no byte outside it.
pub parse_in_bounds : (input : List ℕ) → parse input ≢ none
unfolding parse
parse_in_bounds input = elim (Bool-cases (ltb (length input) 8)) [
  | inl short ↦ rw short (λ e. cc)
  | inr long ↦
      let bound = ltb→le (length input) 8 long in
      let (a, ea) = read_u16-some input 0 (omega arith) in
      let (b, eb) = read_u16-some input 2 (omega arith) in
      let (c, ec) = read_u16-some input 4 (omega arith) in
      let (d, ed) = read_u16-some input 6 (omega arith) in rw (long, ea, eb, ec, ed) (λ e. cc)
]
