-- ===== src/Packet/Tcp/Fields.antt =====
-- What `TCP::parse` of src/packet/tcp.cpp returns, field by field, in terms of the bytes of the input.
use skan.Base.{
  ℕ, ◌*◌, ◌/◌, ◌≤◌, ◌≡◌, refl, Option, none, some, List, [], ltb, ◌||◌, length, get_elem?, drop,
  get_elem?-some, Bool-cases, Option-cases, inl, inr, arith,
}
use mathlib.Core.Path.{subst}
use skan.Packet.Wire.{read_u16, read_u32, read_u16-some, read_u32-some}
use skan.Packet.Tcp.{Tcp, TcpOption}
use skan.Packet.Tcp.Parse.{read_fixed, parse_options, with_options, parse_from, parse}

-- The ports, the numbers and the flags of the segment are those bytes of the input.
pub record Shows (input : List ℕ) (t : Tcp) : Type 0 where
  pub source : read_u16 input 0 ≡ some t.source_port
  pub destination : read_u16 input 2 ≡ some t.destination_port
  pub sequence : read_u32 input 4 ≡ some t.sequence_number
  pub acknowledgment : read_u32 input 8 ≡ some t.acknowledgment_number
  pub flag_byte : get_elem? input 13 ≡ some t.flags

-- The result, if there is one.
abbrev Shown : List ℕ → Option (Option Tcp) → Type 0
Shown input (some (some t)) = Shows input t
Shown input _ = Unit

read_fixed-Shows :
    (input : List ℕ) (data_offset : ℕ)
    → 20 ≤ length input
    → (t : Tcp) × (read_fixed input data_offset ≡ some t) × Shows input t
unfolding read_fixed
read_fixed-Shows input data_offset h =
    let (a, ea) = read_u16-some input 0 (omega arith) in
    let (b, eb) = read_u16-some input 2 (omega arith) in
    let (c, ec) = read_u32-some input 4 (omega arith) in
    let (d, ed) = read_u32-some input 8 (omega arith) in
    let (e, ee) = get_elem?-some input 13 (omega arith) in
    let (f, ef) = read_u16-some input 14 (omega arith) in
    let (g, eg) = read_u16-some input 16 (omega arith) in
    let (i, ei) = read_u16-some input 18 (omega arith) in
    (
      record {
        source_port = a;
        destination_port = b;
        sequence_number = c;
        acknowledgment_number = d;
        data_offset = data_offset;
        flags = e;
        window = f;
        checksum = g;
        urgent_pointer = i;
        options = [];
        payload = [];
      },
      rw (ea, eb, ec, ed, ee, ef, eg, ei) refl,
      record { source = ea; destination = eb; sequence = ec; acknowledgment = ed; flag_byte = ee },
    )

kept :
    (input : List ℕ) (t : Tcp) (options : List TcpOption) (payload : List ℕ)
    → Shows input t
    → Shows input (record t { options = options; payload = payload })
kept input t options payload h = record {
  source = h.source;
  destination = h.destination;
  sequence = h.sequence;
  acknowledgment = h.acknowledgment;
  flag_byte = h.flag_byte;
}

with_options-Shown :
    (input : List ℕ) (header_size : ℕ) (t : Tcp) (options : Option (List TcpOption))
    → Shows input t
    → Shown input (some (with_options input header_size t options))
unfolding with_options
with_options-Shown input header_size t none h = tt
with_options-Shown input header_size t (some options) h =
    let k = kept input t options (drop header_size input) h in ground (arith, k)

parse_from-Shown :
    (input : List ℕ) (data_offset : ℕ)
    → 20 ≤ length input
    → Shown input (parse_from input data_offset)
unfolding parse_from
parse_from-Shown input data_offset h =
    elim (Bool-cases
      (ltb data_offset 5 || ltb 15 data_offset || ltb (length input) (data_offset * 4))) [
        | inl e ↦ rw e tt
        | inr e ↦
            let (t, et, shows) = read_fixed-Shows input data_offset h in
            elim (Option-cases (parse_options (data_offset * 4) input (data_offset * 4) 20 [])) [
              | inl eo ↦ rw (e, et, eo) tt
              | inr (os, eo) ↦
                  rw (e, et, eo) (with_options-Shown input (data_offset * 4) t os shows)
            ]
      ]

parse-Shown : (input : List ℕ) → Shown input (parse input)
unfolding parse
parse-Shown input = elim (Bool-cases (ltb (length input) 20)) [
  | inl e ↦ rw e tt
  | inr e ↦
      let h : 20 ≤ length input = ground arith in
      let (byte, eb) = get_elem?-some input 12 (omega arith) in
      rw (e, eb) (parse_from-Shown input (byte / 16) h)
]

pub parse-Shows : (input : List ℕ) (t : Tcp) → parse input ≡ some (some t) → Shows input t
parse-Shows input t e = subst (λ o. Shown input o) e (parse-Shown input)
