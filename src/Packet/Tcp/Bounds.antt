-- ===== src/Packet/Tcp/Bounds.antt =====
-- `TCP::parse` of src/packet/tcp.cpp on arbitrary input: it ends, reads only the input, and what it
-- returns fits the header.
use skan.Base.{
  ℕ, zero, suc, ◌+◌, ◌*◌, ◌/◌, ◌≤◌, ◌<◌, ◌≡◌, refl, false, ◌||◌, Option, none, some, List, [], ◌∷◌,
  ◌++◌, ltb, leb, ◌==◌, length, get_elem?-some, arith, Bool-cases, inl, inr, length-drop, ltb→lt,
}
use skan.Packet.Wire.{read_u16-some, read_u32-some}
use skan.Packet.Tcp.{Tcp, TcpOption, option_size, options_size}
use skan.Packet.Tcp.Parse.{
  OptionStep, ends, refuses, skips, takes, read_mss, read_window_scale, read_timestamp, read_known,
  read_sized, read_option, parse_options, after_step, with_options, read_fixed, parse_from, parse,
}

module _ (input : List ℕ) (header_size offset : ℕ) where
  -- A step stays in the header and leaves room for the option that it appends.
  abbrev Fits : Option OptionStep → Type 0
  Fits none = ⊥
  Fits (some ends) = Unit
  Fits (some refuses) = Unit
  Fits (some (skips size)) = (1 ≤ size) × (offset + size ≤ header_size)
  Fits (some (takes option size)) =
      (1 ≤ size) × (option_size option.kind ≤ size) × (offset + size ≤ header_size)

module _ (input : List ℕ) (header_size offset : ℕ) (l : header_size ≤ length input) where
  read_mss-Fits :
      (size : ℕ)
      → offset + size ≤ header_size
      → Fits input header_size offset (read_mss input size offset)
  unfolding read_mss
  read_mss-Fits size k = elim (Bool-cases (size == 4)) [
    | inr e ↦ rw e tt
    | inl e ↦
        let q : size ≡ 4 = ground arith in
        let (value, r) = read_u16-some input (offset + 2) (omega arith) in rw (e, r) (omega arith)
  ]

  read_window_scale-Fits :
      (size : ℕ)
      → offset + size ≤ header_size
      → Fits input header_size offset (read_window_scale input size offset)
  unfolding read_window_scale
  read_window_scale-Fits size k = elim (Bool-cases (size == 3)) [
    | inr e ↦ rw e tt
    | inl e ↦
        let q : size ≡ 3 = ground arith in
        let (value, r) = get_elem?-some input (offset + 2) (omega arith) in rw (e, r) (omega arith)
  ]

  read_timestamp-Fits :
      (size : ℕ)
      → offset + size ≤ header_size
      → Fits input header_size offset (read_timestamp input size offset)
  unfolding read_timestamp
  read_timestamp-Fits size k = elim (Bool-cases (size == 10)) [
    | inr e ↦ rw e tt
    | inl e ↦
        let q : size ≡ 10 = ground arith in
        let (value, r) = read_u32-some input (offset + 2) (omega arith) in
        let (echo, r') = read_u32-some input (offset + 6) (omega arith) in
        rw (e, r, r') (omega arith)
  ]

  read_known-Fits :
      (kind size : ℕ)
      → 2 ≤ size
      → offset + size ≤ header_size
      → Fits input header_size offset (read_known input kind size offset)
  unfolding read_known
  read_known-Fits kind size h k =
      let a = read_mss-Fits size k in
      let b = read_window_scale-Fits size k in let c = read_timestamp-Fits size k in ground arith

  read_sized-Fits :
      (kind : ℕ)
      → leb header_size (offset + 1) ≡ false
      → Fits input header_size offset (read_sized input header_size offset kind)
  unfolding read_sized
  read_sized-Fits kind h =
      let inside : offset + 1 < header_size = ground arith in
      let (size, e) = get_elem?-some input (offset + 1) (omega arith) in
      rw e (elim (Bool-cases (ltb size 2 || ltb header_size (offset + size))) [
        | inl f ↦ rw f tt
        | inr f ↦ rw f (read_known-Fits kind size (ground arith) (ground arith))
      ])

  read_option-Fits :
      offset < header_size → Fits input header_size offset (read_option input header_size offset)
  unfolding read_option
  read_option-Fits h =
      let (kind, e) = get_elem?-some input offset (omega arith) in
      rw e (elim (Bool-cases (leb header_size (offset + 1))) [
        | inl f ↦ rw f (ground arith)
        | inr f ↦ let k = read_sized-Fits kind f in rw f (ground arith)
      ])

options_size-append :
    (os : List TcpOption) (o : TcpOption)
    → options_size (os ++ (o ∷ [])) ≡ options_size os + option_size o.kind
options_size-append [] o = omega arith
options_size-append (p ∷ os) o = omega (arith, options_size-append os o)

-- The loop ends, with options that fit the header if it accepts them.
abbrev HasRoom : ℕ → Option (Option (List TcpOption)) → Type 0
HasRoom header_size none = ⊥
HasRoom header_size (some none) = Unit
HasRoom header_size (some (some os)) = 20 + options_size os ≤ header_size

module _ (input : List ℕ) (header_size : ℕ) (l : header_size ≤ length input) where
  after_step-HasRoom :
      (loop : ℕ → List TcpOption → Option (Option (List TcpOption))) (fuel offset : ℕ)
      (os : List TcpOption) (step : Option OptionStep)
      → ((at : ℕ) (ps : List TcpOption)
          → header_size < at + fuel
          → 20 + options_size ps ≤ at
          → at ≤ header_size
          → HasRoom header_size (loop at ps))
      → Fits input header_size offset step
      → header_size < offset + suc fuel
      → 20 + options_size os ≤ offset
      → offset ≤ header_size
      → HasRoom header_size (after_step loop offset os step)
  unfolding after_step
  after_step-HasRoom loop fuel offset os none ih f h k m = f
  after_step-HasRoom loop fuel offset os (some ends) ih f h k m = omega arith
  after_step-HasRoom loop fuel offset os (some refuses) ih f h k m = tt
  after_step-HasRoom loop fuel offset os (some (skips size)) ih f h k m =
      ih (offset + size) os (omega arith) (omega arith) (omega arith)
  after_step-HasRoom loop fuel offset os (some (takes option size)) ih f h k m =
      let e = options_size-append os option in
      ih (offset + size) (os ++ (option ∷ [])) (omega arith) (omega arith) (omega arith)

  parse_options-HasRoom :
      (fuel offset : ℕ) (os : List TcpOption)
      → header_size < offset + fuel
      → 20 + options_size os ≤ offset
      → offset ≤ header_size
      → HasRoom header_size (parse_options fuel input header_size offset os)
  unfolding parse_options
  parse_options-HasRoom zero offset os h k m = absurd (omega arith)
  parse_options-HasRoom (suc fuel) offset os h k m = elim (Bool-cases (ltb offset header_size)) [
    | inr e ↦ rw (parse_options, e) (omega arith)
    | inl e ↦
        rw (parse_options, e)
          (after_step-HasRoom (λ at ps. parse_options fuel input header_size at ps) fuel offset os
            (read_option input header_size offset)
            (λ at ps h' k' m'. parse_options-HasRoom fuel at ps h' k' m')
            (read_option-Fits input header_size offset l (ltb→lt offset header_size e)) h k m)
  ]

-- What a segment that is parsed from an input has: a header of 20 to 60 bytes which the options fit,
-- and the rest of the input as its payload.
pub record IsWithin (input : List ℕ) (t : Tcp) : Type 0 where
  least : 5 ≤ t.data_offset
  greatest : t.data_offset ≤ 15
  room : 20 + options_size t.options ≤ t.data_offset * 4
  covers : t.data_offset * 4 + length t.payload ≡ length input

-- The parser returns, and what it accepts is as described.
abbrev pub Parses : List ℕ → Option (Option Tcp) → Type 0
Parses input none = ⊥
Parses input (some none) = Unit
Parses input (some (some t)) = IsWithin input t

read_fixed-some :
    (input : List ℕ) (data_offset : ℕ)
    → 20 ≤ length input
    → (t : Tcp) × (read_fixed input data_offset ≡ some t) × (t.data_offset ≡ data_offset)
unfolding read_fixed
read_fixed-some input data_offset h =
    let (a, ea) = read_u16-some input 0 (omega arith) in
    let (b, eb) = read_u16-some input 2 (omega arith) in
    let (c, ec) = read_u32-some input 4 (omega arith) in
    let (d, ed) = read_u32-some input 8 (omega arith) in
    let (e, ee) = get_elem?-some input 13 (omega arith) in
    let (f, ef) = read_u16-some input 14 (omega arith) in
    let (g, eg) = read_u16-some input 16 (omega arith) in
    let (i, ei) = read_u16-some input 18 (omega arith) in
    (
      record {
        source_port = a;
        destination_port = b;
        sequence_number = c;
        acknowledgment_number = d;
        data_offset = data_offset;
        flags = e;
        window = f;
        checksum = g;
        urgent_pointer = i;
        options = [];
        payload = [];
      },
      rw (ea, eb, ec, ed, ee, ef, eg, ei) refl,
      refl,
    )

with_options-Parses :
    (input : List ℕ) (data_offset : ℕ) (t : Tcp) (read : Option (List TcpOption))
    → t.data_offset ≡ data_offset
    → 5 ≤ data_offset
    → data_offset ≤ 15
    → data_offset * 4 ≤ length input
    → HasRoom (data_offset * 4) (some read)
    → Parses input (some (with_options input (data_offset * 4) t read))
unfolding with_options
with_options-Parses input data_offset t none e h k l r = tt
with_options-Parses input data_offset t (some os) e h k l r =
    let d = length-drop (data_offset * 4) input in ground arith

parse_options_some :
    (header_size : ℕ) (read : Option (Option (List TcpOption)))
    → HasRoom header_size read
    → (os : Option (List TcpOption)) × (read ≡ some os) × HasRoom header_size (some os)
parse_options_some header_size none r = absurd r
parse_options_some header_size (some os) r = (os, refl, r)

parse_from-Parses :
    (input : List ℕ) (data_offset : ℕ)
    → 20 ≤ length input
    → Parses input (parse_from input data_offset)
unfolding parse_from
parse_from-Parses input data_offset h =
    elim (Bool-cases
      (ltb data_offset 5 || ltb 15 data_offset || ltb (length input) (data_offset * 4))) [
        | inl e ↦ rw e tt
        | inr e ↦
            let (t, et, o) = read_fixed-some input data_offset h in
            let a : 5 ≤ data_offset = ground arith in
            let b : data_offset ≤ 15 = ground arith in
            let c : data_offset * 4 ≤ length input = ground arith in
            let (os, eo, r) =
              parse_options_some (data_offset * 4)
                (parse_options (data_offset * 4) input (data_offset * 4) 20 [])
                (parse_options-HasRoom input (data_offset * 4) c (data_offset * 4) 20 []
                  (omega arith) (omega arith) (omega arith)) in
            rw (e, et, eo) (with_options-Parses input data_offset t os o a b c r)
      ]

-- On every input the parser ends and reads no byte outside the input; a segment that it returns has a
-- data offset between 5 and 15, its options fit the header, and its payload is the rest of the input.
pub tcp-parse-IsWithin : (input : List ℕ) → Parses input (parse input)
unfolding parse
tcp-parse-IsWithin input = elim (Bool-cases (ltb (length input) 20)) [
  | inl e ↦ rw e tt
  | inr e ↦
      let h : 20 ≤ length input = ground arith in
      let (byte, eb) = get_elem?-some input 12 (omega arith) in
      rw (e, eb) (parse_from-Parses input (byte / 16) h)
]
