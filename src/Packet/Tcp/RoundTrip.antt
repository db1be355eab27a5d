-- ===== src/Packet/Tcp/RoundTrip.antt =====
-- A TCP segment that `serialize` of src/packet/tcp.cpp writes is read back by `parse`.
use skan.Base.{
  ℕ, zero, suc, ◌+◌, ◌-◌, ◌*◌, ◌/◌, ◌%◌, ◌^◌, ◌≤◌, ◌<◌, ◌≡◌, refl, sym, ap, ◌∙◌, true, false, some,
  List, [], ◌∷◌, ◌++◌, ltb, ◌||◌, length, length-append, get_elem?, take, drop, replicate,
  length-replicate, arith,
}
use mathlib.Core.List.{append_assoc, append-nil}
use skan.Core.{ok}
use skan.Packet.Wire.{overwrite, copy_to, overwrite-replicate}
use skan.Packet.Wire.Splice.{replicate_add, overwrite-append, copy_behind, take_front, drop_front}
use skan.Packet.Tcp.{
  Tcp, TcpOption, options_size, padded_options_size, header_size, serialized_size, validate,
  write_fixed, write_tail, serialize, append_options,
}
use skan.Packet.Tcp.Parse.{read_fixed, with_options, parse_options, parse_from, parse}
use skan.Packet.Tcp.Options.{
  AllCanonical, encode_all, length-encode_all, append_options_lem, parse_options_lem, word,
  double_word,
}

-- The fields that are words of the width that they have on the wire.
pub record IsInRange (t : Tcp) : Type 0 where
  pub source_port : t.source_port < 65536
  pub destination_port : t.destination_port < 65536
  pub sequence_number : t.sequence_number < 2 ^ 32
  pub acknowledgment_number : t.acknowledgment_number < 2 ^ 32
  pub flags : t.flags < 256
  pub window : t.window < 65536
  pub checksum : t.checksum < 65536
  pub urgent_pointer : t.urgent_pointer < 65536

-- The fixed part of the header.
abbrev fixed : Tcp → List ℕ
fixed t =
    word t.source_port
    ++ (word t.destination_port
        ++ (double_word t.sequence_number
            ++ (double_word t.acknowledgment_number
                ++ (t.data_offset * 16 % 256
                    ∷ t.flags % 256
                    ∷ (word t.window ++ (word t.checksum ++ word t.urgent_pointer))))))

abbrev padding : Tcp → ℕ
padding t = padded_options_size t.options - options_size t.options

abbrev area : Tcp → List ℕ
area t = encode_all t.options ++ replicate (padding t) 0

overwrite_zeros :
    (n : ℕ) (rest : List ℕ)
    → overwrite (replicate n 0 ++ rest) (replicate n 0) ≡ replicate n 0 ++ rest
overwrite_zeros zero rest = refl
overwrite_zeros (suc n) rest = ap (◌∷◌ 0) (overwrite_zeros n rest)

abbrev zeros20 : List ℕ
zeros20 = 0 ∷ 0 ∷ 0 ∷ 0 ∷ 0 ∷ 0 ∷ 0 ∷ 0 ∷ 0 ∷ 0 ∷ 0 ∷ 0 ∷ 0 ∷ 0 ∷ 0 ∷ 0 ∷ 0 ∷ 0 ∷ 0 ∷ 0 ∷ []

write_fixed_zeros : (t : Tcp) (rest : List ℕ) → write_fixed t (zeros20 ++ rest) ≡ fixed t ++ rest
unfolding write_fixed
write_fixed_zeros t rest = refl

-- A valid segment goes into a span of its size.
accepted :
    (t : Tcp) (output : List ℕ)
    → validate t ≡ true
    → length output ≡ serialized_size t
    → serialize t output
      ≡ write_tail t (write_fixed t (overwrite output (replicate (header_size t) 0)))
unfolding serialize
accepted t output v e =
    let fits : ltb (length output) (serialized_size t) ≡ false = ground arith in rw (v, fits) refl

module _ (t : Tcp) (c : AllCanonical t.options) where
  padded : options_size t.options + padding t ≡ padded_options_size t.options
  padded = omega arith

  length-area : length (area t) ≡ padded_options_size t.options
  length-area =
      length-append (encode_all t.options) (replicate (padding t) 0)
      ∙ omega (arith, length-encode_all t.options c, length-replicate {A = ℕ} (padding t) 0)

  append_all :
      append_options t.options (replicate (padded_options_size t.options) 0) 0 ≡ (true, area t)
  append_all =
      ap (λ n. append_options t.options (replicate n 0) 0) (sym padded)
      ∙ ap (λ z. append_options t.options z 0) (replicate_add (options_size t.options) (padding t))
      ∙ append_options_lem t.options [] (replicate (padding t) 0) c

  write_tail_lem :
      write_tail t
        (fixed t ++ (replicate (padded_options_size t.options) 0 ++ replicate (length t.payload) 0))
      ≡ (ok, (fixed t ++ area t) ++ t.payload)
  unfolding write_tail
  write_tail_lem =
      let n = padded_options_size t.options in
      let more = replicate {A = ℕ} (length t.payload) 0 in
      let taken : take n (replicate n 0 ++ more) ≡ replicate n 0 =
        ap (λ k. take k (replicate n 0 ++ more)) (sym (length-replicate {A = ℕ} n 0))
        ∙ take_front (replicate n 0) more in
      let laid : overwrite (replicate n 0 ++ more) (area t) ≡ area t ++ more =
        ap (overwrite (replicate n 0 ++ more)) (sym (append-nil (area t)))
        ∙ overwrite-append (replicate n 0) more (area t) []
            (length-replicate {A = ℕ} n 0 ∙ sym length-area) in
      let placed : copy_to (fixed t ++ (replicate n 0 ++ more)) 20 (area t)
          ≡ (fixed t ++ area t) ++ more =
        copy_behind (fixed t) (replicate n 0 ++ more) (area t)
        ∙ ap (λ z. fixed t ++ z) laid
        ∙ sym (append_assoc (fixed t) (area t) more) in
      let long : length (fixed t ++ area t) ≡ header_size t =
        length-append (fixed t) (area t) ∙ omega (arith, length-area) in
      let filled : copy_to ((fixed t ++ area t) ++ more) (header_size t) t.payload
          ≡ (fixed t ++ area t) ++ t.payload =
        ap (λ k. copy_to ((fixed t ++ area t) ++ more) k t.payload) (sym long)
        ∙ copy_behind (fixed t ++ area t) more t.payload
        ∙ ap (λ z. (fixed t ++ area t) ++ z) (overwrite-replicate t.payload) in
      rw (taken, append_all)
        (ap (λ z. (ok, copy_to z (header_size t) t.payload)) placed ∙ ap (λ z. (ok, z)) filled)

  zeros :
      replicate {A = ℕ} (serialized_size t) 0
      ≡ zeros20 ++ (replicate (padded_options_size t.options) 0 ++ replicate (length t.payload) 0)
  zeros =
      let n = padded_options_size t.options in
      ap (λ k. replicate {A = ℕ} k 0)
        (let e : serialized_size t ≡ 20 + (n + length t.payload) = omega arith in e)
      ∙ replicate_add 20 (n + length t.payload)
      ∙ ap (λ z. zeros20 ++ z) (replicate_add n (length t.payload))

  serialize_zeros :
      validate t ≡ true
      → serialize t (replicate (serialized_size t) 0) ≡ (ok, (fixed t ++ area t) ++ t.payload)
  unfolding serialize
  serialize_zeros v =
      let n = padded_options_size t.options in
      let more = replicate {A = ℕ} (length t.payload) 0 in
      let cleared : overwrite (replicate (serialized_size t) 0) (replicate (header_size t) 0)
          ≡ zeros20 ++ (replicate n 0 ++ more) =
        ap (λ z. overwrite z (replicate (header_size t) 0)) zeros
        ∙ ap (overwrite (zeros20 ++ (replicate n 0 ++ more))) (replicate_add 20 n)
        ∙ ap (λ z. zeros20 ++ z) (overwrite_zeros n more) in
      accepted t (replicate (serialized_size t) 0) v
        (length-replicate {A = ℕ} (serialized_size t) 0)
      ∙ ap (λ z. write_tail t (write_fixed t z)) cleared
      ∙ ap (write_tail t) (write_fixed_zeros t (replicate n 0 ++ more))
      ∙ write_tail_lem

valid_fields :
    (t : Tcp)
    → validate t ≡ true
    → (5 ≤ t.data_offset)
      × (t.data_offset ≤ 15)
      × (header_size t ≡ t.data_offset * 4)
      × (length t.payload ≤ 65535 - header_size t)
unfolding validate
valid_fields t v = ground arith

read_fixed_lem :
    (t : Tcp) (rest : List ℕ)
    → IsInRange t
    → read_fixed (fixed t ++ rest) t.data_offset ≡ some (record t { options = []; payload = [] })
unfolding read_fixed
read_fixed_lem t rest r = ground arith

parse_steps :
    (input : List ℕ) (byte : ℕ)
    → 20 ≤ length input
    → get_elem? input 12 ≡ some byte
    → parse input ≡ parse_from input (byte / 16)
unfolding parse
parse_steps input byte h e =
    let long : ltb (length input) 20 ≡ false = ground arith in rw (long, e) refl

parse_from_steps :
    (input : List ℕ) (d : ℕ) (t : Tcp) (os : List TcpOption)
    → 5 ≤ d
    → d ≤ 15
    → d * 4 ≤ length input
    → length input - d * 4 ≤ 65535 - d * 4
    → read_fixed input d ≡ some t
    → parse_options (d * 4) input (d * 4) 20 [] ≡ some (some os)
    → parse_from input d ≡ some (some (record t { options = os; payload = drop (d * 4) input }))
unfolding parse_from with_options
parse_from_steps input d t os h k l m e f =
    let pass : ltb d 5 || ltb 15 d || ltb (length input) (d * 4) ≡ false = ground arith in
    let short : ltb (65535 - d * 4) (length input - d * 4) ≡ false = ground arith in
    rw (pass, e, f, short) refl

module _ (t : Tcp) (c : AllCanonical t.options) (r : IsInRange t) (v : validate t ≡ true) where
  abbrev bytes : List ℕ
  bytes = (fixed t ++ area t) ++ t.payload

  length-bytes : length bytes ≡ header_size t + length t.payload
  length-bytes =
      length-append (fixed t ++ area t) t.payload
      ∙ omega (arith, length-append (fixed t) (area t), length-area t c)

  options_read :
      parse_options (t.data_offset * 4) bytes (t.data_offset * 4) 20 [] ≡ some (some t.options)
  options_read =
      let f = valid_fields t v in
      let e : bytes ≡ fixed t ++ (encode_all t.options ++ (replicate (padding t) 0 ++ t.payload)) =
        append_assoc (fixed t) (area t) t.payload
        ∙ ap (λ z. fixed t ++ z)
            (append_assoc (encode_all t.options) (replicate (padding t) 0) t.payload) in
      ap (λ z. parse_options (t.data_offset * 4) z (t.data_offset * 4) 20 []) e
      ∙ parse_options_lem (t.data_offset * 4) t.options [] (t.data_offset * 4) (padding t) (fixed t)
          t.payload c (omega (arith, padded t c)) (omega arith)

  payload_read : drop (t.data_offset * 4) bytes ≡ t.payload
  payload_read =
      let f = valid_fields t v in
      let long : t.data_offset * 4 ≡ length (fixed t ++ area t) =
        omega (arith, length-append (fixed t) (area t), length-area t c) in
      ap (λ k. drop k bytes) long ∙ drop_front (fixed t ++ area t) t.payload

  parse_lem : parse bytes ≡ some (some t)
  parse_lem =
      let f = valid_fields t v in
      let offset : t.data_offset * 16 % 256 / 16 ≡ t.data_offset = omega arith in
      parse_steps bytes (t.data_offset * 16 % 256) (omega (arith, length-bytes)) refl
      ∙ ap (parse_from bytes) offset
      ∙ parse_from_steps bytes t.data_offset (record t { options = []; payload = [] }) t.options
          (omega arith) (omega arith) (omega (arith, length-bytes)) (omega (arith, length-bytes))
          (ap (λ z. read_fixed z t.data_offset) (append_assoc (fixed t) (area t) t.payload)
            ∙ read_fixed_lem t (area t ++ t.payload) r)
          options_read
      ∙ ap (λ z. some (some (record t { payload = z }))) payload_read

-- A valid segment with fields in range, whose options carry what their kinds have a place for,
-- serialized into a zeroed buffer of its size, parses back to the same segment, options included.
pub tcp-parse-serialize :
    (t : Tcp)
    → IsInRange t
    → AllCanonical t.options
    → validate t ≡ true
    → let (status, output) = serialize t (replicate (serialized_size t) 0) in
      (status ≡ ok) × (parse output ≡ some (some t))
tcp-parse-serialize t r c v = rw (serialize_zeros t c v) (refl, parse_lem t c r v)
