-- ===== src/Packet/Tcp/Options.antt =====
-- The options of src/packet/tcp.cpp: what `append_options` writes, the loop of `parse` reads.
use skan.Base.{
  ℕ, zero, suc, ◌+◌, ◌/◌, ◌%◌, ◌^◌, ◌≤◌, ◌<◌, ◌≡◌, refl, sym, ap, ◌∙◌, true, Option, some, List, [],
  ◌∷◌, ◌++◌, length, length-append, replicate, arith, lt→ltb,
}
use mathlib.Core.List.{append_assoc, append-nil}
use skan.Packet.Wire.Splice.{
  set_behind, get_behind, write_u16_behind, write_u32_behind, read_u16_behind, read_u32_behind,
  replicate_add,
}
use skan.Packet.Tcp.{
  TcpOption, TcpOptionKind, nop, mss, window_scale, sack_permitted, timestamp, option_size,
  options_size, append_option, append_rest, append_options,
}
use skan.Packet.Tcp.Parse.{OptionStep, plain, takes, read_option, after_step, parse_options}

abbrev stamped : ℕ → ℕ → TcpOption
stamped value echo = record {
  kind = timestamp;
  value = 0;
  timestamp_value = value;
  timestamp_echo = echo;
}

-- An option that carries what its kind has a place for, and nothing else.
pub data IsCanonical : TcpOption → Type 0 where
  nop_option : IsCanonical (plain nop 0)
  mss_option : (value : ℕ) → value < 65536 → IsCanonical (plain mss value)
  scale_option : (value : ℕ) → value < 256 → IsCanonical (plain window_scale value)
  sack_option : IsCanonical (plain sack_permitted 0)
  stamp_option :
      (value echo : ℕ) → value < 2 ^ 32 → echo < 2 ^ 32 → IsCanonical (stamped value echo)

abbrev pub AllCanonical : List TcpOption → Type 0
AllCanonical [] = Unit
AllCanonical (o ∷ os) = IsCanonical o × AllCanonical os

-- The bytes of an option, by its kind.
abbrev pub word : ℕ → List ℕ
word v = v / 256 % 256 ∷ v % 256 ∷ []

abbrev pub double_word : ℕ → List ℕ
double_word v = v / 2 ^ 24 % 256 ∷ v / 2 ^ 16 % 256 ∷ v / 2 ^ 8 % 256 ∷ v % 256 ∷ []

abbrev encode : TcpOptionKind → TcpOption → List ℕ
encode nop o = 1 ∷ []
encode mss o = 2 ∷ 4 ∷ word o.value
encode window_scale o = 3 ∷ 3 ∷ o.value % 256 ∷ []
encode sack_permitted o = 4 ∷ 2 ∷ []
encode timestamp o = 8 ∷ 10 ∷ (double_word o.timestamp_value ++ double_word o.timestamp_echo)
encode _ o = []

abbrev pub encode_all : List TcpOption → List ℕ
encode_all [] = []
encode_all (o ∷ os) = encode o.kind o ++ encode_all os

-- A round of `append_options` on zeros behind a front part.
module _ (front rest : List ℕ) where
  abbrev Appends : TcpOption → Type 0
  Appends o =
      append_option o (front ++ (replicate (option_size o.kind) 0 ++ rest)) (length front)
      ≡ (true, front ++ (encode o.kind o ++ rest))

  append_nop : Appends (plain nop 0)
  unfolding append_option
  append_nop =
      let l = length-append front (0 ∷ rest) in
      rw (set_behind 0 front (0 ∷ rest) (length front) 1 (omega arith)) (ground arith)

  append_mss : (v : ℕ) → Appends (plain mss v)
  unfolding append_option
  append_mss v =
      let l = length-append front (0 ∷ 0 ∷ 0 ∷ 0 ∷ rest) in
      rw
        (
          set_behind 0 front (0 ∷ 0 ∷ 0 ∷ 0 ∷ rest) (length front) 2 (omega arith),
          set_behind 1 front (2 ∷ 0 ∷ 0 ∷ 0 ∷ rest) (length front + 1) 4 (omega arith),
          write_u16_behind 2 front (2 ∷ 4 ∷ 0 ∷ 0 ∷ rest) (length front + 2) v (omega arith),
        )
        (ground arith)

  append_scale : (v : ℕ) → v < 256 → Appends (plain window_scale v)
  unfolding append_option
  append_scale v h =
      let l = length-append front (0 ∷ 0 ∷ 0 ∷ rest) in
      rw
        (
          set_behind 0 front (0 ∷ 0 ∷ 0 ∷ rest) (length front) 3 (omega arith),
          set_behind 1 front (3 ∷ 0 ∷ 0 ∷ rest) (length front + 1) 3 (omega arith),
          set_behind 2 front (3 ∷ 3 ∷ 0 ∷ rest) (length front + 2) (v % 256) (omega arith),
        )
        (ground arith)

  append_sack : Appends (plain sack_permitted 0)
  unfolding append_option
  append_sack =
      let l = length-append front (0 ∷ 0 ∷ rest) in
      rw
        (
          set_behind 0 front (0 ∷ 0 ∷ rest) (length front) 4 (omega arith),
          set_behind 1 front (4 ∷ 0 ∷ rest) (length front + 1) 2 (omega arith),
        )
        (ground arith)

  append_stamp : (v e : ℕ) → Appends (stamped v e)
  unfolding append_option
  append_stamp v e =
      let l = length-append front (0 ∷ 0 ∷ 0 ∷ 0 ∷ 0 ∷ 0 ∷ 0 ∷ 0 ∷ 0 ∷ 0 ∷ rest) in
      rw
        (
          set_behind 0 front (0 ∷ 0 ∷ 0 ∷ 0 ∷ 0 ∷ 0 ∷ 0 ∷ 0 ∷ 0 ∷ 0 ∷ rest) (length front) 8
              (omega arith),
          set_behind 1 front (8 ∷ 0 ∷ 0 ∷ 0 ∷ 0 ∷ 0 ∷ 0 ∷ 0 ∷ 0 ∷ 0 ∷ rest) (length front + 1) 10
              (omega arith),
          write_u32_behind 2 front (8 ∷ 10 ∷ 0 ∷ 0 ∷ 0 ∷ 0 ∷ 0 ∷ 0 ∷ 0 ∷ 0 ∷ rest)
              (length front + 2) v (omega arith),
          write_u32_behind 6 front (8 ∷ 10 ∷ (double_word v ++ (0 ∷ 0 ∷ 0 ∷ 0 ∷ rest)))
              (length front + 6) e (omega arith),
        )
        (ground arith)

  append_canonical : (o : TcpOption) → IsCanonical o → Appends o
  append_canonical o nop_option = append_nop
  append_canonical o (mss_option v h) = append_mss v
  append_canonical o (scale_option v h) = append_scale v h
  append_canonical o sack_option = append_sack
  append_canonical o (stamp_option v e h k) = append_stamp v e

-- A round of the loop of `parse` on an encoded option behind a front part.
module _ (front rest : List ℕ) (header_size : ℕ) where
  abbrev Reads : TcpOption → Type 0
  Reads o =
      length front + option_size o.kind ≤ header_size
      → read_option (front ++ (encode o.kind o ++ rest)) header_size (length front)
        ≡ some (takes o (option_size o.kind))

  read_nop : Reads (plain nop 0)
  unfolding read_option
  read_nop h = rw (get_behind 0 front (1 ∷ rest) (length front) (omega arith)) refl

  read_mss_option : (v : ℕ) → v < 65536 → Reads (plain mss v)
  unfolding read_option
  read_mss_option v k h =
      let bytes = 2 ∷ 4 ∷ (word v ++ rest) in
      rw
        (
          get_behind 0 front bytes (length front) (omega arith),
          get_behind 1 front bytes (length front + 1) (omega arith),
          read_u16_behind 2 front bytes (length front + 2) (omega arith),
        )
        (ground arith)

  read_scale_option : (v : ℕ) → v < 256 → Reads (plain window_scale v)
  unfolding read_option
  read_scale_option v k h =
      let bytes = 3 ∷ 3 ∷ v % 256 ∷ rest in
      rw
        (
          get_behind 0 front bytes (length front) (omega arith),
          get_behind 1 front bytes (length front + 1) (omega arith),
          get_behind 2 front bytes (length front + 2) (omega arith),
        )
        (ground arith)

  read_sack_option : Reads (plain sack_permitted 0)
  unfolding read_option
  read_sack_option h =
      let bytes = 4 ∷ 2 ∷ rest in
      rw
        (
          get_behind 0 front bytes (length front) (omega arith),
          get_behind 1 front bytes (length front + 1) (omega arith),
        )
        (ground arith)

  read_stamp_option : (v e : ℕ) → v < 2 ^ 32 → e < 2 ^ 32 → Reads (stamped v e)
  unfolding read_option
  read_stamp_option v e k l h =
      let bytes = 8 ∷ 10 ∷ (double_word v ++ (double_word e ++ rest)) in
      rw
        (
          get_behind 0 front bytes (length front) (omega arith),
          get_behind 1 front bytes (length front + 1) (omega arith),
          read_u32_behind 2 front bytes (length front + 2) (omega arith),
          read_u32_behind 6 front bytes (length front + 6) (omega arith),
        )
        (ground arith)

  read_canonical : (o : TcpOption) → IsCanonical o → Reads o
  read_canonical o nop_option = read_nop
  read_canonical o (mss_option v h) = read_mss_option v h
  read_canonical o (scale_option v h) = read_scale_option v h
  read_canonical o sack_option = read_sack_option
  read_canonical o (stamp_option v e h k) = read_stamp_option v e h k

length-encode : (o : TcpOption) → IsCanonical o → length (encode o.kind o) ≡ option_size o.kind
length-encode o nop_option = refl
length-encode o (mss_option v h) = refl
length-encode o (scale_option v h) = refl
length-encode o sack_option = refl
length-encode o (stamp_option v e h k) = refl

option_size_pos : (o : TcpOption) → IsCanonical o → 0 < option_size o.kind
option_size_pos o nop_option = omega arith
option_size_pos o (mss_option v h) = omega arith
option_size_pos o (scale_option v h) = omega arith
option_size_pos o sack_option = omega arith
option_size_pos o (stamp_option v e h k) = omega arith

pub length-encode_all :
    (os : List TcpOption) → AllCanonical os → length (encode_all os) ≡ options_size os
length-encode_all [] c = refl
length-encode_all (o ∷ os) c = omega (
  arith,
  length-append (encode o.kind o) (encode_all os),
  length-encode o c.0,
  length-encode_all os c.1,
)

append_step :
    (o : TcpOption) (os : List TcpOption) (output : List ℕ) (offset : ℕ) (next : List ℕ)
    → append_option o output offset ≡ (true, next)
    → append_options (o ∷ os) output offset ≡ append_options os next (offset + option_size o.kind)
unfolding append_options
append_step o os output offset next e =
    ap (append_rest (λ z. append_options os z (offset + option_size o.kind))) e

-- Into zeros, `append_options` writes the encoded options and leaves the rest.
pub append_options_lem :
    (os : List TcpOption) (front rest : List ℕ)
    → AllCanonical os
    → append_options os (front ++ (replicate (options_size os) 0 ++ rest)) (length front)
      ≡ (true, front ++ (encode_all os ++ rest))
unfolding append_options
append_options_lem [] front rest c = refl
append_options_lem (o ∷ os) front rest c =
    let next = front ++ encode o.kind o in
    let more = replicate (options_size os) 0 ++ rest in
    let zeros : replicate (options_size (o ∷ os)) 0 ++ rest
        ≡ replicate (option_size o.kind) 0 ++ more =
      ap (λ z. z ++ rest) (replicate_add (option_size o.kind) (options_size os))
      ∙ append_assoc (replicate (option_size o.kind) 0) (replicate (options_size os) 0) rest in
    let size : length front + option_size o.kind ≡ length next =
      omega (arith, length-append front (encode o.kind o), length-encode o c.0) in
    rw
      (
        zeros,
        append_step o os _ (length front) _ (append_canonical front more o c.0),
        size,
        ← append_assoc front (encode o.kind o) more,
      )
      (append_options_lem os next rest c.1
        ∙ ap (λ z. (true, z))
            (append_assoc front (encode o.kind o) (encode_all os ++ rest)
              ∙ ap (λ z. front ++ z) (sym (append_assoc (encode o.kind o) (encode_all os) rest))))

parse_options_step :
    (fuel : ℕ) (input : List ℕ) (header_size offset : ℕ) (acc : List TcpOption)
    (step : Option OptionStep)
    → offset < header_size
    → read_option input header_size offset ≡ step
    → parse_options (suc fuel) input header_size offset acc
      ≡ after_step (λ at os. parse_options fuel input header_size at os) offset acc step
unfolding parse_options
parse_options_step fuel input header_size offset acc step h e =
    rw (parse_options, lt→ltb offset header_size h, e) refl

module _ (header_size : ℕ) where
  -- Behind the options, the loop ends at a zero or at the end of the header.
  parse_options_end :
      (acc : List TcpOption) (fuel pad : ℕ) (front rest : List ℕ)
      → length front + pad ≡ header_size
      → parse_options (suc fuel) (front ++ (replicate pad 0 ++ rest)) header_size (length front) acc
        ≡ some (some acc)
  unfolding parse_options read_option after_step
  parse_options_end acc fuel zero front rest e = ground arith
  parse_options_end acc fuel (suc pad) front rest e =
      let zeros = 0 ∷ (replicate pad 0 ++ rest) in
      rw
        (
          parse_options,
          lt→ltb (length front) header_size (omega arith),
          get_behind 0 front zeros (length front) (omega arith),
        )
        refl

  -- The loop of `parse` reads encoded options, up to a zero or the end of the header.
  pub parse_options_lem :
      (os acc : List TcpOption) (fuel pad : ℕ) (front rest : List ℕ)
      → AllCanonical os
      → length front + options_size os + pad ≡ header_size
      → header_size < length front + fuel
      → parse_options fuel
          (front ++ (encode_all os ++ (replicate pad 0 ++ rest)))
          header_size
          (length front)
          acc
        ≡ some (some (acc ++ os))
  unfolding after_step
  parse_options_lem os acc zero pad front rest c e h = absurd (omega arith)
  parse_options_lem [] acc (suc fuel) pad front rest c e h =
      parse_options_end acc fuel pad front rest (omega arith)
      ∙ ap (λ z. some (some z)) (sym (append-nil acc))
  parse_options_lem (o ∷ os) acc (suc fuel) pad front rest c e h =
      let next = front ++ encode o.kind o in
      let more = encode_all os ++ (replicate pad 0 ++ rest) in
      let size : length front + option_size o.kind ≡ length next =
        omega (arith, length-append front (encode o.kind o), length-encode o c.0) in
      let positive = option_size_pos o c.0 in
      let step =
        parse_options_step fuel (front ++ (encode o.kind o ++ more)) header_size (length front) acc
          (some (takes o (option_size o.kind))) (omega arith)
          (read_canonical front more header_size o c.0 (omega arith)) in
      rw
        (
          append_assoc (encode o.kind o) (encode_all os) (replicate pad 0 ++ rest),
          step,
          size,
          ← append_assoc front (encode o.kind o) more,
        )
        (parse_options_lem os (acc ++ (o ∷ [])) fuel pad next rest c.1 (omega arith) (omega arith)
          ∙ ap (λ z. some (some z)) (append_assoc acc (o ∷ []) os))
