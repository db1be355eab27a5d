-- ===== src/Packet/Tcp/Parse.antt =====
-- src/packet/tcp.cpp: `TCP::parse`. The outer option of the results is `none` where a byte outside
-- the input is read.
use skan.Base.{
  ℕ, zero, suc, ◌+◌, ◌-◌, ◌*◌, ◌/◌, true, false, ◌||◌, not, Option, none, some, List, [], ◌∷◌, ◌++◌,
  ltb, leb, ◌==◌, if◌then◌else◌, length, get_elem?, drop,
}
use skan.Packet.Wire.{◌>>=◌, read_u16, read_u32}
use skan.Packet.Tcp.{
  Tcp, TcpOption, TcpOptionKind, nop, mss, window_scale, sack_permitted, timestamp,
}

-- What a round of the loop over the options does: it leaves the loop, refuses the segment, goes past
-- an option that has no name, or appends an option and goes past it.
pub data OptionStep : Type 0 where
  ends refuses : OptionStep
  skips : ℕ → OptionStep
  takes : TcpOption → ℕ → OptionStep

-- An option with its other fields zero.
abbrev pub plain : TcpOptionKind → ℕ → TcpOption
plain kind value = record { kind = kind; value = value; timestamp_value = 0; timestamp_echo = 0 }

-- The cases of the `switch` of the loop, on a length that lies in the header.
unfoldable pub read_mss : List ℕ → ℕ → ℕ → Option OptionStep
read_mss input size offset =
    if not (size == 4)
    then some refuses
    else (do value ← read_u16 input (offset + 2); some (takes (plain mss value) 4))

unfoldable pub read_window_scale : List ℕ → ℕ → ℕ → Option OptionStep
read_window_scale input size offset =
    if not (size == 3)
    then some refuses
    else (do value ← get_elem? input (offset + 2); some (takes (plain window_scale value) 3))

unfoldable pub read_timestamp : List ℕ → ℕ → ℕ → Option OptionStep
read_timestamp input size offset = if not (size == 10) then some refuses else (do
  value ← read_u32 input (offset + 2)
  echo ← read_u32 input (offset + 6)
  some (
      takes (record { kind = timestamp; value = 0; timestamp_value = value; timestamp_echo = echo })
        10))

unfoldable pub read_known : List ℕ → ℕ → ℕ → ℕ → Option OptionStep
unfolding read_mss read_window_scale read_timestamp
read_known input kind size offset =
    if kind == 2
    then read_mss input size offset
    else if kind == 3
    then read_window_scale input size offset
    else if kind == 4
    then (if not (size == 2) then some refuses else some (takes (plain sack_permitted 0) 2))
    else if kind == 8
    then read_timestamp input size offset
    else some (skips size)

-- An option that has a length byte.
unfoldable pub read_sized : List ℕ → ℕ → ℕ → ℕ → Option OptionStep
unfolding read_known
read_sized input header_size offset kind = do
  size ← get_elem? input (offset + 1)
  (if ltb size 2 || ltb header_size (offset + size)
      then some refuses
      else read_known input kind size offset)

-- The body of the loop.
unfoldable pub read_option : List ℕ → ℕ → ℕ → Option OptionStep
unfolding read_sized
read_option input header_size offset = do
  kind ← get_elem? input offset
  (if kind == 0
      then some ends
      else if kind == 1
      then some (takes (plain nop 0) 1)
      else if leb header_size (offset + 1)
      then some refuses
      else read_sized input header_size offset kind)

-- The rest of a round, with the rounds that follow it as a function of the offset and the options.
unfoldable pub after_step :
    (ℕ → List TcpOption → Option (Option (List TcpOption)))
    → ℕ
    → List TcpOption
    → Option OptionStep
    → Option (Option (List TcpOption))
after_step loop offset options none = none
after_step loop offset options (some ends) = some (some options)
after_step loop offset options (some refuses) = some none
after_step loop offset options (some (skips size)) = loop (offset + size) options
after_step loop offset options (some (takes option size)) =
    loop (offset + size) (options ++ (option ∷ []))

-- The loop. The end of the fuel is `none`, too.
unfoldable pub parse_options :
    ℕ → List ℕ → ℕ → ℕ → List TcpOption → Option (Option (List TcpOption))
unfolding after_step
parse_options zero input header_size offset options = none
parse_options (suc fuel) input header_size offset options = elim (ltb offset header_size) [
  | false ↦ some (some options)
  | true ↦
      after_step (λ at os. parse_options fuel input header_size at os) offset options
        (read_option input header_size offset)
]

-- The end of `parse`, after the loop.
unfoldable pub with_options : List ℕ → ℕ → Tcp → Option (List TcpOption) → Option Tcp
with_options input header_size t none = none
with_options input header_size t (some options) =
    if ltb (65535 - header_size) (length input - header_size)
    then none
    else some (record t { options = options; payload = drop header_size input })

-- The reads of the fixed part.
unfoldable pub read_fixed : List ℕ → ℕ → Option Tcp
read_fixed input data_offset = do
  source_port ← read_u16 input 0
  destination_port ← read_u16 input 2
  sequence_number ← read_u32 input 4
  acknowledgment_number ← read_u32 input 8
  flags ← get_elem? input 13
  window ← read_u16 input 14
  checksum ← read_u16 input 16
  urgent_pointer ← read_u16 input 18
  some (record {
    source_port = source_port;
    destination_port = destination_port;
    sequence_number = sequence_number;
    acknowledgment_number = acknowledgment_number;
    data_offset = data_offset;
    flags = flags;
    window = window;
    checksum = checksum;
    urgent_pointer = urgent_pointer;
    options = [];
    payload = [];
  })

-- `parse`, from the test of the data offset on. A round of the loop goes on by a byte at least, so
-- that the size of the header is fuel enough.
unfoldable pub parse_from : List ℕ → ℕ → Option (Option Tcp)
unfolding read_fixed with_options
parse_from input data_offset =
    if ltb data_offset 5 || ltb 15 data_offset || ltb (length input) (data_offset * 4)
    then some none
    else (do
      t ← read_fixed input data_offset
      options ← parse_options (data_offset * 4) input (data_offset * 4) 20 []
      some (with_options input (data_offset * 4) t options))

-- `TCP::parse`
unfoldable pub parse : List ℕ → Option (Option Tcp)
unfolding parse_from
parse input =
    if ltb (length input) 20
    then some none
    else (do byte ← get_elem? input 12; parse_from input (byte / 16))
