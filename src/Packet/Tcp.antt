-- ===== src/Packet/Tcp.antt =====
-- include/packet/tcp.hpp and src/packet/tcp.cpp: TCP headers with their options and checksums.
pub mod Parse
pub mod Options
pub mod RoundTrip
pub mod Bounds
pub mod Fields
mod Tests
use skan.Base.{
  ℕ, zero, suc, ◌+◌, ◌-◌, ◌*◌, ◌/◌, ◌%◌, ◌^◌, Bool, true, false, ◌&&◌, ◌||◌, not, Option, none,
  some, List, [], ◌∷◌, ◌++◌, ltb, leb, ◌==◌, if◌then◌else◌, length, get_elem?, set, take, drop,
  replicate,
}
use skan.Core.{StatusCode, ok, invalid_argument, is_ok}
use skan.Packet.Wire.{◌>>=◌, write_u16, write_u32, read_u16, read_u32, overwrite, copy_to}
use skan.Packet.Checksum.{ipv4_pseudo_header, ipv6_pseudo_header}

-- `enum class TcpOptionKind`, with the values that it does not name.
pub data TcpOptionKind : Type 0 where
  nop mss window_scale sack_permitted timestamp : TcpOptionKind
  unnamed : ℕ → TcpOptionKind

-- `struct TcpOption`
pub record TcpOption : Type 0 where
  pub kind : TcpOptionKind
  pub value : ℕ
  pub timestamp_value : ℕ
  pub timestamp_echo : ℕ

-- `class TCP`
pub record Tcp : Type 0 where
  pub source_port : ℕ
  pub destination_port : ℕ
  pub sequence_number : ℕ
  pub acknowledgment_number : ℕ
  pub data_offset : ℕ
  pub flags : ℕ
  pub window : ℕ
  pub checksum : ℕ
  pub urgent_pointer : ℕ
  pub options : List TcpOption
  pub payload : List ℕ

-- The number of a kind on the wire.
abbrev pub kind_number : TcpOptionKind → ℕ
kind_number nop = 1
kind_number mss = 2
kind_number window_scale = 3
kind_number sack_permitted = 4
kind_number timestamp = 8
kind_number (unnamed n) = n

-- `option_size`
abbrev pub option_size : TcpOptionKind → ℕ
option_size nop = 1
option_size mss = 4
option_size window_scale = 3
option_size sack_permitted = 2
option_size timestamp = 10
option_size (unnamed n) = 0

-- The sum in `padded_options_size`.
abbrev pub options_size : List TcpOption → ℕ
options_size [] = 0
options_size (o ∷ os) = option_size o.kind + options_size os

-- `padded_options_size`
abbrev pub padded_options_size : List TcpOption → ℕ
padded_options_size os = (options_size os + 3) / 4 * 4

-- The bytes of one option, from its offset on; whether it can be written.
abbrev pub write_option : TcpOptionKind → TcpOption → List ℕ → ℕ → Bool × List ℕ
write_option mss o output offset = (true, write_u16 output (offset + 2) o.value)
write_option window_scale o output offset =
    if ltb 255 o.value then (false, output) else (true, set output (offset + 2) (o.value % 256))
write_option sack_permitted o output offset = (true, output)
write_option timestamp o output offset = (
  true,
  write_u32 (write_u32 output (offset + 2) o.timestamp_value) (offset + 6) o.timestamp_echo,
)
write_option _ o output offset = (false, output)

-- A round of `append_options`; whether to go on, and the span as it is left.
append_option : TcpOption → List ℕ → ℕ → Bool × List ℕ
append_option o output offset =
    if option_size o.kind == 0 || ltb (length output) (offset + option_size o.kind)
    then (false, output)
    else if kind_number o.kind == 1
    then (true, set output offset (kind_number o.kind % 256))
    else write_option o.kind o
        (set (set output offset (kind_number o.kind % 256)) (offset + 1) (option_size o.kind % 256))
        offset

-- The rest of the loop, after a round.
append_rest : (List ℕ → Bool × List ℕ) → Bool × List ℕ → Bool × List ℕ
append_rest loop (true, next) = loop next
append_rest loop (false, next) = (false, next)

-- `append_options`, from an offset on.
pub append_options : List TcpOption → List ℕ → ℕ → Bool × List ℕ
unfolding append_option append_rest
append_options [] output offset = (true, output)
append_options (o ∷ os) output offset =
    append_rest (λ next. append_options os next (offset + option_size o.kind))
      (append_option o output offset)

-- `set_options`
unfoldable pub set_options : Tcp → List TcpOption → Tcp
set_options t os = record t { options = os; data_offset = (5 + padded_options_size os / 4) % 256 }

-- `header_size`
abbrev pub header_size : Tcp → ℕ
header_size t = 20 + padded_options_size t.options

-- `serialized_size`
abbrev pub serialized_size : Tcp → ℕ
serialized_size t = header_size t + length t.payload

-- The loop of `validate`.
abbrev pub valid_options : List TcpOption → Bool
valid_options [] = true
valid_options (o ∷ os) =
    if option_size o.kind == 0 || (kind_number o.kind == 3 && ltb 255 o.value)
    then false
    else valid_options os

-- `validate`; `header_size` is at most 60 where the subtraction is reached.
unfoldable pub validate : Tcp → Bool
validate t =
    if ltb 40 (padded_options_size t.options)
      || ltb (65535 - header_size t) (length t.payload)
      || ltb t.data_offset 5
      || ltb 15 t.data_offset
      || not (header_size t == t.data_offset * 4)
    then false
    else valid_options t.options

-- The fixed part of the header that `serialize` writes into a span.
unfoldable pub write_fixed : Tcp → List ℕ → List ℕ
write_fixed t o0 =
    let o1 = write_u16 o0 0 t.source_port in
    let o2 = write_u16 o1 2 t.destination_port in
    let o3 = write_u32 o2 4 t.sequence_number in
    let o4 = write_u32 o3 8 t.acknowledgment_number in
    let o5 = set o4 12 (t.data_offset * 16 % 256) in
    let o6 = set o5 13 (t.flags % 256) in
    let o7 = write_u16 o6 14 t.window in
    let o8 = write_u16 o7 16 t.checksum in write_u16 o8 18 t.urgent_pointer

-- The end of `serialize`, once the fixed part is written: the options in their subspan, and the
-- payload.
write_tail : Tcp → List ℕ → StatusCode × List ℕ
unfolding append_options
write_tail t fixed =
    let (written, area) =
      append_options t.options (take (padded_options_size t.options) (drop 20 fixed)) 0 in
    let output = copy_to fixed 20 area in
    if not written
    then (invalid_argument, output)
    else (ok, copy_to output (header_size t) t.payload)

-- `serialize`; the span is returned as it is left.
unfoldable pub serialize : Tcp → List ℕ → StatusCode × List ℕ
unfolding write_fixed write_tail
serialize t output =
    if not (validate t) || ltb (length output) (serialized_size t)
    then (invalid_argument, output)
    else write_tail t (write_fixed t (overwrite output (replicate (header_size t) 0)))

-- The copy that the four checksum functions make, with a payload in place of the segment's own.
abbrev pub with_payload : Tcp → List ℕ → Tcp
with_payload t [] = t
with_payload t (b ∷ bs) = record t { payload = b ∷ bs }

-- A calculated checksum of zero is sent as all ones.
abbrev sent_checksum : ℕ → ℕ
sent_checksum calculated = if calculated == 0 then 65535 else calculated

-- The segment with a zero checksum field, if it can be built.
cleared : Tcp → Option (List ℕ)
cleared t =
    let (status, bytes) = serialize t (replicate (serialized_size t) 0) in
    if is_ok status then some (write_u16 bytes 16 0) else none

-- `serialize_with_checksum`, for the pseudo header of one of the two versions.
serialize_with : (List ℕ → ℕ) → Tcp → List ℕ → StatusCode × List ℕ
unfolding cleared
serialize_with pseudo t output =
    if not (validate t) || ltb (length output) (serialized_size t)
    then (invalid_argument, output)
    else elim (cleared t) [
      | none ↦ (invalid_argument, output)
      | some bytes ↦ (ok, overwrite output (write_u16 bytes 16 (sent_checksum (pseudo bytes))))
    ]

checksum_with : (List ℕ → ℕ) → Tcp → ℕ
unfolding cleared
checksum_with pseudo t =
    if not (validate t)
    then 0
    else elim (cleared t) [ none ↦ 0 | some bytes ↦ sent_checksum (pseudo bytes) ]

-- `serialize_with_checksum` with IPv4 addresses
unfoldable pub serialize_with_checksum_ipv4 : Tcp → List ℕ → ℕ → ℕ → List ℕ → StatusCode × List ℕ
unfolding serialize_with
serialize_with_checksum_ipv4 t output source destination payload =
    serialize_with (ipv4_pseudo_header source destination 6) (with_payload t payload) output

-- `serialize_with_checksum` with IPv6 addresses
unfoldable pub serialize_with_checksum_ipv6 :
    Tcp → List ℕ → List ℕ → List ℕ → List ℕ → StatusCode × List ℕ
unfolding serialize_with
serialize_with_checksum_ipv6 t output source destination payload =
    serialize_with (ipv6_pseudo_header source destination 6) (with_payload t payload) output

-- `checksum_for_ipv4`
unfoldable pub checksum_for_ipv4 : Tcp → ℕ → ℕ → List ℕ → ℕ
unfolding checksum_with
checksum_for_ipv4 t source destination payload =
    checksum_with (ipv4_pseudo_header source destination 6) (with_payload t payload)

-- `checksum_for_ipv6`
unfoldable pub checksum_for_ipv6 : Tcp → List ℕ → List ℕ → List ℕ → ℕ
unfolding checksum_with
checksum_for_ipv6 t source destination payload =
    checksum_with (ipv6_pseudo_header source destination 6) (with_payload t payload)
