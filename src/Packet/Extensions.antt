-- ===== src/Packet/Extensions.antt =====
-- include/packet/ipv6_extensions.hpp and src/packet/ipv6_extensions.cpp: the chain of IPv6
-- extension headers, within budgets of headers and bytes.
pub mod Bounds
mod Tests
use skan.Base.{
  ℕ, zero, suc, ◌+◌, ◌-◌, ◌*◌, ◌/◌, ◌%◌, ◌^◌, Bool, true, false, ◌||◌, not, Option, none, some,
  List, [], ◌∷◌, ◌++◌, ltb, leb, ◌==◌, if◌then◌else◌, length, get_elem?,
}
use skan.Packet.Wire.{◌>>=◌, read_u16, read_u32}

-- `enum class IPv6ExtensionParseStatus`
pub data ParseStatus : Type 0 where
  complete no_next_header unsupported malformed limit_exceeded : ParseStatus

-- `struct IPv6ExtensionHeader`; the kind is the number of the header.
pub record ExtensionHeader : Type 0 where
  pub kind : ℕ
  pub next_header : ℕ
  pub offset : ℕ
  pub size : ℕ
  pub fragment_offset : ℕ
  pub more_fragments : Bool
  pub fragment_identification : ℕ

-- `struct IPv6ExtensionParseResult`
pub record ParseResult : Type 0 where
  pub status : ParseStatus
  pub terminal_next_header : ℕ
  pub consumed_bytes : ℕ
  pub headers : List ExtensionHeader

-- `is_supported_extension`
abbrev pub is_supported_extension : ℕ → Bool
is_supported_extension n = n == 0 || n == 43 || n == 44 || n == 60

-- `is_terminal_protocol`
abbrev pub is_terminal_protocol : ℕ → Bool
is_terminal_protocol n = n == 6 || n == 17 || n == 58 || n == 59

-- What one round of the loop does: it stops with a status, or it appends a header.
pub data Round : Type 0 where
  stops : ParseStatus → Round
  appends : ExtensionHeader → Round

-- The fields of a header that only a fragment header fills in.
abbrev plain_header : ℕ → ℕ → ℕ → ℕ → ExtensionHeader
plain_header kind next offset size = record {
  kind = kind;
  next_header = next;
  offset = offset;
  size = size;
  fragment_offset = 0;
  more_fragments = false;
  fragment_identification = 0;
}

-- The header that a round appends, once its length is known to fit.
read_header : List ℕ → ℕ → ℕ → ℕ → ℕ → Option ExtensionHeader
read_header payload kind next offset size =
    if kind == 44
    then (do
      fragment ← read_u16 payload (offset + 2)
      identification ← read_u32 payload (offset + 4)
      some (record (plain_header kind next offset size) {
        fragment_offset = fragment / 8 % 8192;
        more_fragments = not (fragment % 2 == 0);
        fragment_identification = identification;
      }))
    else some (plain_header kind next offset size)

-- The length of the header at the offset.
read_size : List ℕ → ℕ → ℕ → Option ℕ
read_size payload kind offset =
    if kind == 44
    then some 8
    else (do units ← get_elem? payload (offset + 1); some ((units + 1) * 8))

-- A round from the tests of the length on; `available` and `budget` are what is left of the
-- payload and of the bytes allowed.
fit_header : List ℕ → ℕ → ℕ → ℕ → ℕ → ℕ → ℕ → Option Round
fit_header payload kind next offset size available budget =
    if ltb size 8
    then some (stops malformed)
    else if ltb available size || ltb budget size
    then some (stops (if ltb budget size then limit_exceeded else malformed))
    else (do header ← read_header payload kind next offset size; some (appends header))

-- The body of the loop. `none` is a read outside the payload.
round : List ℕ → ℕ → ℕ → ℕ → ℕ → ℕ → Option Round
round payload max_headers max_bytes kind offset count =
    if leb max_headers count || leb max_bytes offset
    then some (stops limit_exceeded)
    else if ltb (length payload - offset) 2 || ltb (max_bytes - offset) 2
    then some (stops malformed)
    else (do
      next ← get_elem? payload offset
      size ← read_size payload kind offset
      fit_header payload kind next offset size (length payload - offset) (max_bytes - offset))

-- The result when the loop is left by its condition.
finished : ℕ → ℕ → List ExtensionHeader → ParseResult
finished kind offset headers = record {
  status =
      if kind == 59
      then no_next_header
      else if is_terminal_protocol kind
      then complete
      else unsupported;
  terminal_next_header = kind;
  consumed_bytes = offset;
  headers = headers;
}

-- The loop; `first` is what the result says of the terminal header when a round stops it. `none` is
-- a read outside the payload, or the end of the fuel.
parse_loop : ℕ → List ℕ → ℕ → ℕ → ℕ → ℕ → ℕ → List ExtensionHeader → Option ParseResult
parse_loop zero payload max_headers max_bytes first kind offset headers = none
parse_loop (suc fuel) payload max_headers max_bytes first kind offset headers =
    elim (is_supported_extension kind) [
      | false ↦ some (finished kind offset headers)
      | true ↦ elim (round payload max_headers max_bytes kind offset (length headers)) [
        | none ↦ none
        | some (stops status) ↦ some (record {
          status = status;
          terminal_next_header = first;
          consumed_bytes = offset;
          headers = headers;
        })
        | some (appends header) ↦
            parse_loop fuel payload max_headers max_bytes first header.next_header
              (offset + header.size) (headers ++ (header ∷ []))
      ]
    ]

-- `parse_ipv6_extensions`. A round that does not stop the loop appends a header, and none is
-- appended beyond the limit, so that the limit and one more round are fuel enough.
pub parse_ipv6_extensions : List ℕ → ℕ → ℕ → ℕ → Option ParseResult
parse_ipv6_extensions payload first max_headers max_bytes =
    if max_headers == 0 || max_bytes == 0
    then some (record {
      status = limit_exceeded;
      terminal_next_header = first;
      consumed_bytes = 0;
      headers = [];
    })
    else parse_loop (max_headers + 1) payload max_headers max_bytes first first 0 []
