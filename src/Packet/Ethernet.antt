-- ===== src/Packet/Ethernet.antt =====
-- include/packet/ethernet.hpp and src/packet/ethernet.cpp: Ethernet headers. An address is its six
-- bytes.
pub mod RoundTrip
mod Tests
use skan.Base.{
  ℕ, ◌+◌, Bool, true, false, not, Option, none, some, List, ltb, ◌==◌, if◌then◌else◌, length, take,
  drop,
}
use skan.Core.{StatusCode, ok, invalid_argument}
use skan.Packet.Wire.{◌>>=◌, write_u16, read_u16, copy_to}

-- `class Ethernet`
pub record Ethernet : Type 0 where
  pub destination : List ℕ
  pub source : List ℕ
  pub ether_type : ℕ

-- `validate`
unfoldable pub validate : Ethernet → Bool
validate h = not (h.ether_type == 0)

-- `serialize`; the span is returned as it is left.
unfoldable pub serialize : Ethernet → List ℕ → StatusCode × List ℕ
serialize h output =
    if not (validate h)
    then (invalid_argument, output)
    else if ltb (length output) 14
    then (invalid_argument, output)
    else (ok, write_u16 (copy_to (copy_to output 0 h.destination) 6 h.source) 12 h.ether_type)

-- `parse`. The outer option is `none` where a byte outside the input is read; the copies of the
-- addresses read bytes that the first test has found.
unfoldable pub parse : List ℕ → Option (Option Ethernet)
unfolding validate
parse input = if ltb (length input) 14 then some none else (do
  ether_type ← read_u16 input 12
  (let h : Ethernet = record {
    destination = take 6 input;
    source = take 6 (drop 6 input);
    ether_type = ether_type;
  } in
      if not (validate h) then some none else some (some h)))
