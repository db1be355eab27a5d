-- ===== src/PortScan/Ports/Choice.antt =====
-- What `parse_ports` of src/portscan/port_types.cpp selects: the ports that the text lists.
use skan.Base.{
  if◌then◌else◌, ℕ, zero, suc, ◌+◌, ◌-◌, ◌≡◌, refl, ◌∙◌, ap, Bool, true, ◌&&◌, ◌||◌, List, [], ◌∷◌,
  ◌++◌, ltb, leb, ◌==◌, arith,
}
use mathlib.Core.List.{append-nil, append_assoc}
use skan.Core.{ok, is_ok}
use skan.PortScan.Types.{Port, Protocol, protocol_number}
use skan.PortScan.Ports.{count_up, collect, sort, unique, parse_ports}
use skan.PortScan.Ports.Members.{holds, holds-unique-sort}
use skan.PortScan.Ports.Texts.{
  Item, single, span, text, value, covers, covered, IsItem, AllItems, Padded,
}
use skan.PortScan.Ports.Tokens.{
  texts, pieces-text, item_ports, trim-text-filled, token_ports-padded_text,
}

holds-append : (p : Port) (ps qs : List Port) → holds p (ps ++ qs) ≡ (holds p ps || holds p qs)
holds-append p [] qs = refl
holds-append p (q ∷ ps) qs = ground (arith, holds-append p ps qs)

-- `==` on protocols
abbrev pub same_protocol : Port → Protocol → Bool
same_protocol p protocol = protocol_number p.protocol == protocol_number protocol

holds-count_up :
    (p : Port) (protocol : Protocol) (first n : ℕ)
    → holds p (count_up protocol first n)
      ≡ (same_protocol p protocol && (leb first p.number && ltb p.number (first + n)))
unfolding count_up
holds-count_up p protocol first zero = ground arith
holds-count_up p protocol first (suc n) = ground (arith, holds-count_up p protocol (first + 1) n)

holds-item_ports :
    (p : Port) (protocol : Protocol) (item : Item)
    → IsItem item
    → holds p (item_ports protocol item) ≡ (same_protocol p protocol && covers item p.number)
holds-item_ports p protocol (single ds) h = ground arith
holds-item_ports p protocol (span low high) h =
    let e = holds-count_up p protocol (value low) (value high + 1 - value low) in ground arith

abbrev all_ports : Protocol → List Padded → List Port
all_ports protocol [] = []
all_ports protocol (p ∷ ps) = item_ports protocol p.item ++ all_ports protocol ps

holds-all_ports :
    (p : Port) (protocol : Protocol) (items : List Padded)
    → AllItems items
    → holds p (all_ports protocol items) ≡ (same_protocol p protocol && covered items p.number)
holds-all_ports p protocol [] h = ground arith
holds-all_ports p protocol (item ∷ items) h =
    holds-append p (item_ports protocol item.item) (all_ports protocol items)
    ∙ joined _ _ (same_protocol p protocol) (covers item.item p.number) (covered items p.number)
        (holds-item_ports p protocol item.item h.0) (holds-all_ports p protocol items h.1)
  where
    joined : (a b c d e : Bool) → a ≡ (c && d) → b ≡ (c && e) → (a || b) ≡ (c && (d || e))
    joined a b c d e f g = ground arith

collect-texts :
    (memory : ℕ → Bool) (protocol : Protocol) (i : ℕ) (items : List Padded) (ports : List Port)
    → AllItems items
    → ((j : ℕ) → memory j ≡ true)
    → collect memory protocol i (texts items) ports ≡ (ok, ports ++ all_ports protocol items)
unfolding collect
collect-texts memory protocol i [] ports h m = rw append-nil refl
collect-texts memory protocol i (item ∷ items) ports h m =
    rw (collect, token_ports-padded_text protocol item h.0, m i)
      (collect-texts memory protocol (i + 1) items (ports ++ item_ports protocol item.item) h.1 m
        ∙ ap (λ ps. (ok, ps)) (append_assoc ports (item_ports protocol item.item) _))

parse_ports_lem :
    (memory : ℕ → Bool) (protocol : Protocol) (item : Padded) (rest : List Padded)
    → AllItems (item ∷ rest)
    → ((i : ℕ) → memory i ≡ true)
    → parse_ports memory (text item rest) protocol
      ≡ (ok, unique (sort (all_ports protocol (item ∷ rest))))
unfolding parse_ports
parse_ports_lem memory protocol item rest h m = rw (trim-text-filled item rest h.0) (
    ap (λ o. (o.0, if is_ok o.0 then unique (sort o.1) else []))
      (ap (λ tokens. collect memory protocol 0 tokens []) (pieces-text item rest)
        ∙ collect-texts memory protocol 0 (item ∷ rest) [] h m))

-- With memory enough, the text of one or more items joined by commas, each a decimal number or two
-- with a dash between them in order, from 1 to 65535, with leading zeros or without and with spaces
-- around the item or without, is accepted, and the ports selected are those with the protocol asked
-- for and a number that an item covers.
pub parse_ports-text :
    (memory : ℕ → Bool) (protocol : Protocol) (item : Padded) (rest : List Padded) (p : Port)
    → AllItems (item ∷ rest)
    → ((i : ℕ) → memory i ≡ true)
    → let (status, ports) = parse_ports memory (text item rest) protocol in
      (status ≡ ok) × (holds p ports ≡ (same_protocol p protocol && covered (item ∷ rest) p.number))
parse_ports-text memory protocol item rest p h m =
    rw (parse_ports_lem memory protocol item rest h m) (
      refl,
      holds-unique-sort p (all_ports protocol (item ∷ rest))
          ∙ holds-all_ports p protocol (item ∷ rest) h,
    )
