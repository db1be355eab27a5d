-- ===== src/PortScan/Ports.antt =====
-- src/portscan/port_types.cpp: `parse_ports`, from a text such as "22,80-90" to the ports.
--
-- A text is the list of its bytes. `std::isspace` is that of the C locale, `std::sort` is insertion
-- sort and `std::unique` keeps the first of equal neighbours. Whether the allocations for the ports
-- of the i-th token succeed is an argument.
pub mod Selection
pub mod Members
pub mod Texts
pub mod Tokens
pub mod Choice
mod Tests
use skan.Base.{
  ℕ, zero, suc, ◌+◌, ◌-◌, ◌*◌, Bool, true, false, ◌&&◌, ◌||◌, not, Option, none, some, List, [],
  ◌∷◌, ◌++◌, ltb, leb, ◌==◌, if◌then◌else◌,
}
use skan.Core.{StatusCode, ok, invalid_argument, memory_error, is_ok}
use skan.Packet.Wire.{◌>>=◌}
use skan.PortScan.Types.{Port, Protocol, protocol_number, tcp, udp}

-- `std::isspace`
abbrev is_space : ℕ → Bool
is_space b = (leb 9 b && leb b 13) || b == 32

abbrev pub is_empty : List ℕ → Bool
is_empty [] = true
is_empty (b ∷ bs) = false

-- The first loop of `trim`.
unfoldable pub trim_front : List ℕ → List ℕ
trim_front [] = []
trim_front (b ∷ bs) = let rest = trim_front bs in if is_space b then rest else b ∷ bs

-- The second loop of `trim`.
unfoldable pub trim_back : List ℕ → List ℕ
trim_back [] = []
trim_back (b ∷ bs) = let rest = trim_back bs in if is_space b && is_empty rest then [] else b ∷ rest

-- `trim`
unfoldable pub trim : List ℕ → List ℕ
unfolding trim_front trim_back
trim value = trim_back (trim_front value)

-- `std::from_chars` in base 10, on a text that it has to read to its end; a number that does not fit
-- an `unsigned int` is too large for a port, too.
unfoldable pub number : ℕ → List ℕ → Option ℕ
number value [] = some value
number value (b ∷ bs) =
    let rest = number (value * 10 + (b - b'0')) bs in
    if leb b'0' b && leb b b'9' then rest else none

-- The last test of `parse_port_number`.
unfoldable pub in_range : ℕ → Option ℕ
in_range n = if n == 0 || ltb 65535 n then none else some n

-- `parse_port_number`
unfoldable pub parse_port_number : List ℕ → Option ℕ
unfolding trim number in_range
parse_port_number value =
    if is_empty (trim value) then none else (do n ← number 0 (trim value); in_range n)

-- The pieces of a text between the separators, at least one.
unfoldable pub pieces : ℕ → List ℕ → List (List ℕ)
pieces separator [] = [] ∷ []
pieces separator (b ∷ bs) =
    let rest = pieces separator bs in if b == separator then [] ∷ rest else extend b rest
  where
    extend : ℕ → List (List ℕ) → List (List ℕ)
    extend b [] = (b ∷ []) ∷ []
    extend b (p ∷ ps) = (b ∷ p) ∷ ps

-- The loop from the first port of a range, for a number of ports.
unfoldable pub count_up : Protocol → ℕ → ℕ → List Port
count_up protocol first zero = []
count_up protocol first (suc n) =
    record { number = first; protocol = protocol } ∷ count_up protocol (first + 1) n

-- A range, once its ends are read.
unfoldable pub range : Protocol → ℕ → ℕ → Option (List Port)
unfolding count_up
range protocol first last =
    if ltb last first then none else some (count_up protocol first (last + 1 - first))

-- A token, from its pieces between the dashes.
unfoldable pub piece_ports : Protocol → List (List ℕ) → Option (List Port)
unfolding parse_port_number range
piece_ports protocol (whole ∷ []) = do
  port ← parse_port_number whole
  some (record { number = port; protocol = protocol } ∷ [])
piece_ports protocol (low ∷ high ∷ []) = do
  first ← parse_port_number low
  last ← parse_port_number high
  range protocol first last
piece_ports protocol _ = none

-- A token of the text; the ports that it stands for, none if it is invalid.
unfoldable pub token_ports : Protocol → List ℕ → Option (List Port)
unfolding trim pieces piece_ports
token_ports protocol token =
    if is_empty (trim token) then none else piece_ports protocol (pieces b'-' (trim token))

-- The loop of `parse_ports` over the tokens.
unfoldable pub collect :
    (ℕ → Bool) → Protocol → ℕ → List (List ℕ) → List Port → StatusCode × List Port
collect memory protocol i [] ports = (ok, ports)
collect memory protocol i (token ∷ rest) ports = elim (token_ports protocol token) [
  | none ↦ (invalid_argument, [])
  | some more ↦ elim (memory i) [
    | true ↦ collect memory protocol (i + 1) rest (ports ++ more)
    | false ↦ (memory_error, [])
  ]
]

-- `operator<` on ports
abbrev pub before : Port → Port → Bool
before p q =
    if not (p.number == q.number)
    then ltb p.number q.number
    else ltb (protocol_number p.protocol) (protocol_number q.protocol)

-- `operator==` on ports
abbrev same_port : Port → Port → Bool
same_port p q = p.number == q.number && protocol_number p.protocol == protocol_number q.protocol

-- `std::sort`
unfoldable pub insert : Port → List Port → List Port
insert p [] = p ∷ []
insert p (q ∷ qs) = let rest = insert p qs in if before q p then q ∷ rest else p ∷ q ∷ qs

unfoldable pub sort : List Port → List Port
unfolding insert
sort [] = []
sort (p ∷ ps) = insert p (sort ps)

-- `std::unique`, behind its first port.
unfoldable pub skip : Port → List Port → List Port
skip p [] = []
skip p (q ∷ qs) = let rest = skip q qs in if same_port p q then rest else q ∷ rest

unfoldable pub unique : List Port → List Port
unfolding skip
unique [] = []
unique (p ∷ ps) = p ∷ skip p ps

-- `parse_ports`
unfoldable pub parse_ports : (ℕ → Bool) → List ℕ → Protocol → StatusCode × List Port
unfolding trim pieces collect sort unique
parse_ports memory specification protocol =
    if is_empty (trim specification)
    then (invalid_argument, [])
    else (status, if is_ok status then unique (sort ports) else [])
  where
    outcome : StatusCode × List Port
    outcome = collect memory protocol 0 (pieces b',' specification) []

    status : StatusCode
    status = outcome.0

    ports : List Port
    ports = outcome.1
