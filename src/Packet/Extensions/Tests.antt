-- ===== src/Packet/Extensions/Tests.antt =====
-- A hop-by-hop header and a fragment header before TCP.
use skan.Base.{ℕ, ◌≡◌, refl, true, false, some, List, [], ◌∷◌}
use skan.Packet.Extensions.{
  parse_ipv6_extensions, parse_loop, round, read_size, read_header, fit_header, finished, complete,
}
use skan.Packet.Extensions.Bounds.{IsWithin, Returns, parse-IsWithin}

abbrev chain : List ℕ
chain = 44 ∷ 0 ∷ 1 ∷ 4 ∷ 0 ∷ 0 ∷ 0 ∷ 0 ∷ 6 ∷ 0 ∷ 0 ∷ 9 ∷ 0 ∷ 0 ∷ 0 ∷ 5 ∷ 0xff ∷ []

parse-IsWithin_example : Returns (IsWithin chain 8 2048) (parse_ipv6_extensions chain 0 8 2048)
parse-IsWithin_example = parse-IsWithin chain 0 8 2048

parse_chain :
    parse_ipv6_extensions chain 0 8 2048
    ≡ some (record {
      status = complete;
      terminal_next_header = 6;
      consumed_bytes = 16;
      headers =
          record {
            kind = 0;
            next_header = 44;
            offset = 0;
            size = 8;
            fragment_offset = 0;
            more_fragments = false;
            fragment_identification = 0;
          }
          ∷ record {
            kind = 44;
            next_header = 6;
            offset = 8;
            size = 8;
            fragment_offset = 1;
            more_fragments = true;
            fragment_identification = 5;
          }
          ∷ [];
    })
unfolding parse_ipv6_extensions parse_loop round read_size read_header fit_header finished
parse_chain = refl
