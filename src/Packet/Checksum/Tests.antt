-- ===== src/Packet/Checksum/Tests.antt =====
-- The checksum of an IPv4 header, without and with its checksum field.
use skan.Base.{ℕ, ◌-◌, ◌/◌, ◌%◌, ◌≡◌, refl, List, [], ◌∷◌, ◌++◌, arith}
use skan.Packet.Checksum.{add_word, add_words, finish, internet}
use skan.Packet.Checksum.OnesComplement.{ones, word_sum, internet_lem, stored_checksum_verifies}

abbrev front : List ℕ
front = 0x45 ∷ 0x00 ∷ 0x00 ∷ 0x73 ∷ 0x00 ∷ 0x00 ∷ 0x40 ∷ 0x00 ∷ 0x40 ∷ 0x11 ∷ []

abbrev addresses : List ℕ
addresses = 0xc0 ∷ 0xa8 ∷ 0x00 ∷ 0x01 ∷ 0xc0 ∷ 0xa8 ∷ 0x00 ∷ 0xc7 ∷ []

known_checksum : internet (front ++ (0 ∷ 0 ∷ addresses)) ≡ 0xb861
unfolding internet add_words add_word finish
known_checksum = refl

internet_lem_example :
    internet (front ++ (0 ∷ 0 ∷ addresses)) ≡ 65535 - ones (word_sum (front ++ (0 ∷ 0 ∷ addresses)))
internet_lem_example = internet_lem (front ++ (0 ∷ 0 ∷ addresses)) (omega arith)

stored_checksum_verifies_example :
    let c = internet (front ++ (0 ∷ 0 ∷ addresses)) in
    internet (front ++ (c / 256 % 256 ∷ c % 256 ∷ addresses)) ≡ 0
stored_checksum_verifies_example =
    stored_checksum_verifies front addresses tt (omega arith) (omega arith)
