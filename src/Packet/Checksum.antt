-- ===== src/Packet/Checksum.antt =====
-- include/packet/checksum.hpp and src/packet/checksum.cpp: the internet checksum and its pseudo
-- headers. `x & 0xFFFF` and `x >> 16` are written `x % 65536` and `x / 65536`.
pub mod OnesComplement
mod Tests
use skan.Base.{
  ℕ, zero, suc, ◌+◌, ◌-◌, ◌*◌, ◌/◌, ◌%◌, ◌^◌, Bool, true, false, List, [], ◌∷◌, ltb, ◌==◌,
  if◌then◌else◌, length,
}

-- `add_word`; the sum is a 32-bit word.
unfoldable pub add_word : ℕ → ℕ → ℕ
add_word sum word = let s = (sum + word) % 2 ^ 32 in s % 65536 + s / 65536

-- The loop over the pairs of bytes, with the odd byte at the end.
unfoldable pub add_words : ℕ → List ℕ → ℕ
add_words sum [] = sum
add_words sum (last ∷ []) = add_word sum (last * 256)
add_words sum (high ∷ low ∷ rest) = add_words (add_word sum (high * 256 + low)) rest

-- The loop that folds the carry back, with its rounds counted.
unfoldable pub fold_carry : ℕ → ℕ → ℕ
fold_carry zero sum = sum
fold_carry (suc fuel) sum =
    let rest = fold_carry fuel (sum % 65536 + sum / 65536) in if sum / 65536 == 0 then sum else rest

-- The end of the three functions: the carry is folded and the bits are inverted. Three rounds fold
-- any 32-bit sum.
unfoldable pub finish : ℕ → ℕ
unfolding fold_carry
finish sum = 65535 - fold_carry 3 sum % 65536

-- `internet`
unfoldable pub internet : List ℕ → ℕ
internet bytes = finish (add_words 0 bytes)

-- `ipv4_pseudo_header`
unfoldable pub ipv4_pseudo_header : ℕ → ℕ → ℕ → List ℕ → ℕ
ipv4_pseudo_header source destination protocol transport =
    if ltb 65535 (length transport) then 0 else finish (add_words header transport)
  where
    header : ℕ
    header =
        add_word
          (add_word
            (add_word
              (add_word (add_word (add_word 0 (source / 65536)) (source % 65536))
                (destination / 65536))
              (destination % 65536))
            protocol)
          (length transport)

-- The loop of `ipv6_pseudo_header` over the two addresses, a word of each in turn.
add_addresses : ℕ → List ℕ → List ℕ → ℕ
add_addresses sum (a ∷ b ∷ source) (c ∷ d ∷ destination) =
    add_addresses (add_word (add_word sum (a * 256 + b)) (c * 256 + d)) source destination
add_addresses sum _ _ = sum

-- `ipv6_pseudo_header`
unfoldable pub ipv6_pseudo_header : List ℕ → List ℕ → ℕ → List ℕ → ℕ
unfolding add_addresses
ipv6_pseudo_header source destination next_header transport =
    if ltb (2 ^ 32 - 1) size then 0 else finish (add_words header transport)
  where
    size : ℕ
    size = length transport

    header : ℕ
    header =
        add_word
          (add_word (add_word (add_addresses 0 source destination) (size / 65536 % 65536))
            (size % 65536))
          next_header
