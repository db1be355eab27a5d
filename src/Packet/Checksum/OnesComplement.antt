-- ===== src/Packet/Checksum/OnesComplement.antt =====
-- The checksum against the ones' complement sum of RFC 1071: arithmetic modulo 65535, in which a
-- sum of words that are not all zero is never zero.
use skan.Base.{
  ℕ, ◌+◌, ◌-◌, ◌*◌, ◌/◌, ◌%◌, ◌≤◌, ◌<◌, ◌≡◌, ap, ◌∙◌, List, [], ◌∷◌, ◌++◌, arith, ◌==◌,
  if◌then◌else◌,
}
use skan.Packet.Wire.{AllBytes}
use skan.Packet.Checksum.{add_word, add_words, finish, internet}

-- The sum of the 16-bit words of the bytes, the odd byte padded with zero.
abbrev pub word_sum : List ℕ → ℕ
word_sum [] = 0
word_sum (last ∷ []) = last * 256
word_sum (high ∷ low ∷ rest) = high * 256 + low + word_sum rest

-- The representative of a sum modulo 65535, between 1 and 65535 unless the sum is zero.
pub ones : ℕ → ℕ
ones n = if n == 0 then 0 else (n - 1) % 65535 + 1

-- One step keeps the bound on the running sum, and adds the word in the ones' complement sum.
add_word-ones :
    (sum word n : ℕ)
    → sum ≤ 65536
    → word ≤ 65535
    → (add_word sum word ≤ 65536) × (ones (add_word sum word + n) ≡ ones (sum + (word + n)))
unfolding add_word ones
add_word-ones sum word n h k = ground arith

add_words-ones :
    (sum : ℕ) (bytes : List ℕ)
    → sum ≤ 65536
    → AllBytes bytes
    → (add_words sum bytes ≤ 65536) × (ones (add_words sum bytes) ≡ ones (sum + word_sum bytes))
unfolding add_words
add_words-ones sum [] h b = (h, ap ones (omega arith))
add_words-ones sum (last ∷ []) h b =
    let (bound, e) = add_word-ones sum (last * 256) 0 h (omega arith) in
    (bound, ap ones (omega arith) ∙ e ∙ ap ones (omega arith))
add_words-ones sum (high ∷ low ∷ rest) h b =
    let (bound, e) = add_word-ones sum (high * 256 + low) (word_sum rest) h (omega arith) in
    let (bound', e') = add_words-ones (add_word sum (high * 256 + low)) rest bound b.1.1 in
    (bound', e' ∙ e)

finish-ones : (sum : ℕ) → sum ≤ 65536 → finish sum ≡ 65535 - ones sum
unfolding finish ones
finish-ones sum h = ground arith

-- The checksum of the bytes is the complement of their ones' complement sum.
pub internet_lem :
    (bytes : List ℕ) → AllBytes bytes → internet bytes ≡ 65535 - ones (word_sum bytes)
unfolding internet
internet_lem bytes b =
    let (bound, e) = add_words-ones 0 bytes (omega arith) b in
    finish-ones (add_words 0 bytes) bound ∙ ap (λ n. 65535 - n) (e ∙ ap ones (omega arith))

-- The checksum is a 16-bit word.
pub internet-lt : (bytes : List ℕ) → internet bytes < 65536
unfolding internet finish
internet-lt bytes = omega arith

abbrev pub IsEven : List ℕ → Type 0
IsEven [] = Unit
IsEven (b ∷ []) = ⊥
IsEven (a ∷ b ∷ bytes) = IsEven bytes

word_sum-append :
    (front rest : List ℕ) → IsEven front → word_sum (front ++ rest) ≡ word_sum front + word_sum rest
word_sum-append [] rest h = omega arith
word_sum-append (b ∷ []) rest h = absurd h
word_sum-append (a ∷ b ∷ front) rest h = omega (arith, word_sum-append front rest h)

AllBytes-append : (front rest : List ℕ) → AllBytes front → AllBytes rest → AllBytes (front ++ rest)
AllBytes-append [] rest h k = k
AllBytes-append (b ∷ front) rest h k = (h.0, AllBytes-append front rest h.1 k)

complement_ones : (n : ℕ) → 65535 - ones (n + (65535 - ones n)) ≡ 0
unfolding ones
complement_ones n = ground arith

-- Bytes in which the checksum of the same bytes with a zero field is stored at an even offset have
-- the checksum zero, which is what the parsers ask for.
pub stored_checksum_verifies :
    (front rest : List ℕ)
    → IsEven front
    → AllBytes front
    → AllBytes rest
    → let c = internet (front ++ (0 ∷ 0 ∷ rest)) in
      internet (front ++ (c / 256 % 256 ∷ c % 256 ∷ rest)) ≡ 0
stored_checksum_verifies front rest even f r =
    let c = internet (front ++ (0 ∷ 0 ∷ rest)) in
    let zero_lem =
      internet_lem (front ++ (0 ∷ 0 ∷ rest))
        (AllBytes-append front (0 ∷ 0 ∷ rest) f (omega arith, (omega arith, r))) in
    let stored_lem =
      internet_lem (front ++ (c / 256 % 256 ∷ c % 256 ∷ rest)) (
        AllBytes-append front (c / 256 % 256 ∷ c % 256 ∷ rest) f (omega arith, (omega arith, r))) in
    let n = word_sum front + word_sum rest in
    let w : word_sum (front ++ (0 ∷ 0 ∷ rest)) ≡ n =
      omega (arith, word_sum-append front (0 ∷ 0 ∷ rest) even) in
    let e = zero_lem ∙ ap (λ k. 65535 - ones k) w in
    stored_lem
    ∙ ap (λ k. 65535 - ones k)
        (omega (arith, word_sum-append front (c / 256 % 256 ∷ c % 256 ∷ rest) even))
    ∙ complement_ones n
