-- ===== src/Base/Words.antt =====
-- `std::size_t` and `std::uint64_t`: 64-bit words, whose increment wraps.
use Prim.Native.Nat.{ℕ, ◌+◌, ◌-◌, ◌%◌, ◌^◌}

abbrev pub word_max : ℕ
word_max = 2 ^ 64 - 1

-- `++value`
abbrev pub increment : ℕ → ℕ
increment n = (n + 1) % 2 ^ 64
