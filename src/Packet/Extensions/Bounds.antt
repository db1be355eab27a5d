-- ===== src/Packet/Extensions/Bounds.antt =====
-- The parser ends, reads nothing outside the payload and stays within its budgets.
use skan.Base.{
  ◌||◌, Bool-cases, inl, inr, ℕ, zero, suc, ◌+◌, ◌-◌, ◌≤◌, ◌<◌, ◌≡◌, refl, true, Option, none, some,
  List, [], ◌∷◌, ◌++◌, arith, ltb, leb, length, get_elem?-some, length-append,
}
use skan.Packet.Wire.{read_u16-some, read_u32-some}
use skan.Packet.Extensions.{
  ParseResult, ExtensionHeader, Round, stops, appends, is_supported_extension, read_header,
  read_size, fit_header, round, finished, parse_loop, parse_ipv6_extensions,
}

-- The bytes that the headers take.
abbrev pub total_size : List ExtensionHeader → ℕ
total_size [] = 0
total_size (h ∷ hs) = h.size + total_size hs

-- The headers and bytes of a result lie within the budgets and the payload, and the headers are
-- exactly the bytes consumed.
pub record IsWithin (payload : List ℕ) (max_headers max_bytes : ℕ) (r : ParseResult) : Type 0 where
  pub in_payload : r.consumed_bytes ≤ length payload
  pub in_budget : r.consumed_bytes ≤ max_bytes
  pub few_headers : length r.headers ≤ max_headers
  pub contiguous : total_size r.headers ≡ r.consumed_bytes

-- A value is returned, and it has the property.
abbrev pub Returns {ℓ} : {A : Type ℓ} → (A → Type 0) → Option A → Type 0
Returns P none = ⊥
Returns P (some a) = P a

Returns-some : {A : Type 0} (P : A → Type 0) (o : Option A) → Returns P o → (a : A) × (o ≡ some a)
Returns-some P none h = absurd h
Returns-some P (some a) h = (a, refl)

-- What a round may do at an offset: stop, or append a header of at least eight bytes that fits.
abbrev Fits : ℕ → ℕ → ℕ → ℕ → ℕ → Round → Type 0
Fits available budget max_headers count offset (stops status) = Unit
Fits available budget max_headers count offset (appends h) =
    (8 ≤ h.size) × (h.size ≤ available) × (h.size ≤ budget) × (count < max_headers)

read_header_size :
    (payload : List ℕ) (kind next offset size : ℕ)
    → offset + 8 ≤ length payload
    → Returns (λ h. h.size ≡ size) (read_header payload kind next offset size)
unfolding read_header
read_header_size payload kind next offset size h =
    let (a, ea) = read_u16-some payload (offset + 2) (omega arith) in
    let (b, eb) = read_u32-some payload (offset + 4) (omega arith) in ground arith

read_size_reads :
    (payload : List ℕ) (kind offset : ℕ)
    → offset + 2 ≤ length payload
    → Returns (λ n. 8 ≤ n) (read_size payload kind offset)
unfolding read_size
read_size_reads payload kind offset h =
    let (a, ea) = get_elem?-some payload (offset + 1) (omega arith) in ground arith

fit_header-Fits :
    (payload : List ℕ) (max_headers kind next offset size budget count : ℕ)
    → offset ≤ length payload
    → count < max_headers
    → Returns
        (Fits (length payload - offset) budget max_headers count offset)
        (fit_header payload kind next offset size (length payload - offset) budget)
unfolding fit_header
fit_header-Fits payload max_headers kind next offset size budget count h k =
    ground (arith, read_header_size payload kind next offset size)

round-Fits :
    (payload : List ℕ) (max_headers max_bytes kind offset count : ℕ)
    → offset ≤ length payload
    → Returns
        (Fits (length payload - offset) (max_bytes - offset) max_headers count offset)
        (round payload max_headers max_bytes kind offset count)
unfolding round
round-Fits payload max_headers max_bytes kind offset count h =
    elim (Bool-cases (leb max_headers count || leb max_bytes offset)) [
      | inl e ↦ rw e tt
      | inr e ↦ elim (Bool-cases (ltb (length payload - offset) 2 || ltb (max_bytes - offset) 2)) [
        | inl f ↦ rw (e, f) tt
        | inr f ↦
            let c : count < max_headers = ground arith in
            let room : offset + 2 ≤ length payload = ground arith in
            let (next, en) = get_elem?-some payload offset (omega arith) in
            let (size, es) =
              Returns-some (λ n. 8 ≤ n) (read_size payload kind offset)
                (read_size_reads payload kind offset room) in
            rw (e, f, en, es)
              (fit_header-Fits payload max_headers kind next offset size (max_bytes - offset) count
                h c)
      ]
    ]

total_size-append :
    (hs ks : List ExtensionHeader) → total_size (hs ++ ks) ≡ total_size hs + total_size ks
total_size-append [] ks = omega arith
total_size-append (h ∷ hs) ks = omega (arith, total_size-append hs ks)

module _ (payload : List ℕ) (max_headers max_bytes first : ℕ) where
  -- What the loop carries: fuel for the headers that are left, the offset within both limits, and
  -- the bytes of the headers read.
  record Carries (fuel offset : ℕ) (headers : List ExtensionHeader) : Type 0 where
    fuelled : max_headers < fuel + length headers
    in_payload : offset ≤ length payload
    in_budget : offset ≤ max_bytes
    few_headers : length headers ≤ max_headers
    contiguous : total_size headers ≡ offset

  -- The rest of a round whose outcome is known, given the claim for the rounds that follow.
  outcome-IsWithin :
      (fuel kind offset : ℕ) (headers : List ExtensionHeader) (outcome : Option Round)
      → ((next at : ℕ) (hs : List ExtensionHeader)
          → Carries fuel at hs
          → Returns
              (IsWithin payload max_headers max_bytes)
              (parse_loop fuel payload max_headers max_bytes first next at hs))
      → Carries (suc fuel) offset headers
      → is_supported_extension kind ≡ true
      → round payload max_headers max_bytes kind offset (length headers) ≡ outcome
      → Returns
          (Fits (length payload - offset) (max_bytes - offset) max_headers (length headers) offset)
          outcome
      → Returns
          (IsWithin payload max_headers max_bytes)
          (parse_loop (suc fuel) payload max_headers max_bytes first kind offset headers)
  unfolding parse_loop
  outcome-IsWithin fuel kind offset headers none ih c sup e f = absurd f
  outcome-IsWithin fuel kind offset headers (some (stops status)) ih c sup e f =
      rw (Returns, parse_loop, sup, e) (omega arith)
  outcome-IsWithin fuel kind offset headers (some (appends h)) ih c sup e f =
      rw (Returns, parse_loop, sup, e)
        (ih h.next_header (offset + h.size) (headers ++ (h ∷ []))
          (omega (arith, length-append {0} headers (h ∷ []), total_size-append headers (h ∷ []))))

  parse_loop-IsWithin :
      (fuel kind offset : ℕ) (headers : List ExtensionHeader)
      → Carries fuel offset headers
      → Returns
          (IsWithin payload max_headers max_bytes)
          (parse_loop fuel payload max_headers max_bytes first kind offset headers)
  unfolding parse_loop finished
  parse_loop-IsWithin zero kind offset headers c = absurd (omega arith)
  parse_loop-IsWithin (suc fuel) kind offset headers c =
      elim (Bool-cases (is_supported_extension kind)) [
        | inl sup ↦
            outcome-IsWithin fuel kind offset headers
              (round payload max_headers max_bytes kind offset (length headers))
              (λ next at hs k. parse_loop-IsWithin fuel next at hs k) c sup refl
              (round-Fits payload max_headers max_bytes kind offset (length headers) c.in_payload)
        | inr no_more ↦ rw (Returns, parse_loop, no_more) (omega arith)
      ]

-- For every payload and every budget the parser returns a result, so that it ends and reads no byte
-- outside the payload; the bytes consumed lie in the payload and in the byte budget, there are no
-- more headers than allowed, and their sizes add up to the bytes consumed.
pub parse-IsWithin :
    (payload : List ℕ) (first max_headers max_bytes : ℕ)
    → Returns
        (IsWithin payload max_headers max_bytes)
        (parse_ipv6_extensions payload first max_headers max_bytes)
unfolding parse_ipv6_extensions
parse-IsWithin payload first max_headers max_bytes = ground (
  arith,
  parse_loop-IsWithin payload max_headers max_bytes first (max_headers + 1) first 0 [] (record {
    fuelled = omega arith;
    in_payload = omega arith;
    in_budget = omega arith;
    few_headers = omega arith;
    contiguous = refl;
  }),
)
