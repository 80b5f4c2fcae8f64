-- ===== src/ReedSolomon/Decoder.antt =====
-- The decoder of gfsk_ax25/reedsolomon.py. An erased position is a natural number; in the
-- exponent `1 - self.fcr`, which is used modulo 255, 254 stands for -1.
use gs_flowgraphs.Base.{
  ℕ, zero, suc, ◌+◌, ◌-◌, ◌*◌, bit_xor, Bool, true, false, Option, none, some, List, [], ◌∷◌, ◌++◌,
  map, ◌&&◌, ◌||◌, ltb, leb, ◌==◌, if◌then◌else◌, length, get_or, replicate, take,
}
use gs_flowgraphs.ReedSolomon.{
  RsCodec, set_at, mul, pow, inv, poly_add, poly_scale, poly_mul, poly_eval, remainder, octets,
  without_first,
}

-- What `decode_with_count` gives; an empty word has no coefficient to read.
pub data Decoded : Type 0 where
  decoded : List ℕ → ℕ → Decoded
  uncorrectable value_error index_error : Decoded

unfoldable pub reverse_onto : List ℕ → List ℕ → List ℕ
reverse_onto [] ys = ys
reverse_onto (x ∷ xs) ys = reverse_onto xs (x ∷ ys)

unfoldable pub reversed : List ℕ → List ℕ
reversed xs = reverse_onto xs []

unfoldable pub all_zero : List ℕ → Bool
all_zero [] = true
all_zero (x ∷ xs) = (x == 0) && all_zero xs

unfoldable pub mem : ℕ → List ℕ → Bool
mem p [] = false
mem p (q ∷ ps) = (p == q) || mem p ps

-- `len(set(...))`
unfoldable pub distinct : List ℕ → ℕ
distinct [] = 0
distinct (p ∷ ps) = if mem p ps then distinct ps else distinct ps + 1

-- `sorted(set(...))`, one position at a time.
unfoldable pub inserted : ℕ → List ℕ → List ℕ
inserted p [] = p ∷ []
inserted p (q ∷ qs) =
    let rest = inserted p qs in if p == q then q ∷ qs else if ltb p q then p ∷ q ∷ qs else q ∷ rest

unfoldable pub sorted_set : List ℕ → List ℕ
sorted_set [] = []
sorted_set (p ∷ ps) = inserted p (sorted_set ps)

unfoldable pub any_outside : ℕ → List ℕ → Bool
any_outside n [] = false
any_outside n (p ∷ ps) = leb n p || any_outside n ps

unfoldable pub erased : List ℕ → List ℕ → List ℕ
erased msg [] = msg
erased msg (p ∷ ps) = erased (set_at msg p 0) ps

-- `msg[: len(msg) - nsym]`, where a negative bound counts from the end.
unfoldable pub without_parity : ℕ → List ℕ → List ℕ
without_parity nsym msg =
    if leb nsym (length msg) then take (length msg - nsym) msg else take (2 * length msg - nsym) msg

-- x-exponents of positions.
unfoldable pub coord_of : ℕ → List ℕ → List ℕ
coord_of n positions = map (λ p. n - 1 - p) positions

module _ (c : RsCodec) where
  abbrev times : ℕ → ℕ → ℕ
  times = mul c.exp c.log

  abbrev power : ℕ → ℕ → ℕ
  power = pow c.exp c.log

  abbrev inverse : ℕ → ℕ
  inverse = inv c.exp c.log

  -- The syndromes of the roots from number `i`, without the leading 0 of the source.
  unfoldable pub syndromes_from : List ℕ → ℕ → ℕ → List ℕ
  syndromes_from msg zero i = []
  syndromes_from msg (suc left) i =
      poly_eval c.exp c.log msg (power c.gen (i + c.fcr)) ∷ syndromes_from msg left (i + 1)

  unfoldable pub syndromes : List ℕ → List ℕ
  syndromes msg = 0 ∷ syndromes_from msg c.nsym 0

  -- The discrepancy of step `i`: the terms from number `j`.
  unfoldable pub discrepancy : List ℕ → List ℕ → ℕ → ℕ → ℕ → ℕ → ℕ
  discrepancy err_loc synd_terms i zero j delta = delta
  discrepancy err_loc synd_terms i (suc left) j delta =
      discrepancy err_loc synd_terms i left (j + 1) (
        bit_xor delta
          (times (get_or err_loc (length err_loc - (j + 1)) 0) (get_or synd_terms (i - j) 0)))

  -- The end of a step, with the discrepancy and with `old_loc` already shifted: the next `err_loc`
  -- and `old_loc`.
  unfoldable pub located : ℕ → List ℕ → List ℕ → List ℕ × List ℕ
  located delta err_loc old_loc =
      if delta == 0
      then (err_loc, old_loc)
      else if ltb (length err_loc) (length old_loc)
      then (let new_loc = poly_scale c.exp c.log old_loc delta in
          let older = poly_scale c.exp c.log err_loc (inverse delta) in
          (poly_add new_loc (poly_scale c.exp c.log older delta), older))
      else (poly_add err_loc (poly_scale c.exp c.log old_loc delta), old_loc)

  -- The loop of `_error_locator`, Berlekamp and Massey's, from step `i`.
  unfoldable pub locator_from : List ℕ → ℕ → ℕ → List ℕ × List ℕ → List ℕ
  locator_from synd_terms zero i (err_loc, old_loc) = err_loc
  locator_from synd_terms (suc left) i (err_loc, old_loc) =
      let delta = discrepancy err_loc synd_terms i (length err_loc - 1) 1 (get_or synd_terms i 0) in
      locator_from synd_terms left (i + 1) (located delta err_loc (old_loc ++ 0 ∷ []))

  unfoldable pub error_locator : List ℕ → ℕ → List ℕ
  error_locator synd_terms nsteps = locator_from synd_terms nsteps 0 (1 ∷ [], 1 ∷ [])

  -- One round of `_forney_syndromes`: each entry but the last takes in the next one.
  unfoldable pub folded : ℕ → List ℕ → List ℕ
  folded x [] = []
  folded x (a ∷ []) = a ∷ []
  folded x (a ∷ b ∷ fsynd) = bit_xor (times a x) b ∷ folded x (b ∷ fsynd)

  unfoldable pub forney_syndromes : List ℕ → List ℕ → List ℕ
  forney_syndromes fsynd [] = fsynd
  forney_syndromes fsynd (i ∷ coord) = forney_syndromes (folded (power c.gen i) fsynd) coord

  -- The search of `_find_errors` from exponent `i`.
  unfoldable pub positions_from : List ℕ → ℕ → ℕ → ℕ → List ℕ
  positions_from err_loc nmess zero i = []
  positions_from err_loc nmess (suc left) i =
      let later = positions_from err_loc nmess left (i + 1) in
      if poly_eval c.exp c.log err_loc (power c.gen i) == 0 then (nmess - 1 - i) ∷ later else later

  unfoldable pub find_errors : List ℕ → ℕ → Option (List ℕ)
  find_errors err_loc nmess =
      let positions = positions_from err_loc nmess nmess 0 in
      if length positions == length err_loc - 1 then some positions else none

  -- The errata locator, one factor for each exponent.
  unfoldable pub errata_from : List ℕ → List ℕ → List ℕ
  errata_from e_loc [] = e_loc
  errata_from e_loc (i ∷ coord) =
      errata_from (poly_mul c.exp c.log e_loc (poly_add (1 ∷ []) (power c.gen i ∷ 0 ∷ []))) coord

  -- The error evaluator: the remainder by a power of x.
  unfoldable pub evaluator : List ℕ → List ℕ → List ℕ
  evaluator synd e_loc =
      let product = poly_mul c.exp c.log (reversed synd) e_loc in
      remainder c.exp c.log (replicate (length e_loc) 0) (length product - length e_loc) product

  -- Forney's denominator for root `i`, the product over the others, from number `j`.
  unfoldable pub denominator : ℕ → List ℕ → ℕ → ℕ → ℕ → ℕ
  denominator xi_inv [] i j denom = denom
  denominator xi_inv (xj ∷ xs) i j denom =
      denominator xi_inv xs i (j + 1)
        (if j == i then denom else times denom (bit_xor 1 (times xi_inv xj)))

  -- The error values, put at their positions, from root `i`.
  unfoldable pub values_from : List ℕ → List ℕ → List ℕ → List ℕ → ℕ → List ℕ → Option (List ℕ)
  values_from e_eval x [] err_pos i e = some e
  values_from e_eval x (xi ∷ xs) err_pos i e =
      let xi_inv = inverse xi in
      let denom = denominator xi_inv x i 0 1 in
      let y = times (power xi (1 + 254 * c.fcr)) (poly_eval c.exp c.log e_eval xi_inv) in
      let rest =
        values_from e_eval x xs err_pos (i + 1)
          (set_at e (get_or err_pos i 0) (times y (inverse denom))) in
      if denom == 0 then none else rest

  unfoldable pub add_errors : List ℕ → Option (List ℕ) → Option (List ℕ)
  add_errors msg none = none
  add_errors msg (some e) = some (poly_add msg e)

  unfoldable pub correct : List ℕ → List ℕ → List ℕ → Option (List ℕ)
  correct msg synd err_pos =
      let coord = coord_of (length msg) err_pos in
      let e_eval = evaluator synd (errata_from (1 ∷ []) coord) in
      let x = map (λ p. power c.gen p) coord in
      add_errors msg (values_from e_eval x x err_pos 0 (replicate (length msg) 0))

  -- The last test, on the corrected word.
  unfoldable pub confirmed : List ℕ → Option (List ℕ) → Decoded
  confirmed positions none = uncorrectable
  confirmed positions (some fixed) =
      if all_zero (syndromes fixed)
      then decoded (without_parity c.nsym fixed) (distinct positions)
      else uncorrectable

  unfoldable pub errors_found : List ℕ → List ℕ → List ℕ → Option (List ℕ) → Decoded
  errors_found msg synd erase none = uncorrectable
  errors_found msg synd erase (some err_pos) =
      confirmed (erase ++ err_pos) (correct msg synd (erase ++ err_pos))

  -- After the erased positions are set to 0.
  unfoldable pub decode_erased : List ℕ → List ℕ → Decoded
  decode_erased msg erase =
      let synd = syndromes msg in
      if all_zero synd
      then decoded (without_parity c.nsym msg) 0
      else (let fsynd = forney_syndromes (without_first synd) (coord_of (length msg) erase) in
          let err_loc = reversed (error_locator fsynd (c.nsym - length erase)) in
          errors_found msg synd erase (find_errors err_loc (length msg)))

  unfoldable pub decode_with_count : List ℕ → List ℕ → Decoded
  decode_with_count codeword erase_pos =
      let msg = octets codeword in
      let erase = sorted_set erase_pos in
      if any_outside (length msg) erase
      then value_error
      else if ltb c.nsym (length erase)
      then uncorrectable
      else if (length msg == 0) && ltb 0 c.nsym
      then index_error
      else decode_erased (erased msg erase) erase
