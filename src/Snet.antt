-- ===== src/Snet.antt =====
-- native_framing/codes/snet.py: the BCH(15,k,d) code of S-NET and its two checks. A bit is 0 or 1.
pub mod Linear
pub mod Checks
pub mod Correction
use gs_flowgraphs.Base.{
  ℕ, zero, suc, ◌+◌, ◌-◌, ◌*◌, ◌/◌, ◌%◌, bit_and, bit_or, bit_xor, ◌<<<◌, ◌>>>◌, Bool, true, false,
  Option, none, some, List, [], ◌∷◌, ◌++◌, map, ◌&&◌, ◌||◌, not, Result, ok, value_error, ltb, ◌==◌,
  if◌then◌else◌, length, get_or, replicate, take, drop,
}

-- `_EXP_TABLE`
abbrev pub exp_table : List ℕ
exp_table = 8 ∷ 4 ∷ 2 ∷ 1 ∷ 12 ∷ 6 ∷ 3 ∷ 13 ∷ 10 ∷ 5 ∷ 14 ∷ 7 ∷ 15 ∷ 11 ∷ 9 ∷ []

unfoldable pub word_of : List ℕ → ℕ → ℕ
word_of [] word = word
word_of (bit ∷ bits) word = word_of bits (bit_or (word <<< 1) bit)

-- The loop over the powers that are left, the greatest first.
unfoldable pub syndrome_from : ℕ → ℕ → ℕ → ℕ → ℕ
syndrome_from root zero value syndrome = syndrome
syndrome_from root (suc power) value syndrome = syndrome_from root power (value >>> 1) (
    if bit_and value 1 == 1
    then bit_xor syndrome (get_or exp_table ((power * root) % 15) 0)
    else syndrome)

-- The syndromes from one root on.
unfoldable pub syndromes_from : ℕ → ℕ → ℕ → List ℕ
syndromes_from word zero root = []
syndromes_from word (suc left) root =
    syndrome_from root 15 word 0 ∷ syndromes_from word left (root + 1)

unfoldable pub syndromes : List ℕ → ℕ → List ℕ
syndromes bits distance = syndromes_from (word_of bits 0) (distance - 1) 1

-- `combinations(range(15), count)`, from position `lo`, of which `left` are left.
unfoldable pub combinations : ℕ → ℕ → ℕ → List (List ℕ)
combinations left lo zero = [] ∷ []
combinations zero lo (suc count) = []
combinations (suc left) lo (suc count) =
    map (λ positions. lo ∷ positions) (combinations left (lo + 1) count)
    ++ combinations left (lo + 1) (suc count)

unfoldable pub flipped : ℕ → List ℕ → List ℕ
flipped position [] = []
flipped zero (b ∷ bits) = bit_xor b 1 ∷ bits
flipped (suc position) (b ∷ bits) = b ∷ flipped position bits

unfoldable pub all_flipped : List ℕ → List ℕ → List ℕ
all_flipped [] bits = bits
all_flipped (position ∷ positions) bits = all_flipped positions (flipped position bits)

unfoldable pub same : List ℕ → List ℕ → Bool
same [] [] = true
same [] (y ∷ ys) = false
same (x ∷ xs) [] = false
same (x ∷ xs) (y ∷ ys) = (x == y) && same xs ys

unfoldable pub get : List (List ℕ × List ℕ) → List ℕ → Option (List ℕ)
get [] syndrome = none
get ((key, positions) ∷ table) syndrome =
    if same key syndrome then some positions else get table syndrome

-- `_error_table`; `none` is its `RuntimeError`.
unfoldable pub set_default :
    List (List ℕ × List ℕ) → List ℕ → List ℕ → Option (List ℕ) → Option (List (List ℕ × List ℕ))
set_default table syndrome positions none = some (table ++ (syndrome, positions) ∷ [])
set_default table syndrome positions (some prior) =
    if same prior positions then some table else none

unfoldable pub fill :
    ℕ → List (List ℕ) → Option (List (List ℕ × List ℕ)) → Option (List (List ℕ × List ℕ))
fill distance sets none = none
fill distance [] (some table) = some table
fill distance (positions ∷ sets) (some table) =
    let syndrome = syndromes (all_flipped positions (replicate 15 0)) distance in
    fill distance sets (set_default table syndrome positions (get table syndrome))

unfoldable pub fill_counts :
    ℕ → ℕ → ℕ → Option (List (List ℕ × List ℕ)) → Option (List (List ℕ × List ℕ))
fill_counts distance zero count table = table
fill_counts distance (suc left) count table =
    fill_counts distance left (count + 1) (fill distance (combinations 15 0 count) table)

unfoldable pub supported : ℕ → Bool
supported distance = (distance == 3) || ((distance == 5) || (distance == 7))

unfoldable pub error_table : ℕ → Result (Option (List (List ℕ × List ℕ)))
error_table distance =
    if supported distance
    then ok (fill_counts distance ((distance - 1) / 2) 1 (some []))
    else value_error

pub record Bch15DecodeResult : Type 0 where
  pub bits : List ℕ
  pub corrected_bits : ℕ

unfoldable pub any : List ℕ → Bool
any [] = false
any (x ∷ xs) = not (x == 0) || any xs

unfoldable pub binary : List ℕ → Bool
binary [] = true
binary (b ∷ bits) = ((b == 0) || (b == 1)) && binary bits

-- What `decode_bch15` gives: a result, `None`, or an exception.
pub data Decoded : Type 0 where
  decoded : Bch15DecodeResult → Decoded
  uncorrectable bad_value runtime_error : Decoded

unfoldable pub corrected : List ℕ → ℕ → Option (List ℕ) → Decoded
corrected received distance none = uncorrectable
corrected received distance (some positions) =
    let bits = all_flipped positions received in
    if any (syndromes bits distance)
    then uncorrectable
    else decoded (record { bits = bits; corrected_bits = length positions })

unfoldable pub looked_up : List ℕ → ℕ → Result (Option (List (List ℕ × List ℕ))) → Decoded
looked_up received distance value_error = bad_value
looked_up received distance (ok none) = runtime_error
looked_up received distance (ok (some table)) =
    corrected received distance (get table (syndromes received distance))

unfoldable pub decode_bch15 : List ℕ → ℕ → Decoded
decode_bch15 received distance =
    if not (length received == 15) || not (binary received)
    then bad_value
    else if any (syndromes received distance)
    then looked_up received distance (error_table distance)
    else decoded (record { bits = received; corrected_bits = 0 })
