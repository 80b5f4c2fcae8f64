-- ===== src/Snet/Correction.antt =====
-- What `decode_bch15` of native_framing/codes/snet.py corrects.
use gs_flowgraphs.Base.{
  both_of, ℕ, zero, suc, ◌+◌, ◌-◌, ◌/◌, Bool, true, false, Option, none, some, List, [], ◌∷◌, ◌++◌,
  ◌≡◌, refl, sym, subst, ap, ap₂, ◌∙◌, arith, All, ◌⊎◌, inl, inr, Result, ok, value_error, ◌||◌,
  ◌&&◌, ◌==◌, ==_iff, length, replicate,
}
use gs_flowgraphs.Snet.{
  word_of, syndrome_from, syndromes_from, syndromes, combinations, flipped, all_flipped, same, get,
  set_default, fill, fill_counts, supported, error_table, any, binary, decoded, corrected,
  looked_up, decode_bch15,
}
use gs_flowgraphs.Snet.Linear.{
  IsBit, xor_bits, syndromes-xor_bits, xor_bits-length, xor_bits-bits, xor_bits_twice,
  all_flipped_adds,
}

unfoldable same_set : Option (List ℕ) → List ℕ → Bool
same_set none positions = false
same_set (some found) positions = same found positions

-- The table knows the set of positions, which has a syndrome and consists of hard bits.
unfoldable known : List (List ℕ × List ℕ) → ℕ → List ℕ → Bool
known table distance positions =
    let error = all_flipped positions (replicate 15 0) in
    any (syndromes error distance)
    && (binary error
        && ((length error == 15) && same_set (get table (syndromes error distance)) positions))

unfoldable all_known : List (List ℕ × List ℕ) → ℕ → List (List ℕ) → Bool
all_known table distance [] = true
all_known table distance (positions ∷ sets) =
    known table distance positions && all_known table distance sets

-- The sets of `count` positions and of more, for as many counts as are left.
unfoldable pub error_sets : ℕ → ℕ → List (List ℕ)
error_sets zero count = []
error_sets (suc left) count = combinations 15 0 count ++ error_sets left (count + 1)

unfoldable knows : Result (Option (List (List ℕ × List ℕ))) → ℕ → List (List ℕ) → Bool
knows value_error distance sets = false
knows (ok none) distance sets = false
knows (ok (some table)) distance sets = all_known table distance sets

knows_3 : knows (error_table 3) 3 (error_sets 1 1) ≡ true
unfolding knows error_sets all_known known same_set error_table supported fill_counts fill
    set_default get same combinations all_flipped flipped syndromes syndromes_from syndrome_from
    word_of any binary
knows_3 = refl

knows_5 : knows (error_table 5) 5 (error_sets 2 1) ≡ true
unfolding knows error_sets all_known known same_set error_table supported fill_counts fill
    set_default get same combinations all_flipped flipped syndromes syndromes_from syndrome_from
    word_of any binary
knows_5 = refl

knows_7 : knows (error_table 7) 7 (error_sets 3 1) ≡ true
unfolding knows error_sets all_known known same_set error_table supported fill_counts fill
    set_default get same combinations all_flipped flipped syndromes syndromes_from syndrome_from
    word_of any binary
knows_7 = refl

same_sound : (xs ys : List ℕ) → same xs ys ≡ true → xs ≡ ys
unfolding same
same_sound [] [] h = refl
same_sound [] (y ∷ ys) h = absurd (cc)
same_sound (x ∷ xs) [] h = absurd (cc)
same_sound (x ∷ xs) (y ∷ ys) h =
    let (first, rest) = both_of (x == y) (same xs ys) h in
    ap₂ ◌∷◌ ((==_iff x y).0 first) (same_sound xs ys rest)

same_set_sound :
    (found : Option (List ℕ)) (positions : List ℕ)
    → same_set found positions ≡ true
    → found ≡ some positions
unfolding same_set
same_set_sound none positions h = absurd (cc)
same_set_sound (some found) positions h = ap some (same_sound found positions h)

IsBit-of : (b : ℕ) → ((b == 0) || (b == 1)) ≡ true → IsBit b
IsBit-of b h = ground arith

of_bit : (b : ℕ) → IsBit b → ((b == 0) || (b == 1)) ≡ true
of_bit b h = ground arith

binary_bits : (bits : List ℕ) → binary bits ≡ true → All IsBit bits
unfolding binary
binary_bits [] h = tt
binary_bits (b ∷ bits) h =
    let (first, rest) = both_of ((b == 0) || (b == 1)) (binary bits) h in
    (IsBit-of b first, binary_bits bits rest)

bits_binary : (bits : List ℕ) → All IsBit bits → binary bits ≡ true
unfolding binary
bits_binary [] h = refl
bits_binary (b ∷ bits) h = rw (of_bit b h.0) (bits_binary bits h.1)

module _ (distance : ℕ) (bits : List ℕ) (size : length bits ≡ 15) (hard : binary bits ≡ true)
    (quiet : any (syndromes bits distance) ≡ false) where
  abbrev pub Corrects : List ℕ → Type 0
  Corrects positions =
      decode_bch15 (all_flipped positions bits) distance
      ≡ decoded (record { bits = bits; corrected_bits = length positions })

  known-Corrects :
      (table : List (List ℕ × List ℕ)) (positions : List ℕ)
      → error_table distance ≡ ok (some table)
      → known table distance positions ≡ true
      → Corrects positions
  unfolding known decode_bch15 looked_up corrected
  known-Corrects table positions made k =
      let error = all_flipped positions (replicate 15 0) in
      let (loud, rest) = both_of (any (syndromes error distance)) _ k in
      let (error_hard, rest') = both_of (binary error) _ rest in
      let (error_size, found) =
        both_of (length error == 15) (same_set (get table (syndromes error distance)) positions)
          rest' in
      let even : length error ≡ length bits = (==_iff (length error) 15).0 error_size ∙ sym size in
      let received = xor_bits bits error in
      let adds : all_flipped positions bits ≡ received =
        all_flipped_adds positions bits
        ∙ ap (λ n. xor_bits bits (all_flipped positions (replicate n 0))) size in
      let received_size : length received ≡ 15 = xor_bits-length bits error ∙ size in
      let received_hard =
        bits_binary received
          (xor_bits-bits bits error (binary_bits bits hard) (binary_bits error error_hard)) in
      let heard =
        syndromes-xor_bits bits error distance even (binary_bits bits hard)
          (binary_bits error error_hard) quiet in
      let back : all_flipped positions received ≡ bits =
        all_flipped_adds positions received
        ∙ ap (λ n. xor_bits received (all_flipped positions (replicate n 0))) received_size
        ∙ xor_bits_twice bits error even in
      rw
        (
          adds,
          received_size,
          received_hard,
          heard,
          loud,
          made,
          heard,
          same_set_sound (get table (syndromes error distance)) positions found,
          back,
          quiet,
        )
        refl

  all_known-Corrects :
      (table : List (List ℕ × List ℕ)) (sets : List (List ℕ))
      → error_table distance ≡ ok (some table)
      → all_known table distance sets ≡ true
      → All Corrects sets
  unfolding all_known
  all_known-Corrects table [] made k = tt
  all_known-Corrects table (positions ∷ sets) made k =
      let (first, rest) =
        both_of (known table distance positions) (all_known table distance sets) k in
      (known-Corrects table positions made first, all_known-Corrects table sets made rest)

  knows-Corrects :
      (r : Result (Option (List (List ℕ × List ℕ)))) (sets : List (List ℕ))
      → error_table distance ≡ r
      → knows r distance sets ≡ true
      → All Corrects sets
  unfolding knows
  knows-Corrects value_error sets made k = absurd (cc)
  knows-Corrects (ok none) sets made k = absurd (cc)
  knows-Corrects (ok (some table)) sets made k = all_known-Corrects table sets made k

supported_of :
    (distance : ℕ) → supported distance ≡ true → (distance ≡ 3) ⊎ ((distance ≡ 5) ⊎ (distance ≡ 7))
unfolding supported
supported_of distance h = ground arith

table_of :
    (distance : ℕ)
    → supported distance ≡ true
    → knows (error_table distance) distance (error_sets ((distance - 1) / 2) 1) ≡ true
table_of distance h = elim (supported_of distance h) [
  | inl e ↦ subst (λ d. knows (error_table d) d (error_sets ((d - 1) / 2) 1) ≡ true) (sym e) knows_3
  | inr f ↦ elim f [
    | inl e ↦
        subst (λ d. knows (error_table d) d (error_sets ((d - 1) / 2) 1) ≡ true) (sym e) knows_5
    | inr e ↦
        subst (λ d. knows (error_table d) d (error_sets ((d - 1) / 2) 1) ≡ true) (sym e) knows_7
  ]
]

-- For each distance of the code and each word of 15 hard bits without syndromes, `decode_bch15`
-- gives the word back, with the number of bits that it corrected, however up to half the distance
-- less one of its bits were flipped.
pub decode_bch15-Corrects :
    (distance : ℕ) (bits : List ℕ) (size : length bits ≡ 15) (hard : binary bits ≡ true)
    (quiet : any (syndromes bits distance) ≡ false)
    → supported distance ≡ true
    → All (Corrects distance bits size hard quiet) (error_sets ((distance - 1) / 2) 1)
decode_bch15-Corrects distance bits size hard quiet h =
    knows-Corrects distance bits size hard quiet (error_table distance)
      (error_sets ((distance - 1) / 2) 1) refl (table_of distance h)
