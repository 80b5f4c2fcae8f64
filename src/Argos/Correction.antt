-- ===== src/Argos/Correction.antt =====
-- The code of argos.py corrects any two errors.
use gs_flowgraphs.Base.{
  ℕ, zero, suc, ◌+◌, ◌^◌, ◌≤◌, ◌<◌, ◌≡◌, refl, ap, ap₂, sym, ◌∙◌, Bool, true, false, Option, none,
  some, List, [], ◌∷◌, bit_xor, arith, inl, inr,
}
use gs_flowgraphs.Base.{
  ok, leb, ◌==◌, ==_iff, if◌then◌else◌, get_or, all_below, all_below_sound, Bool-cases, ◌<<<◌,
  ◌>>>◌,
}
use gs_flowgraphs.Base.Xor.{xor_assoc, xor_cancel, xor_self, xor-zero, zero-xor, xor-lt, xor_fields}
use gs_flowgraphs.Base.Weight.{bit_count, all_light, all_light_sound}
use gs_flowgraphs.Argos.{
  bch_g, bit_length, polymod_loop, polymod, message_of, or_else, one_error, two_errors,
  bch3121_encode, bch3121_decode,
}
use gs_flowgraphs.Argos.Division.{polymod-xor, polymod-lt, polymod-small}

-- The remainders of the single bits.
abbrev syndromes : List ℕ
syndromes =
    1 ∷ 2 ∷ 4 ∷ 8 ∷ 16 ∷ 32 ∷ 64 ∷ 128 ∷ 256 ∷ 512 ∷ 873 ∷ 443 ∷ 886 ∷ 389 ∷ 778 ∷ 381 ∷ 762 ∷ 669
    ∷ 595 ∷ 975 ∷ 247 ∷ 494 ∷ 988 ∷ 209 ∷ 418 ∷ 836 ∷ 481 ∷ 962 ∷ 237 ∷ 474 ∷ 948 ∷ []

abbrev syndrome : ℕ → ℕ
syndrome i = get_or syndromes i 0

syndromes_right : all_below 31 (λ i. polymod (1 <<< i) bch_g == syndrome i) ≡ true
unfolding all_below polymod polymod_loop bit_length
syndromes_right = refl

bits_small : all_below 31 (λ i. leb (1 <<< i + 1) (2 ^ 31)) ≡ true
unfolding all_below
bits_small = refl

polymod-bit : (i : ℕ) → i < 31 → polymod (1 <<< i) bch_g ≡ syndrome i
polymod-bit i h = (==_iff _ _).0 (
    all_below_sound (λ i. polymod (1 <<< i) bch_g == syndrome i) {bound = 31} {value = i} h
      syndromes_right)

bit-lt : (i : ℕ) → i < 31 → 1 <<< i < 2 ^ 31
bit-lt i h =
    let e =
      all_below_sound (λ i. leb (1 <<< i + 1) (2 ^ 31)) {bound = 31} {value = i} h bits_small in
    ground arith

-- The error that each loop finds, by the remainder of the word.
abbrev first_of : Option ℕ → Option ℕ → Option ℕ
first_of (some p) q = some p
first_of none q = q

found_one : ℕ → ℕ → ℕ → Option ℕ
found_one zero i s = none
found_one (suc n) i s =
    let rest = found_one n (i + 1) s in if bit_xor s (syndrome i) == 0 then some (1 <<< i) else rest

abbrev and_bit : ℕ → Option ℕ → Option ℕ
and_bit i none = none
and_bit i (some p) = some (bit_xor (1 <<< i) p)

found_two : ℕ → ℕ → ℕ → Option ℕ
found_two zero i s = none
found_two (suc n) i s =
    first_of (and_bit i (found_one n (i + 1) (bit_xor s (syndrome i)))) (found_two n (i + 1) s)

found : ℕ → Option ℕ
found s = if s == 0 then some 0 else first_of (found_one 31 0 s) (found_two 31 0 s)

abbrev is_error : ℕ → Option ℕ → Bool
is_error e none = false
is_error e (some f) = f == e

all_found : all_light 31 2 (λ e. is_error e (found (polymod e bch_g))) ≡ true
unfolding all_light polymod polymod_loop bit_length found found_one found_two
all_found = refl

-- The message of a word with an error taken away.
abbrev repaired : ℕ → Option ℕ → Option ℕ
repaired w none = none
repaired w (some p) = some (bit_xor w p >>> 10)

or_else-repaired :
    (w : ℕ) (p q : Option ℕ) → or_else (repaired w p) (repaired w q) ≡ repaired w (first_of p q)
unfolding or_else
or_else-repaired w none q = refl
or_else-repaired w (some p) q = refl

repaired-and_bit :
    (w i : ℕ) (o : Option ℕ) → repaired (bit_xor w (1 <<< i)) o ≡ repaired w (and_bit i o)
repaired-and_bit w i none = refl
repaired-and_bit w i (some p) = ap (λ t. some (t >>> 10)) (xor_assoc w (1 <<< i) p)

polymod-flipped :
    (w i : ℕ)
    → w < 2 ^ 31
    → i < 31
    → polymod (bit_xor w (1 <<< i)) bch_g ≡ bit_xor (polymod w bch_g) (syndrome i)
polymod-flipped w i h k =
    polymod-xor w (1 <<< i) h (bit-lt i k) ∙ ap (bit_xor (polymod w bch_g)) (polymod-bit i k)

one_error-found :
    (n i w : ℕ)
    → w < 2 ^ 31
    → n + i ≤ 31
    → one_error n i w ≡ repaired w (found_one n i (polymod w bch_g))
unfolding one_error message_of or_else found_one
one_error-found zero i w h k = refl
one_error-found (suc n) i w h k =
    let ih = one_error-found n (i + 1) w h (omega arith) in
    elim (Bool-cases (bit_xor (polymod w bch_g) (syndrome i) == 0)) [
      | inl hit ↦ rw (polymod-flipped w i h (omega arith), hit) refl
      | inr miss ↦ rw (polymod-flipped w i h (omega arith), miss) ih
    ]

two_errors-found :
    (n i w : ℕ)
    → w < 2 ^ 31
    → n + i ≤ 31
    → two_errors n i w ≡ repaired w (found_two n i (polymod w bch_g))
unfolding two_errors found_two
two_errors-found zero i w h k = refl
two_errors-found (suc n) i w h k =
    let w' = bit_xor w (1 <<< i) in
    let s = polymod w bch_g in
    let first = found_one n (i + 1) (bit_xor s (syndrome i)) in
    ap₂ or_else
      (one_error-found n (i + 1) w' (xor-lt 31 w (1 <<< i) h (bit-lt i (omega arith))) (omega arith)
        ∙ ap (λ t. repaired w' (found_one n (i + 1) t)) (polymod-flipped w i h (omega arith))
        ∙ repaired-and_bit w i first)
      (two_errors-found n (i + 1) w h (omega arith))
    ∙ or_else-repaired w (and_bit i first) (found_two n (i + 1) s)

-- A word that is a codeword already comes before the loops.
unflipped :
    (w : ℕ) (valid : Bool) (o : Option ℕ)
    → or_else (if valid then some (w >>> 10) else none) (repaired w o)
      ≡ repaired w (if valid then some 0 else o)
unfolding or_else
unflipped w true o = ap (λ t. some (t >>> 10)) (sym (xor-zero w))
unflipped w false o = refl

decode-found : (w : ℕ) → w < 2 ^ 31 → bch3121_decode w ≡ ok (repaired w (found (polymod w bch_g)))
unfolding bch3121_decode found message_of
decode-found w h =
    let s = polymod w bch_g in
    let inside : leb (1 <<< 31) w ≡ false = ground arith in
    let rest : or_else (one_error 31 0 w) (two_errors 31 0 w)
        ≡ repaired w (first_of (found_one 31 0 s) (found_two 31 0 s)) =
      ap₂ or_else (one_error-found 31 0 w h (omega arith)) (two_errors-found 31 0 w h (omega arith))
      ∙ or_else-repaired w (found_one 31 0 s) (found_two 31 0 s) in
    rw inside (ap (λ t. ok (or_else (message_of w) t)) rest ∙ ap ok (unflipped w (s == 0) _))

found-light : (e : ℕ) → e < 2 ^ 31 → bit_count 31 e ≤ 2 → found (polymod e bch_g) ≡ some e
found-light e small light =
    sound (found (polymod e bch_g))
      (all_light_sound 31 2 (λ e. is_error e (found (polymod e bch_g))) e all_found small light)
  where
    sound : (o : Option ℕ) → is_error e o ≡ true → o ≡ some e
    sound none h = absurd (cc)
    sound (some f) h = ap some ((==_iff f e).0 h)

-- Every message of 21 bits is encoded to a word of 31 bits that, with any two or fewer of them
-- flipped, is decoded to that message.
pub bch3121_decode-bch3121_encode :
    (msg21 error : ℕ)
    → msg21 < 2 ^ 21
    → error < 2 ^ 31
    → bit_count 31 error ≤ 2
    → (code31 : ℕ) × (bch3121_encode msg21 ≡ ok code31)
      × (code31 < 2 ^ 31)
      × (bch3121_decode (bit_xor code31 error) ≡ ok (some msg21))
unfolding bch3121_encode
bch3121_decode-bch3121_encode msg21 error short small light =
    let a = msg21 <<< 10 in
    let room : a < 2 ^ 31 = omega arith in
    let r = polymod a bch_g in
    let r-lt = polymod-lt a room in
    let r-room : r < 2 ^ 31 = omega arith in
    let code = bit_xor a r in
    let code-lt = xor-lt 31 a r room r-room in
    let valid : polymod code bch_g ≡ 0 =
      polymod-xor a r room r-room ∙ ap (bit_xor r) (polymod-small r r-lt) ∙ xor_self r in
    let s : polymod (bit_xor code error) bch_g ≡ polymod error bch_g =
      polymod-xor code error code-lt small
      ∙ ap (λ t. bit_xor t (polymod error bch_g)) valid
      ∙ zero-xor (polymod error bch_g) in
    let fits : leb (1 <<< 21) msg21 ≡ false = ground arith in
    let back : bit_xor (bit_xor code error) error >>> 10 ≡ msg21 =
      ap (λ t. t >>> 10) (xor_cancel code error ∙ xor_fields 10 msg21 r r-lt) ∙ omega arith in
    (
      code,
      rw fits refl,
      code-lt,
      decode-found (bit_xor code error) (xor-lt 31 code error code-lt small)
          ∙ ap (λ t. ok (repaired (bit_xor code error) t))
              (ap found s ∙ found-light error small light)
          ∙ ap (λ t. ok (some t)) back,
    )
