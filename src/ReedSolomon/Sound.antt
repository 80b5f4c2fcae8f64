-- ===== src/ReedSolomon/Sound.antt =====
-- What `decode_with_count` of gfsk_ax25/reedsolomon.py returns is part of a codeword, and how many
-- symbols it changed.
use gs_flowgraphs.Base.{
  ◌≤◌, ◌-◌, arith, length-append, ℕ, Bool, true, false, Option, none, some, List, [], ◌++◌, ◌≡◌,
  refl, ◌∙◌, ◌&&◌, ltb, ◌==◌, if◌then◌else◌, Bool-cases, inl, inr, length,
}
use gs_flowgraphs.ReedSolomon.{RsCodec, octets}
use gs_flowgraphs.ReedSolomon.Capacity.{distinct-length, find_errors-length}
use gs_flowgraphs.ReedSolomon.Members.{mem-append, mem-left, mem-right, sorted_set-mem}
use gs_flowgraphs.ReedSolomon.Touched.{Agree, Some, erased-length, erased-Agree, correct-Agree}
use gs_flowgraphs.ReedSolomon.Decoder.{
  Decoded, decoded, uncorrectable, value_error, index_error, all_zero, any_outside, sorted_set,
  erased, syndromes, correct, confirmed, errors_found, decode_erased, decode_with_count,
  without_parity, distinct, mem, find_errors, error_locator, reversed,
}

-- A result is uncorrectable or an error, or it is the start of a word as long as the received one
-- whose syndromes are all zero, and which has the symbols of the received one everywhere but at the
-- counted positions, at most as many as the parity symbols, and at the erased ones.
abbrev pub IsSound : RsCodec → List ℕ → List ℕ → Decoded → Type 0
IsSound c msg erase uncorrectable = Unit
IsSound c msg erase value_error = Unit
IsSound c msg erase index_error = Unit
IsSound c msg erase (decoded m k) =
    (word : List ℕ) × (positions : List ℕ) × (length word ≡ length msg)
    × (all_zero (syndromes c word) ≡ true)
    × (m ≡ without_parity c.nsym word)
    × (distinct positions ≡ k)
    × (k ≤ c.nsym)
    × Agree (positions ++ erase) word msg

module _ (c : RsCodec) where
  confirmed-IsSound :
      (msg erase positions : List ℕ) (fixed : Option (List ℕ))
      → length positions ≤ c.nsym
      → Some (λ f. Agree positions f msg × (length f ≡ length msg)) fixed
      → IsSound c msg erase (confirmed c positions fixed)
  unfolding confirmed
  confirmed-IsSound msg erase positions none few h = tt
  confirmed-IsSound msg erase positions (some fixed) few (same, size) =
      let bound : distinct positions ≤ c.nsym = omega (arith, few, distinct-length positions) in
      elim (Bool-cases (all_zero (syndromes c fixed))) [
        | inl z ↦ rw (z) (fixed, positions, size, z, refl, refl, bound, agree)
        | inr nz ↦ rw (nz) tt
      ]
    where
      agree : Agree (positions ++ erase) fixed msg
      agree p = elim (same p) [
        | inl kept ↦ inl kept
        | inr there ↦ inr (mem-left p positions erase there)
      ]

  -- As many positions are found as are left for them beside the erased ones.
  abbrev Few : List ℕ → Option (List ℕ) → Type 0
  Few erase found = Some (λ err_pos. length (erase ++ err_pos) ≤ c.nsym) found

  errors_found-IsSound :
      (msg synd erase : List ℕ) (found : Option (List ℕ))
      → Few erase found
      → IsSound c msg erase (errors_found c msg synd erase found)
  unfolding errors_found
  errors_found-IsSound msg synd erase none few = tt
  errors_found-IsSound msg synd erase (some err_pos) few =
      confirmed-IsSound msg erase (erase ++ err_pos) (correct c msg synd (erase ++ err_pos)) few
        (correct-Agree c msg synd (erase ++ err_pos))

  find_errors-Few :
      (erase fsynd : List ℕ) (nmess : ℕ) (found : Option (List ℕ))
      → length erase ≤ c.nsym
      → find_errors c (reversed (error_locator c fsynd (c.nsym - length erase))) nmess ≡ found
      → Few erase found
  find_errors-Few erase fsynd nmess none few h = tt
  find_errors-Few erase fsynd nmess (some err_pos) few h =
      let size = find_errors-length c fsynd (c.nsym - length erase) nmess err_pos h in
      omega (arith, size, few, length-append erase err_pos)

  decode_erased-IsSound :
      (msg erase : List ℕ) → length erase ≤ c.nsym → IsSound c msg erase (decode_erased c msg erase)
  unfolding decode_erased distinct
  decode_erased-IsSound msg erase few = elim (Bool-cases (all_zero (syndromes c msg))) [
    | inl z ↦ rw (z) (msg, [], refl, z, refl, refl, omega arith, λ p. inl refl)
    | inr nz ↦
        rw (nz)
          (errors_found-IsSound msg _ erase _ (find_errors-Few erase _ (length msg) _ few refl))
  ]

  -- The same for the word before its erased positions were set to 0.
  before_erasing :
      (msg erase_pos : List ℕ) (r : Decoded)
      → IsSound c (erased msg (sorted_set erase_pos)) (sorted_set erase_pos) r
      → IsSound c msg erase_pos r
  before_erasing msg erase_pos uncorrectable h = tt
  before_erasing msg erase_pos value_error h = tt
  before_erasing msg erase_pos index_error h = tt
  before_erasing msg erase_pos (decoded m k)
        (word, positions, size, zero_, start, count, few, same) =
      (word, positions, size ∙ erased-length msg erase, zero_, start, count, few, agree)
    where
      erase : List ℕ
      erase = sorted_set erase_pos

      given : (p : ℕ) → mem p erase ≡ true → mem p (positions ++ erase_pos) ≡ true
      given p h = mem-right p positions erase_pos (sorted_set-mem p erase_pos h)

      agree : Agree (positions ++ erase_pos) word msg
      agree p = elim (same p) [
        | inr there ↦ elim (mem-append p positions erase there) [
          | inl counted ↦ inr (mem-left p positions erase_pos counted)
          | inr set_to_zero ↦ inr (given p set_to_zero)
        ]
        | inl kept ↦ elim (erased-Agree msg erase p) [
          | inl whole ↦ inl (kept ∙ whole)
          | inr set_to_zero ↦ inr (given p set_to_zero)
        ]
      ]

  if-IsSound :
      (msg erase : List ℕ) (test : Bool) (r r' : Decoded)
      → IsSound c msg erase r
      → IsSound c msg erase r'
      → IsSound c msg erase (if test then r else r')
  if-IsSound msg erase true r r' h k = h
  if-IsSound msg erase false r r' h k = k

  -- On every input, with whatever erasures, a message that `decode_with_count` returns is the start
  -- of a word whose syndromes are all zero, as long as the input, and the input's octets are those
  -- of this word everywhere but at some positions, as many as the count that is returned and no more
  -- than there are parity symbols, and at the erased positions.
  pub decode_with_count-IsSound :
      (codeword erase_pos : List ℕ)
      → IsSound c (octets codeword) erase_pos (decode_with_count c codeword erase_pos)
  unfolding decode_with_count
  decode_with_count-IsSound codeword erase_pos =
      let msg = octets codeword in
      let erase = sorted_set erase_pos in
      elim (Bool-cases (ltb c.nsym (length erase))) [
        | inl many ↦ rw (many) (if-IsSound msg erase_pos (any_outside (length msg) erase) _ _ tt tt)
        | inr few ↦
            let inner =
              before_erasing msg erase_pos (decode_erased c (erased msg erase) erase)
                (decode_erased-IsSound (erased msg erase) erase (ground arith)) in
            rw (few) (
              if-IsSound msg erase_pos (any_outside (length msg) erase) _ _ tt
                (if-IsSound msg erase_pos ((length msg == 0) && ltb 0 c.nsym) _ _ tt inner))
      ]
