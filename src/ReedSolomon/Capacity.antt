-- ===== src/ReedSolomon/Capacity.antt =====
-- How many symbols the decoder of gfsk_ax25/reedsolomon.py can count as corrected.
use gs_flowgraphs.Base.{
  ℕ, zero, suc, ◌+◌, ◌-◌, ◌≤◌, max, Bool, true, false, some, List, [], ◌∷◌, ◌++◌, ◌≡◌, ap, ◌∙◌,
  arith, ltb, ◌==◌, if◌then◌else◌, Bool-cases, inl, inr, length, length-append, length-map,
  length-replicate, replicate, get_or,
}
use gs_flowgraphs.ReedSolomon.{RsCodec, inv, poly_scale, poly_add}
use gs_flowgraphs.ReedSolomon.Codeword.{xor_prefix-length}
use gs_flowgraphs.ReedSolomon.Decoder.{
  reversed, reverse_onto, distinct, located, locator_from, error_locator, find_errors,
  positions_from, discrepancy,
}

pub distinct-length : (ps : List ℕ) → distinct ps ≤ length ps
unfolding distinct
distinct-length [] = omega arith
distinct-length (p ∷ ps) = ground (arith, distinct-length ps)

reverse_onto-length : (xs ys : List ℕ) → length (reverse_onto xs ys) ≡ length xs + length ys
unfolding reverse_onto
reverse_onto-length [] ys = omega arith
reverse_onto-length (x ∷ xs) ys = omega (arith, reverse_onto-length xs (x ∷ ys))

reversed-length : (xs : List ℕ) → length (reversed xs) ≡ length xs
unfolding reversed
reversed-length xs = omega (arith, reverse_onto-length xs [])

padded-size : (n : ℕ) (p : List ℕ) → length (replicate n 0 ++ p) ≡ n + length p
padded-size n p = length-append (replicate n 0) p ∙ ap (λ k. k + length p) (length-replicate n 0)

pub poly_add-size : (p q : List ℕ) → length (poly_add p q) ≡ max (length p) (length q)
unfolding poly_add
poly_add-size p q =
    let left = padded-size (max (length p) (length q) - length p) p in
    xor_prefix-length (replicate (max (length p) (length q) - length p) 0 ++ p)
      (replicate (max (length p) (length q) - length q) 0 ++ q)
    ∙ left
    ∙ omega arith

module _ (c : RsCodec) where
  scaled-size : (p : List ℕ) (x : ℕ) → length (poly_scale c.exp c.log p x) ≡ length p
  unfolding poly_scale
  scaled-size p x = length-map _ p

  -- Both polynomials of a state of the locator's loop have at most so many coefficients.
  abbrev AtMost : ℕ → List ℕ × List ℕ → Type 0
  AtMost n (err_loc, old_loc) = (length err_loc ≤ n) × (length old_loc ≤ n)

  located-AtMost :
      (n delta : ℕ) (err_loc old_loc : List ℕ)
      → AtMost n (err_loc, old_loc)
      → AtMost n (located c delta err_loc old_loc)
  unfolding located
  located-AtMost n delta err_loc old_loc h =
      pick (delta == 0) (ltb (length err_loc) (length old_loc))
    where
      new_loc : List ℕ
      new_loc = poly_scale c.exp c.log old_loc delta

      older : List ℕ
      older = poly_scale c.exp c.log err_loc (inv c.exp c.log delta)

      sum : List ℕ
      sum = poly_add new_loc (poly_scale c.exp c.log older delta)

      changed : List ℕ
      changed = poly_add err_loc new_loc

      pick :
          (none_ shorter : Bool)
          → AtMost n (
              if none_
              then (err_loc, old_loc)
              else if shorter
              then (sum, older)
              else (changed, old_loc))
      pick true shorter = h
      pick false true = (
        omega (
          arith,
          poly_add-size new_loc (poly_scale c.exp c.log older delta),
          scaled-size old_loc delta,
          scaled-size older delta,
          scaled-size err_loc (inv c.exp c.log delta),
          h.0,
          h.1,
        ),
        omega (arith, scaled-size err_loc (inv c.exp c.log delta), h.0),
      )
      pick false false =
          (omega (arith, poly_add-size err_loc new_loc, scaled-size old_loc delta, h.0, h.1), h.1)

  locator_from-length :
      (synd_terms : List ℕ) (left i n : ℕ) (state : List ℕ × List ℕ)
      → AtMost n state
      → length (locator_from c synd_terms left i state) ≤ n + left
  unfolding locator_from
  locator_from-length synd_terms zero i n (err_loc, old_loc) h = omega (arith, h.0)
  locator_from-length synd_terms (suc left) i n (err_loc, old_loc) h =
      let delta =
        discrepancy c err_loc synd_terms i (length err_loc - 1) 1 (get_or synd_terms i 0) in
      let shifted : AtMost (n + 1) (err_loc, old_loc ++ 0 ∷ []) =
        (omega (arith, h.0), omega (arith, h.1, length-append old_loc (0 ∷ []))) in
      omega (
        arith,
        locator_from-length synd_terms left (i + 1) (n + 1)
            (located c delta err_loc (old_loc ++ 0 ∷ []))
            (located-AtMost (n + 1) delta err_loc (old_loc ++ 0 ∷ []) shifted),
      )

  locator-length :
      (synd_terms : List ℕ) (nsteps : ℕ)
      → length (reversed (error_locator c synd_terms nsteps)) ≤ nsteps + 1
  unfolding error_locator
  locator-length synd_terms nsteps = omega (
    arith,
    reversed-length (locator_from c synd_terms nsteps 0 (1 ∷ [], 1 ∷ [])),
    locator_from-length synd_terms nsteps 0 1 (1 ∷ [], 1 ∷ []) (omega arith, omega arith),
  )

  -- As many positions at most as there are steps.
  pub find_errors-length :
      (synd_terms : List ℕ) (nsteps nmess : ℕ) (positions : List ℕ)
      → find_errors c (reversed (error_locator c synd_terms nsteps)) nmess ≡ some positions
      → length positions ≤ nsteps
  unfolding find_errors
  find_errors-length synd_terms nsteps nmess positions h =
      let err_loc = reversed (error_locator c synd_terms nsteps) in
      let found = positions_from c err_loc nmess nmess 0 in
      elim (Bool-cases (length found == length err_loc - 1)) [
        | inl all ↦
            let same : found ≡ positions = ground arith in
            let many : length found ≡ length err_loc - 1 = ground arith in
            omega (arith, ap length same, locator-length synd_terms nsteps, many)
        | inr few ↦ absurd (ground arith)
      ]
