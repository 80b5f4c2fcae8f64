-- ===== src/ReedSolomon/Touched.antt =====
-- Which symbols the decoder of gfsk_ax25/reedsolomon.py changes.
use gs_flowgraphs.Base.{
  ℕ, zero, suc, ◌+◌, ◌-◌, ◌*◌, max, true, Option, none, some, List, [], ◌∷◌, ◌≡◌, refl, ap, ◌∙◌,
  arith, ◌==◌, Bool-cases, ◌⊎◌, inl, inr, length, length-map, length-replicate, replicate, map,
  get_or, bit_xor,
}
use gs_flowgraphs.Base.Xor.{xor-zero}
use gs_flowgraphs.ReedSolomon.{RsCodec, set_at, mul, pow, inv, xor_prefix, poly_add, poly_eval}
use gs_flowgraphs.ReedSolomon.Capacity.{poly_add-size}
use gs_flowgraphs.ReedSolomon.Members.{mem-head, mem-tail, mem-get_or}
use gs_flowgraphs.ReedSolomon.Decoder.{
  mem, erased, coord_of, values_from, denominator, add_errors, correct,
}

-- Two words have the same symbol at every position but those of a list.
abbrev pub Agree : List ℕ → List ℕ → List ℕ → Type 0
Agree touched word msg = (p : ℕ) → (get_or word p 0 ≡ get_or msg p 0) ⊎ (mem p touched ≡ true)

set_at-length : (xs : List ℕ) (i v : ℕ) → length (set_at xs i v) ≡ length xs
unfolding set_at
set_at-length [] i v = refl
set_at-length (x ∷ xs) zero v = refl
set_at-length (x ∷ xs) (suc i) v = ap suc (set_at-length xs i v)

set_at-elsewhere :
    (xs : List ℕ) (i v p : ℕ) → (get_or (set_at xs i v) p 0 ≡ get_or xs p 0) ⊎ (p ≡ i)
unfolding set_at
set_at-elsewhere [] i v p = inl refl
set_at-elsewhere (x ∷ xs) zero v zero = inr refl
set_at-elsewhere (x ∷ xs) zero v (suc p) = inl refl
set_at-elsewhere (x ∷ xs) (suc i) v zero = inl refl
set_at-elsewhere (x ∷ xs) (suc i) v (suc p) = elim (set_at-elsewhere xs i v p) [
  | inl same ↦ inl same
  | inr here ↦ inr (ap suc here)
]

pub erased-length : (msg ps : List ℕ) → length (erased msg ps) ≡ length msg
unfolding erased
erased-length msg [] = refl
erased-length msg (p ∷ ps) = erased-length (set_at msg p 0) ps ∙ set_at-length msg p 0

poly_add-length : (p q : List ℕ) → length q ≡ length p → length (poly_add p q) ≡ length p
poly_add-length p q h = omega (arith, h, poly_add-size p q)

pub erased-Agree : (msg ps : List ℕ) → Agree ps (erased msg ps) msg
unfolding erased
erased-Agree msg [] p = inl refl
erased-Agree msg (q ∷ ps) p = elim (erased-Agree (set_at msg q 0) ps p) [
  | inl same ↦ elim (set_at-elsewhere msg q 0 p) [
    | inl kept ↦ inl (same ∙ kept)
    | inr here ↦ inr (mem-head p q ps here)
  ]
  | inr later ↦ inr (mem-tail p q ps later)
]

get_or-replicate : (n p : ℕ) → ◌≡◌ {A = ℕ} (get_or (replicate n 0) p 0) 0
get_or-replicate zero p = refl
get_or-replicate (suc n) zero = refl
get_or-replicate (suc n) (suc p) = get_or-replicate n p

xor_prefix-get_or :
    (xs ys : List ℕ) (p : ℕ)
    → length ys ≡ length xs
    → get_or (xor_prefix xs ys) p 0 ≡ bit_xor (get_or xs p 0) (get_or ys p 0)
unfolding xor_prefix
xor_prefix-get_or [] [] p h = refl
xor_prefix-get_or [] (y ∷ ys) p h = absurd (omega arith)
xor_prefix-get_or (x ∷ xs) [] p h = absurd (omega arith)
xor_prefix-get_or (x ∷ xs) (y ∷ ys) zero h = refl
xor_prefix-get_or (x ∷ xs) (y ∷ ys) (suc p) h = xor_prefix-get_or xs ys p (omega arith)

poly_add-get_or :
    (msg e : List ℕ) (p : ℕ)
    → length e ≡ length msg
    → get_or (poly_add msg e) p 0 ≡ bit_xor (get_or msg p 0) (get_or e p 0)
unfolding poly_add
poly_add-get_or msg e p h =
    let none_left : max (length msg) (length e) - length msg ≡ 0 = omega arith in
    let none_right : max (length msg) (length e) - length e ≡ 0 = omega arith in
    rw (none_left, none_right) (xor_prefix-get_or msg e p h)

-- What is said of a list, if there is one.
abbrev pub Some : (List ℕ → Type 0) → Option (List ℕ) → Type 0
Some P none = Unit
Some P (some xs) = P xs

module _ (c : RsCodec) where
  -- The error values stand at the positions, in a list of the same length.
  values_from-Agree :
      (e_eval x xs err_pos : List ℕ) (i : ℕ) (e : List ℕ)
      → i + length xs ≡ length err_pos
      → Some
          (λ f. Agree err_pos f e × (length f ≡ length e))
          (values_from c e_eval x xs err_pos i e)
  unfolding values_from
  values_from-Agree e_eval x [] err_pos i e h = (λ p. inl refl, refl)
  values_from-Agree e_eval x (xi ∷ xs) err_pos i e h =
      let xi_inv = inv c.exp c.log xi in
      let denom = denominator c xi_inv x i 0 1 in
      let y =
        mul c.exp c.log (pow c.exp c.log xi (1 + 254 * c.fcr))
          (poly_eval c.exp c.log e_eval xi_inv) in
      let q = get_or err_pos i 0 in
      let v = mul c.exp c.log y (inv c.exp c.log denom) in
      elim (Bool-cases (denom == 0)) [
        | inl z ↦ rw (z) tt
        | inr nz ↦ rw (nz) (
            put (values_from c e_eval x xs err_pos (i + 1) (set_at e q v)) q v
              (mem-get_or err_pos i (omega arith))
              (values_from-Agree e_eval x xs err_pos (i + 1) (set_at e q v) (omega arith)))
      ]
    where
      put :
          (r : Option (List ℕ)) (q v : ℕ)
          → mem q err_pos ≡ true
          → Some (λ f. Agree err_pos f (set_at e q v) × (length f ≡ length (set_at e q v))) r
          → Some (λ f. Agree err_pos f e × (length f ≡ length e)) r
      put none q v there k = tt
      put (some f) q v there (same, size) = (agree, size ∙ set_at-length e q v)
        where
          agree : Agree err_pos f e
          agree p = elim (same p) [
            | inl kept ↦ elim (set_at-elsewhere e q v p) [
              | inl other ↦ inl (kept ∙ other)
              | inr here ↦ inr (ap (λ k. mem k err_pos) here ∙ there)
            ]
            | inr touched ↦ inr touched
          ]

  added :
      (touched msg e : List ℕ)
      → Agree touched e (replicate (length msg) 0)
      → length e ≡ length msg
      → Agree touched (poly_add msg e) msg
  added touched msg e same size p = elim (same p) [
    | inl none_there ↦ inl (
        poly_add-get_or msg e p size
        ∙ ap (bit_xor (get_or msg p 0)) (none_there ∙ get_or-replicate (length msg) p)
        ∙ xor-zero (get_or msg p 0))
    | inr there ↦ inr there
  ]

  add_errors-Agree :
      (touched msg : List ℕ) (e : Option (List ℕ))
      → Some
          (λ f.
            Agree touched f (replicate (length msg) 0)
            × (length f ≡ length (replicate {A = ℕ} (length msg) 0)))
          e
      → Some (λ f. Agree touched f msg × (length f ≡ length msg)) (add_errors c msg e)
  unfolding add_errors
  add_errors-Agree touched msg none h = tt
  add_errors-Agree touched msg (some e) h =
      let size : length e ≡ length msg = h.1 ∙ length-replicate (length msg) 0 in
      (added touched msg e h.0 size, poly_add-length msg e size)

  roots-length :
      (n : ℕ) (err_pos : List ℕ)
      → 0 + length (map (λ p. pow c.exp c.log c.gen p) (coord_of n err_pos)) ≡ length err_pos
  unfolding coord_of
  roots-length n err_pos =
      let inner = length-map (λ p. n - 1 - p) err_pos in
      let outer = length-map (λ p. pow c.exp c.log c.gen p) (map (λ p. n - 1 - p) err_pos) in
      omega (arith, inner, outer)

  -- A corrected word has the length of the received one, and its symbols but at the positions.
  pub correct-Agree :
      (msg synd err_pos : List ℕ)
      → Some (λ f. Agree err_pos f msg × (length f ≡ length msg)) (correct c msg synd err_pos)
  unfolding correct
  correct-Agree msg synd err_pos = add_errors-Agree err_pos msg _ (
      values_from-Agree _ _ _ err_pos 0 (replicate (length msg) 0)
        (roots-length (length msg) err_pos))
