-- ===== src/ReedSolomon.antt =====
-- gfsk_ax25/reedsolomon.py, the field with 256 elements, the polynomials over it with the greatest
-- power first, and the encoder. The tables are lists, read by index.
pub mod Codeword
pub mod Decoder
pub mod Field
pub mod Horner
pub mod RoundTrip
pub mod Conventional
pub mod Capacity
pub mod Members
pub mod Touched
pub mod Sound
pub mod Tested
use gs_flowgraphs.Base.{
  ℕ, zero, suc, ◌+◌, ◌-◌, ◌*◌, ◌%◌, max, bit_and, bit_xor, Bool, List, [], ◌∷◌, ◌++◌, map, ◌||◌,
  Result, ok, value_error, ltb, ◌==◌, if◌then◌else◌, length, get_or, replicate,
}

pub record RsCodec : Type 0 where
  pub nsym : ℕ
  pub fcr : ℕ
  pub gen : ℕ
  pub exp : List ℕ
  pub log : List ℕ
  pub gpoly : List ℕ

unfoldable pub set_at : List ℕ → ℕ → ℕ → List ℕ
set_at [] i v = []
set_at (x ∷ xs) zero v = v ∷ xs
set_at (x ∷ xs) (suc i) v = x ∷ set_at xs i v

-- The step from one power of the generator of the tables to the next one.
unfoldable pub doubled : ℕ → ℕ → ℕ
doubled prim x = let y = x * 2 in if bit_and y 0x100 == 0 then y else bit_xor y prim

-- The first loop of `__init__`, from index `i`, with the 255 entries of `_exp` that it sets.
unfoldable pub exp_entries : ℕ → ℕ → ℕ → List ℕ
exp_entries prim zero x = []
exp_entries prim (suc left) x = x ∷ exp_entries prim left (doubled prim x)

unfoldable pub log_entries : ℕ → ℕ → ℕ → ℕ → List ℕ → List ℕ
log_entries prim zero i x log = log
log_entries prim (suc left) i x log =
    log_entries prim left (i + 1) (doubled prim x) (set_at log x i)

-- The second loop, which copies the entry 255 places back.
unfoldable pub copied : ℕ → ℕ → List ℕ → List ℕ
copied zero i exp = exp
copied (suc left) i exp = copied left (i + 1) (exp ++ get_or exp (i - 255) 0 ∷ [])

unfoldable pub exp_table : ℕ → List ℕ
exp_table prim = copied 257 255 (exp_entries prim 255 1)

unfoldable pub log_table : ℕ → List ℕ
log_table prim = log_entries prim 255 0 1 (replicate 256 0)

-- `_mul`, `_pow` and `_inv`, on the tables.
unfoldable pub mul : List ℕ → List ℕ → ℕ → ℕ → ℕ
mul exp log a b = if a == 0 || b == 0 then 0 else get_or exp (get_or log a 0 + get_or log b 0) 0

unfoldable pub pow : List ℕ → List ℕ → ℕ → ℕ → ℕ
pow exp log a p = get_or exp ((get_or log a 0 * p) % 255) 0

unfoldable pub inv : List ℕ → List ℕ → ℕ → ℕ
inv exp log a = get_or exp (255 - get_or log a 0) 0

-- Exclusive or of the second list into the start of the first.
unfoldable pub xor_prefix : List ℕ → List ℕ → List ℕ
xor_prefix [] ys = []
xor_prefix (x ∷ xs) [] = x ∷ xs
xor_prefix (x ∷ xs) (y ∷ ys) = bit_xor x y ∷ xor_prefix xs ys

unfoldable pub poly_add : List ℕ → List ℕ → List ℕ
poly_add p q =
    xor_prefix (replicate (max (length p) (length q) - length p) 0 ++ p)
      (replicate (max (length p) (length q) - length q) 0 ++ q)

module _ (exp log : List ℕ) where
  unfoldable pub poly_scale : List ℕ → ℕ → List ℕ
  poly_scale p s = map (λ c. mul exp log c s) p

  -- The rows of `_poly_mul` for the coefficients of `q` that are left, with the offset `j`.
  unfoldable pub add_rows : List ℕ → List ℕ → ℕ → List ℕ → List ℕ
  add_rows p [] j r = r
  add_rows p (c ∷ q) j r = add_rows p q (j + 1) (xor_prefix r (replicate j 0 ++ poly_scale p c))

  unfoldable pub poly_mul : List ℕ → List ℕ → List ℕ
  poly_mul p q = add_rows p q 0 (replicate (length p + length q - 1) 0)

  -- Horner's rule, from the value so far.
  unfoldable pub eval_from : ℕ → List ℕ → ℕ → ℕ
  eval_from y [] x = y
  eval_from y (c ∷ p) x = eval_from (bit_xor (mul exp log y x) c) p x

  -- The source reads the first coefficient; the polynomials that it evaluates have one.
  unfoldable pub poly_eval : List ℕ → ℕ → ℕ
  poly_eval [] x = 0
  poly_eval (c ∷ p) x = eval_from c p x

  unfoldable pub generator_from : ℕ → ℕ → ℕ → ℕ → List ℕ → List ℕ
  generator_from gen fcr zero i g = g
  generator_from gen fcr (suc left) i g =
      generator_from gen fcr left (i + 1) (poly_mul g (1 ∷ pow exp log gen (i + fcr) ∷ []))

  -- The division loop of `encode` and `_poly_div`: for each coefficient, the one in front, the
  -- divisor without its leading 1 is added in behind it. What is left is the remainder.
  unfoldable pub remainder : List ℕ → ℕ → List ℕ → List ℕ
  remainder tail zero out = out
  remainder tail (suc left) [] = []
  remainder tail (suc left) (coef ∷ out) =
      remainder tail left (if coef == 0 then out else xor_prefix out (poly_scale tail coef))

unfoldable pub rs_codec : ℕ → ℕ → ℕ → ℕ → RsCodec
rs_codec nsym prim fcr generator =
    let exp = exp_table prim in
    let log = log_table prim in
    record {
      nsym = nsym;
      fcr = fcr;
      gen = generator;
      exp = exp;
      log = log;
      gpoly = generator_from exp log generator fcr nsym 0 (1 ∷ []);
    }

unfoldable pub without_first : List ℕ → List ℕ
without_first [] = []
without_first (x ∷ xs) = xs

unfoldable pub octets : List ℕ → List ℕ
octets data_ = map (λ b. bit_and b 0xFF) data_

unfoldable pub encode : RsCodec → List ℕ → Result (List ℕ)
encode c data_ =
    let msg = octets data_ in
    if ltb 255 (length msg + c.nsym)
    then value_error
    else ok (
        msg
        ++ remainder c.exp c.log (without_first c.gpoly) (length msg) (msg ++ replicate c.nsym 0))
