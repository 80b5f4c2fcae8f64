-- ===== src/ReedSolomon/RoundTrip.antt =====
-- What `encode` of gfsk_ax25/reedsolomon.py gives is a codeword for `decode_with_count`.
use gs_flowgraphs.Base.{
  ℕ, zero, suc, ◌+◌, ◌-◌, ◌<◌, ◌≤◌, bit_and, true, false, List, [], ◌∷◌, ◌++◌, ◌≡◌, refl, sym, ap,
  ap₂, ◌∙◌, arith, All, All-append, length, length-append, length-map, replicate, take, take-append,
  ◌==◌, ◌&&◌, ltb, leb, ok, and_mask,
}
use gs_flowgraphs.Base.Xor.{zero-xor}
use gs_flowgraphs.ReedSolomon.{
  RsCodec, mul, pow, eval_from, poly_eval, remainder, octets, encode, without_first,
}
use gs_flowgraphs.ReedSolomon.Field.{IsField}
use gs_flowgraphs.ReedSolomon.Horner.{IsOctet}
use gs_flowgraphs.ReedSolomon.Codeword.{
  eval-encoded, remainder-octets, padded-octets, padded-length,
}
use gs_flowgraphs.ReedSolomon.Decoder.{
  decoded, decode_with_count, decode_erased, syndromes, syndromes_from, all_zero, sorted_set,
  any_outside, erased, without_parity,
}

-- The codec has the tables of a field, and its generator has the roots that the syndromes test.
pub record IsCodec (prim : ℕ) (c : RsCodec) : Type 0 where
  pub field : IsField prim c.exp c.log
  pub tail-octets : All IsOctet (without_first c.gpoly)
  pub tail-length : length (without_first c.gpoly) ≡ c.nsym
  pub root-octet : (i : ℕ) → i < c.nsym → IsOctet (pow c.exp c.log c.gen (i + c.fcr))
  pub root-zero :
      (i : ℕ)
      → i < c.nsym
      → eval_from c.exp c.log 1 (without_first c.gpoly) (pow c.exp c.log c.gen (i + c.fcr)) ≡ 0

pub octets-octets : (data_ : List ℕ) → All IsOctet (octets data_)
unfolding octets
octets-octets [] = tt
octets-octets (b ∷ data_) = (omega (arith, and_mask 8 b), octets-octets data_)

octets-length : (data_ : List ℕ) → length (octets data_) ≡ length data_
unfolding octets
octets-length data_ = length-map (λ b. bit_and b 0xFF) data_

pub octets-same : (msg : List ℕ) → All IsOctet msg → octets msg ≡ msg
unfolding octets
octets-same [] m = refl
octets-same (b ∷ msg) m = ap₂ ◌∷◌ (omega (arith, and_mask 8 b, m.0)) (octets-same msg m.1)

poly_eval_horner : (exp log p : List ℕ) (x : ℕ) → poly_eval exp log p x ≡ eval_from exp log 0 p x
unfolding poly_eval eval_from mul
poly_eval_horner exp log [] x = refl
poly_eval_horner exp log (c ∷ p) x = ap (λ w. eval_from exp log w p x) (sym (zero-xor c))

module _ (c : RsCodec) where
  syndromes_from-zero :
      (msg : List ℕ) (left i : ℕ)
      → ((k : ℕ) → k < i + left → poly_eval c.exp c.log msg (pow c.exp c.log c.gen (k + c.fcr)) ≡ 0)
      → all_zero (syndromes_from c msg left i) ≡ true
  unfolding syndromes_from all_zero
  syndromes_from-zero msg zero i h = refl
  syndromes_from-zero msg (suc left) i h =
      rw (h i (omega arith)) (syndromes_from-zero msg left (i + 1) (λ k l. h k (omega arith)))

  decode_erased-codeword :
      (msg : List ℕ)
      → ((k : ℕ) → k < c.nsym → poly_eval c.exp c.log msg (pow c.exp c.log c.gen (k + c.fcr)) ≡ 0)
      → decode_erased c msg [] ≡ decoded (without_parity c.nsym msg) 0
  unfolding decode_erased syndromes all_zero
  decode_erased-codeword msg h =
      rw (syndromes_from-zero msg c.nsym 0 (λ k l. h k (omega arith))) refl

  without_parity-long :
      (msg : List ℕ)
      → c.nsym ≤ length msg
      → without_parity c.nsym msg ≡ take (length msg - c.nsym) msg
  unfolding without_parity
  without_parity-long msg l =
      let whole : leb c.nsym (length msg) ≡ true = ground arith in rw (whole) refl

  decode_with_count-codeword :
      (msg : List ℕ)
      → All IsOctet msg
      → c.nsym ≤ length msg
      → ((k : ℕ) → k < c.nsym → poly_eval c.exp c.log msg (pow c.exp c.log c.gen (k + c.fcr)) ≡ 0)
      → decode_with_count c msg [] ≡ decoded (take (length msg - c.nsym) msg) 0
  unfolding decode_with_count sorted_set any_outside erased
  decode_with_count-codeword msg m l h =
      let given : ((length msg == 0) && ltb 0 c.nsym) ≡ false = ground arith in
      let fits : ltb c.nsym 0 ≡ false = ground arith in
      rw (octets-same msg m, given, fits)
        (decode_erased-codeword msg h ∙ ap (λ m. decoded m 0) (without_parity-long msg l))

  abbrev parity : List ℕ → List ℕ
  parity msg =
      remainder c.exp c.log (without_first c.gpoly) (length msg) (msg ++ replicate c.nsym 0)

  module _ (prim : ℕ) (codec : IsCodec prim c) where
    parity-octets :
        (msg : List ℕ) → All IsOctet msg → All IsOctet (parity msg) × (length (parity msg) ≡ c.nsym)
    parity-octets msg m =
        let (octets_parity, n) =
          remainder-octets prim c.exp c.log codec.field (without_first c.gpoly) (length msg)
            (msg ++ replicate c.nsym 0) codec.tail-octets
            (padded-octets prim c.exp c.log codec.field msg c.nsym m)
            (padded-length prim c.exp c.log codec.field msg c.nsym
              ∙ ap (◌+◌ (length msg)) (sym codec.tail-length)) in
        (octets_parity, n ∙ codec.tail-length)

    parity-root :
        (msg : List ℕ) (i : ℕ)
        → All IsOctet msg
        → i < c.nsym
        → eval_from c.exp c.log 0 (msg ++ parity msg) (pow c.exp c.log c.gen (i + c.fcr)) ≡ 0
    parity-root msg i m l =
        ap
          (λ n.
            eval_from c.exp c.log 0
              (msg
                ++ remainder c.exp c.log (without_first c.gpoly) (length msg)
                    (msg ++ replicate n 0))
              (pow c.exp c.log c.gen (i + c.fcr)))
          (sym codec.tail-length)
        ∙ eval-encoded prim c.exp c.log codec.field (without_first c.gpoly)
            (pow c.exp c.log c.gen (i + c.fcr)) codec.tail-octets (codec.root-octet i l)
            (codec.root-zero i l) msg m

    encode-fits :
        (data_ : List ℕ)
        → length data_ + c.nsym ≤ 255
        → encode c data_ ≡ ok (octets data_ ++ parity (octets data_))
    unfolding encode
    encode-fits data_ h =
        let fits : ltb 255 (length (octets data_) + c.nsym) ≡ false =
          ground (arith, octets-length data_) in
        rw (fits) refl

    -- Whatever the octets are that fit beside the parity, `encode` accepts them and appends the
    -- parity, and `decode_with_count` gives them back with no symbol corrected.
    pub decode_with_count-encode :
        (data_ : List ℕ)
        → length data_ + c.nsym ≤ 255
        → (codeword : List ℕ) × (encode c data_ ≡ ok codeword)
          × (length codeword ≡ length data_ + c.nsym)
          × All IsOctet codeword
          × (decode_with_count c codeword [] ≡ decoded (octets data_) 0)
    decode_with_count-encode data_ h =
        let msg = octets data_ in
        let m = octets-octets data_ in
        let (octets_parity, n) = parity-octets msg m in
        let size : length (msg ++ parity msg) ≡ length data_ + c.nsym =
          length-append msg (parity msg) ∙ ap₂ ◌+◌ (octets-length data_) n in
        let whole : length (msg ++ parity msg) - c.nsym ≡ length msg =
          omega (arith, size, octets-length data_) in
        (
          msg ++ parity msg,
          encode-fits data_ h,
          size,
          All-append IsOctet msg (parity msg) m octets_parity,
          decode_with_count-codeword (msg ++ parity msg)
                (All-append IsOctet msg (parity msg) m octets_parity) (omega (arith, size))
                (λ k l.
                  poly_eval_horner c.exp c.log (msg ++ parity msg)
                    (pow c.exp c.log c.gen (k + c.fcr))
                  ∙ parity-root msg k m l)
              ∙ ap (λ p. decoded p 0)
                  (take-append msg (parity msg) (length (msg ++ parity msg) - c.nsym) whole),
        )
