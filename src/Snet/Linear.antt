-- ===== src/Snet/Linear.antt =====
-- The syndromes of native_framing/codes/snet.py are linear in the bits.
use gs_flowgraphs.Base.{
  ℕ, zero, suc, ◌+◌, ◌-◌, ◌*◌, ◌/◌, ◌%◌, ◌<◌, bit_and, bit_or, bit_xor, ◌<<<◌, ◌>>>◌, Bool, true,
  false, List, [], ◌∷◌, ◌≡◌, refl, sym, ap, ap₂, ◌∙◌, arith, All, ◌⊕◌, not, ◌||◌, ◌==◌,
  if◌then◌else◌, length, length-replicate, get_or, replicate, or_fields, and_mask,
}
use gs_flowgraphs.Base.Xor.{
  xor_step, xor-lt, xor-half, xor-odd, xor_self, xor-zero, zero-xor, xor_assoc, xor_comm,
  xor_cancel, xor_exchange,
}
use gs_flowgraphs.Snet.{
  exp_table, word_of, syndrome_from, syndromes_from, syndromes, flipped, all_flipped, any,
}

abbrev pub IsBit : ℕ → Type 0
IsBit b = b < 2

-- Exclusive or of two words, bit by bit.
unfoldable pub xor_bits : List ℕ → List ℕ → List ℕ
xor_bits [] es = []
xor_bits (b ∷ bs) [] = b ∷ bs
xor_bits (b ∷ bs) (e ∷ es) = bit_xor b e ∷ xor_bits bs es

xor_of_bits : (b e : ℕ) → IsBit b → IsBit e → bit_xor b e ≡ (b + e) % 2
xor_of_bits zero e h k = zero-xor e ∙ omega arith
xor_of_bits (suc zero) zero h k = refl
xor_of_bits (suc zero) (suc zero) h k = refl
xor_of_bits (suc zero) (suc (suc e)) h k = absurd (omega arith)
xor_of_bits (suc (suc b)) e h k = absurd (omega arith)

shifted : (v b : ℕ) → IsBit b → bit_or (v <<< 1) b ≡ v * 2 + b
shifted v b h = or_fields 1 v b h

appended-xor :
    (v w b e : ℕ)
    → IsBit b
    → IsBit e
    → bit_or (bit_xor v w <<< 1) (bit_xor b e) ≡ bit_xor (bit_or (v <<< 1) b) (bit_or (w <<< 1) e)
appended-xor v w b e h k =
    let hv : (v * 2 + b) / 2 ≡ v = omega arith in
    let hw : (w * 2 + e) / 2 ≡ w = omega arith in
    let low : ((v * 2 + b) % 2 + (w * 2 + e) % 2) % 2 ≡ (b + e) % 2 = omega arith in
    let split : bit_xor (v * 2 + b) (w * 2 + e) ≡ bit_xor v w * 2 + (b + e) % 2 =
      xor_step (v * 2 + b) (w * 2 + e) ∙ rw (hv, hw, low) refl in
    shifted (bit_xor v w) (bit_xor b e) (xor-lt 1 b e h k)
    ∙ ap (λ t. bit_xor v w * 2 + t) (xor_of_bits b e h k)
    ∙ sym split
    ∙ sym (ap₂ bit_xor (shifted v b h) (shifted w e k))

word_of-xor :
    (bs es : List ℕ) (v w : ℕ)
    → length es ≡ length bs
    → All IsBit bs
    → All IsBit es
    → word_of (xor_bits bs es) (bit_xor v w) ≡ bit_xor (word_of bs v) (word_of es w)
unfolding word_of xor_bits
word_of-xor [] [] v w h k l = refl
word_of-xor [] (e ∷ es) v w h k l = absurd (omega arith)
word_of-xor (b ∷ bs) [] v w h k l = absurd (omega arith)
word_of-xor (b ∷ bs) (e ∷ es) v w h k l =
    ap (word_of (xor_bits bs es)) (appended-xor v w b e k.0 l.0)
    ∙ word_of-xor bs es (bit_or (v <<< 1) b) (bit_or (w <<< 1) e) (omega arith) k.1 l.1

odd_sum : (x y : ℕ) → IsBit x → IsBit y → (((x + y) % 2) == 1) ≡ (x == 1) ⊕ (y == 1)
odd_sum zero zero h k = refl
odd_sum zero (suc zero) h k = refl
odd_sum (suc zero) zero h k = refl
odd_sum (suc zero) (suc zero) h k = refl
odd_sum (suc (suc x)) y h k = absurd (omega arith)
odd_sum x (suc (suc y)) h k = absurd (omega arith)

odd-xor : (v w : ℕ) → (bit_and (bit_xor v w) 1 == 1) ≡ (bit_and v 1 == 1) ⊕ (bit_and w 1 == 1)
odd-xor v w =
    ap (λ t. t == 1) (and_mask 1 (bit_xor v w) ∙ xor-odd v w)
    ∙ odd_sum (v % 2) (w % 2) (omega arith) (omega arith)
    ∙ ap₂ (λ s t. (s == 1) ⊕ (t == 1)) (sym (and_mask 1 v)) (sym (and_mask 1 w))

added :
    (p q : Bool) (s t e : ℕ)
    → (if p ⊕ q then bit_xor (bit_xor s t) e else bit_xor s t)
      ≡ bit_xor (if p then bit_xor s e else s) (if q then bit_xor t e else t)
added false false s t e = refl
added false true s t e = xor_assoc s t e
added true false s t e = xor_assoc s t e ∙ ap (bit_xor s) (xor_comm t e) ∙ sym (xor_assoc s e t)
added true true s t e =
    sym (xor-zero (bit_xor s t))
    ∙ ap (bit_xor (bit_xor s t)) (sym (xor_self e))
    ∙ xor_exchange s t e e

syndrome_from-xor :
    (root n v w s t : ℕ)
    → syndrome_from root n (bit_xor v w) (bit_xor s t)
      ≡ bit_xor (syndrome_from root n v s) (syndrome_from root n w t)
unfolding syndrome_from
syndrome_from-xor root zero v w s t = refl
syndrome_from-xor root (suc power) v w s t =
    let e = get_or exp_table ((power * root) % 15) 0 in
    ap₂ (syndrome_from root power) (xor-half v w) (
      ap (λ p. if p then bit_xor (bit_xor s t) e else bit_xor s t) (odd-xor v w)
      ∙ added (bit_and v 1 == 1) (bit_and w 1 == 1) s t e)
    ∙ syndrome_from-xor root power (v >>> 1) (w >>> 1) _ _

none_of : (x : ℕ) (rest : Bool) → (not (x == 0) || rest) ≡ false → (x ≡ 0) × (rest ≡ false)
none_of x rest h = ground arith

syndromes_from-xor :
    (v w left root : ℕ)
    → any (syndromes_from v left root) ≡ false
    → syndromes_from (bit_xor v w) left root ≡ syndromes_from w left root
unfolding syndromes_from any
syndromes_from-xor v w zero root h = refl
syndromes_from-xor v w (suc left) root h =
    let (quiet, rest) =
      none_of (syndrome_from root 15 v 0) (any (syndromes_from v left (root + 1))) h in
    ap₂ ◌∷◌
      (syndrome_from-xor root 15 v w 0 0
        ∙ ap (λ t. bit_xor t (syndrome_from root 15 w 0)) quiet
        ∙ zero-xor (syndrome_from root 15 w 0))
      (syndromes_from-xor v w left (root + 1) rest)

-- A word without syndromes leaves those of what is added to it.
pub syndromes-xor_bits :
    (bs es : List ℕ) (distance : ℕ)
    → length es ≡ length bs
    → All IsBit bs
    → All IsBit es
    → any (syndromes bs distance) ≡ false
    → syndromes (xor_bits bs es) distance ≡ syndromes es distance
unfolding syndromes
syndromes-xor_bits bs es distance h k l quiet =
    ap (λ v. syndromes_from v (distance - 1) 1) (word_of-xor bs es 0 0 h k l)
    ∙ syndromes_from-xor (word_of bs 0) (word_of es 0) (distance - 1) 1 quiet

pub xor_bits-length : (bs es : List ℕ) → length (xor_bits bs es) ≡ length bs
unfolding xor_bits
xor_bits-length [] es = refl
xor_bits-length (b ∷ bs) [] = refl
xor_bits-length (b ∷ bs) (e ∷ es) = ap suc (xor_bits-length bs es)

pub xor_bits-bits : (bs es : List ℕ) → All IsBit bs → All IsBit es → All IsBit (xor_bits bs es)
unfolding xor_bits
xor_bits-bits [] es h k = tt
xor_bits-bits (b ∷ bs) [] h k = h
xor_bits-bits (b ∷ bs) (e ∷ es) h k = (xor-lt 1 b e h.0 k.0, xor_bits-bits bs es h.1 k.1)

pub xor_bits_twice : (bs es : List ℕ) → length es ≡ length bs → xor_bits (xor_bits bs es) es ≡ bs
unfolding xor_bits
xor_bits_twice [] es h = refl
xor_bits_twice (b ∷ bs) [] h = refl
xor_bits_twice (b ∷ bs) (e ∷ es) h = ap₂ ◌∷◌ (xor_cancel b e) (xor_bits_twice bs es (omega arith))

xor_bits-zeros : (bs : List ℕ) (n : ℕ) → xor_bits bs (replicate n 0) ≡ bs
unfolding xor_bits
xor_bits-zeros [] n = refl
xor_bits-zeros (b ∷ bs) zero = refl
xor_bits-zeros (b ∷ bs) (suc n) = ap₂ ◌∷◌ (xor-zero b) (xor_bits-zeros bs n)

flipped-length : (p : ℕ) (es : List ℕ) → length (flipped p es) ≡ length es
unfolding flipped
flipped-length p [] = refl
flipped-length zero (e ∷ es) = refl
flipped-length (suc p) (e ∷ es) = ap suc (flipped-length p es)

flipped-xor_bits :
    (p : ℕ) (bs es : List ℕ)
    → length es ≡ length bs
    → flipped p (xor_bits bs es) ≡ xor_bits bs (flipped p es)
unfolding flipped xor_bits
flipped-xor_bits p [] es h = refl
flipped-xor_bits p (b ∷ bs) [] h = absurd (omega arith)
flipped-xor_bits zero (b ∷ bs) (e ∷ es) h = ap (λ x. x ∷ xor_bits bs es) (xor_assoc b e 1)
flipped-xor_bits (suc p) (b ∷ bs) (e ∷ es) h =
    ap (◌∷◌ (bit_xor b e)) (flipped-xor_bits p bs es (omega arith))

all_flipped-xor_bits :
    (ps bs es : List ℕ)
    → length es ≡ length bs
    → all_flipped ps (xor_bits bs es) ≡ xor_bits bs (all_flipped ps es)
unfolding all_flipped
all_flipped-xor_bits [] bs es h = refl
all_flipped-xor_bits (p ∷ ps) bs es h =
    ap (all_flipped ps) (flipped-xor_bits p bs es h)
    ∙ all_flipped-xor_bits ps bs (flipped p es) (flipped-length p es ∙ h)

-- Flipping bits adds the word that has those bits.
pub all_flipped_adds :
    (ps bs : List ℕ) → all_flipped ps bs ≡ xor_bits bs (all_flipped ps (replicate (length bs) 0))
all_flipped_adds ps bs =
    ap (all_flipped ps) (sym (xor_bits-zeros bs (length bs)))
    ∙ all_flipped-xor_bits ps bs (replicate (length bs) 0) (length-replicate (length bs) 0)
