-- ===== src/Kiss/Escape.antt =====
-- Escaping of kiss.py: the delimiter disappears, and unescaping gives the octets back.
use gs_flowgraphs.Base.{
  ℕ, suc, ◌+◌, ◌≡◌, refl, ap, ap₂, sym, ◌∙◌, Bool, false, some, List, [], ◌∷◌, ◌++◌, append_assoc,
  append-nil, inl, inr, arith,
}
use gs_flowgraphs.Base.{◌==◌, ==_iff, if◌then◌else◌, All, Bool-cases}
use gs_flowgraphs.Kiss.{fend, fesc, escape, unescape_loop, unescape}

-- No octet is the delimiter.
abbrev pub IsFree : List ℕ → Type 0
IsFree octets = All (λ b. (b == fend) ≡ false) octets

-- How many octets of a frame are escaped.
pub specials : List ℕ → ℕ
specials [] = 0
specials (b ∷ frame) =
    if b == fend
    then suc (specials frame)
    else if b == fesc
    then suc (specials frame)
    else specials frame

pub escape-IsFree : (frame : List ℕ) → IsFree (escape frame)
unfolding escape
escape-IsFree [] = tt
escape-IsFree (b ∷ frame) = elim (Bool-cases (b == fend)) [
  | inl end ↦ rw end (refl, (refl, escape-IsFree frame))
  | inr other ↦ elim (Bool-cases (b == fesc)) [
    | inl esc ↦ rw (other, esc) (refl, (refl, escape-IsFree frame))
    | inr plain ↦ rw (other, plain) (other, escape-IsFree frame)
  ]
]

unescape_plain :
    (strict : Bool) (out : List ℕ) (n b : ℕ) (rest : List ℕ)
    → (b == fesc) ≡ false
    → unescape_loop strict out n (b ∷ rest) ≡ unescape_loop strict (out ++ b ∷ []) n rest
unfolding unescape_loop
unescape_plain strict out n b [] e = rw e
unescape_plain strict out n b (nxt ∷ rest) e = rw e

unescape_loop-escape :
    (strict : Bool) (out : List ℕ) (n : ℕ) (frame : List ℕ)
    → unescape_loop strict out n (escape frame)
      ≡ record { payload = some (out ++ frame); escapes = n + specials frame }
unfolding unescape_loop escape specials
unescape_loop-escape strict out n [] =
    λ i. record { payload = some (sym (append-nil out) i); escapes = zero_more i }
  where
    zero_more : n ≡ n + 0
    zero_more = omega arith
unescape_loop-escape strict out n (b ∷ frame) = elim (Bool-cases (b == fend)) [
  | inl end ↦
      let count : n + 1 + specials frame ≡ n + suc (specials frame) = omega arith in
      let is : fend ≡ b = sym ((==_iff b fend).0 end) in
      rw end (
        unescape_loop-escape strict (out ++ fend ∷ []) (n + 1) frame
        ∙ ap₂ (λ p k. record { payload = some p; escapes = k })
            (append_assoc out (fend ∷ []) frame ∙ ap (λ c. out ++ c ∷ frame) is) count)
  | inr other ↦ elim (Bool-cases (b == fesc)) [
    | inl esc ↦
        let count : n + 1 + specials frame ≡ n + suc (specials frame) = omega arith in
        let is : fesc ≡ b = sym ((==_iff b fesc).0 esc) in
        rw (other, esc)
          (unescape_loop-escape strict (out ++ fesc ∷ []) (n + 1) frame
            ∙ ap₂ (λ p k. record { payload = some p; escapes = k })
                (append_assoc out (fesc ∷ []) frame ∙ ap (λ c. out ++ c ∷ frame) is) count)
    | inr plain ↦
        rw (other, plain)
          (unescape_plain strict out n b (escape frame) plain
            ∙ unescape_loop-escape strict (out ++ b ∷ []) n frame
            ∙ ap (λ p. record { payload = some p; escapes = n + specials frame })
                (append_assoc out (b ∷ []) frame))
  ]
]

-- In both modes, unescaping an escaped frame gives the frame and the number of its escapes.
pub unescape-escape :
    (strict : Bool) (frame : List ℕ)
    → unescape (escape frame) strict ≡ record { payload = some frame; escapes = specials frame }
unfolding unescape
unescape-escape strict frame =
    unescape_loop-escape strict [] 0 frame
    ∙ ap (λ k. record { payload = some frame; escapes = k }) {y = specials frame} (omega arith)
