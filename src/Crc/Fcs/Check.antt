-- ===== src/Crc/Fcs/Check.antt =====
-- `check` accepts exactly the frames that end with their own check sequence.
use gs_flowgraphs.Base.{
  ℕ, ◌-◌, ◌/◌, ◌^◌, ◌≡◌, refl, ap, sym, ◌∙◌, ◌↔◌, true, false, List, [], ◌∷◌, ◌++◌, arith,
}
use gs_flowgraphs.Base.{
  ltb, ==_iff, ==_self, length, take, drop, length-append, take-append, drop-append,
  take-append-drop, and_mask,
}
use gs_flowgraphs.Octets.{IsBytes}
use gs_flowgraphs.Crc.Fcs.{fcs, fcs_bytes, same_bytes, check}

pub same_bytes_self : (xs : List ℕ) → same_bytes xs xs ≡ true
unfolding same_bytes
same_bytes_self [] = refl
same_bytes_self (x ∷ xs) = rw (==_self x) (same_bytes_self xs)

pub eq_of_same_bytes : (xs ys : List ℕ) → same_bytes xs ys ≡ true → xs ≡ ys
unfolding same_bytes
eq_of_same_bytes [] [] h = refl
eq_of_same_bytes [] (y ∷ ys) h = cc
eq_of_same_bytes (x ∷ xs) [] h = cc
eq_of_same_bytes (x ∷ xs) (y ∷ ys) h = ground (arith, eq_of_same_bytes xs ys, ==_iff x y)

pub length-fcs_bytes : (bytes : List ℕ) → length (fcs_bytes bytes) ≡ 2
unfolding fcs_bytes
length-fcs_bytes bytes = refl

pub fcs_bytes-IsBytes : (bytes : List ℕ) → IsBytes (fcs_bytes bytes)
unfolding fcs_bytes
fcs_bytes-IsBytes bytes =
    (omega (arith, and_mask 8 (fcs bytes)), (omega (arith, and_mask 8 (fcs bytes / 2 ^ 8)), tt))

pub check-append : (body : List ℕ) → check (body ++ fcs_bytes body) ≡ true
unfolding check
check-append body =
    let size = length-append body (fcs_bytes body) in
    let two = length-fcs_bytes body in
    let cut : length (body ++ fcs_bytes body) - 2 ≡ length body = omega (arith, size, two) in
    let long : ltb (length (body ++ fcs_bytes body)) 2 ≡ false = ground (arith, size, two) in
    rw
      (
        long,
        cut,
        take-append body (fcs_bytes body) _ refl,
        drop-append body (fcs_bytes body) _ refl,
      )
      (same_bytes_self (fcs_bytes body))

same_bytes_of_check :
    (frame : List ℕ)
    → check frame ≡ true
    → same_bytes (fcs_bytes (take (length frame - 2) frame)) (drop (length frame - 2) frame) ≡ true
unfolding check
same_bytes_of_check frame h = ground arith

-- `check` accepts a frame exactly when it is some body followed by the two octets that
-- `fcs_bytes` gives for that body.
pub check_iff :
    (frame : List ℕ) → (check frame ≡ true) ↔ ((body : List ℕ) × (frame ≡ body ++ fcs_bytes body))
check_iff frame = (split, λ r. ap check r.1 ∙ check-append r.0)
  where
    split : check frame ≡ true → (body : List ℕ) × (frame ≡ body ++ fcs_bytes body)
    split h =
        let cut = length frame - 2 in
        (
          take cut frame,
          sym (take-append-drop cut frame)
              ∙ ap (◌++◌ (take cut frame)) (
                  sym (
                    eq_of_same_bytes (fcs_bytes (take cut frame)) (drop cut frame)
                      (same_bytes_of_check frame h))),
        )
