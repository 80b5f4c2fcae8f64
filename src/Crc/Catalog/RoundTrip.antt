-- ===== src/Crc/Catalog/RoundTrip.antt =====
-- `append` and `strip_if_valid` of the catalogue's checks.
use native.Mathlib.Nat.{pow-suc, one-le-pow}
use native.Mathlib.Numerals.{towards_suc}
use mathlib.Core.List.{reverse, reverse-reverse, reverse-cons}
use gs_flowgraphs.Base.{
  ℕ, zero, suc, ◌+◌, ◌-◌, ◌*◌, ◌/◌, ◌%◌, ◌^◌, ◌≤◌, ◌<◌, ◌≡◌, refl, ap, sym, ◌∙◌, subst, false, some,
  List, [], ◌∷◌, ◌++◌, ◌≢◌, ◌↔◌, bit_and, arith,
}
use gs_flowgraphs.Base.{
  Result, ok, value_error, ltb, ==_self, take, drop, length, All-drop, length-append, take-append,
  drop-append, take-append-drop, length-drop, and_mask, All-append,
}
use gs_flowgraphs.Octets.{IsByte, IsBytes}
use gs_flowgraphs.Crc.Catalog.{
  CrcSpec, post_init, byte_width, compute, Byteorder, big, little, other, to_bytes_little,
  from_bytes_little, to_bytes, from_bytes, with_check, append, strip_checked, strip_if_valid,
}

length-to_bytes_little : (n value : ℕ) → length (to_bytes_little n value) ≡ n
unfolding to_bytes_little
length-to_bytes_little zero value = refl
length-to_bytes_little (suc n) value = ap suc (length-to_bytes_little n (value / 256))

length-reverse {ℓ} : {A : Type ℓ} (xs : List A) → length (reverse xs) ≡ length xs
length-reverse [] = refl
length-reverse (x ∷ xs) =
    ap length (reverse-cons x xs)
    ∙ length-append (reverse xs) (x ∷ [])
    ∙ omega (arith, length-reverse xs)

from_bytes_little-to_bytes_little :
    (n value : ℕ) → value < 256 ^ n → from_bytes_little (to_bytes_little n value) ≡ value
unfolding from_bytes_little to_bytes_little
from_bytes_little-to_bytes_little zero value h = omega arith
from_bytes_little-to_bytes_little (suc n) value h =
    let ih = from_bytes_little-to_bytes_little n (value / 256) (omega (arith, pow-suc 256 n)) in
    omega (arith, ih)

to_bytes_little-from_bytes_little :
    (bytes : List ℕ)
    → IsBytes bytes
    → to_bytes_little (length bytes) (from_bytes_little bytes) ≡ bytes
unfolding from_bytes_little to_bytes_little
to_bytes_little-from_bytes_little [] h = refl
to_bytes_little-from_bytes_little (b ∷ bytes) h =
    let value = from_bytes_little bytes in
    let low : (b + 256 * value) % 256 ≡ b = omega (arith, h.0) in
    let high : (b + 256 * value) / 256 ≡ value = omega (arith, h.0) in
    rw (low, high) (ap (◌∷◌ b) (to_bytes_little-from_bytes_little bytes h.1))

pow-two-eight : (n : ℕ) → 2 ^ (n * 8) ≡ 256 ^ n
pow-two-eight zero = refl
pow-two-eight (suc n) =
    let e : suc n * 8 ≡ n * 8 + 8 = omega arith in
    let p : 2 ^ (n * 8 + 8) ≡ 256 * 2 ^ (n * 8) = simp towards_suc (omega arith) in
    ap (λ k. 2 ^ k) e ∙ p ∙ omega (arith, pow-suc 256 n, pow-two-eight n)

post_init-width : (spec : CrcSpec) → post_init spec ≡ ok spec → spec.width % 8 ≡ 0
unfolding post_init
post_init-width spec h = ground arith

masked-lt : (n width x : ℕ) → width ≡ n * 8 → bit_and x (2 ^ width - 1) < 256 ^ n
masked-lt n width x e = rw (← pow-two-eight n, ← e) (masked (one-le-pow width 2 (omega arith)))
  where
    masked : 0 < 2 ^ width → bit_and x (2 ^ width - 1) < 2 ^ width
    masked pos = omega (arith, and_mask width x)

-- `int.from_bytes` undoes `int.to_bytes`, and the other way round.
from_bytes-to_bytes :
    (order : Byteorder) (n value : ℕ) (check : List ℕ)
    → value < 256 ^ n
    → to_bytes order n value ≡ ok check
    → (length check ≡ n) × (from_bytes order check ≡ value)
unfolding to_bytes from_bytes
from_bytes-to_bytes big n value check h e =
    let is : check ≡ reverse (to_bytes_little n value) = cc in
    (
      ap length is ∙ length-reverse (to_bytes_little n value) ∙ length-to_bytes_little n value,
      ap (λ c. from_bytes_little (reverse c)) is
          ∙ ap from_bytes_little (reverse-reverse (to_bytes_little n value))
          ∙ from_bytes_little-to_bytes_little n value h,
    )
from_bytes-to_bytes little n value check h e =
    let is : check ≡ to_bytes_little n value = cc in
    (
      ap length is ∙ length-to_bytes_little n value,
      ap from_bytes_little is ∙ from_bytes_little-to_bytes_little n value h,
    )
from_bytes-to_bytes other n value check h e = cc

IsBytes-reverse : (bytes : List ℕ) → IsBytes bytes → IsBytes (reverse bytes)
IsBytes-reverse [] h = tt
IsBytes-reverse (b ∷ bytes) h =
    subst IsBytes (sym (reverse-cons b bytes))
      (All-append IsByte (reverse bytes) (b ∷ []) (IsBytes-reverse bytes h.1) (h.0, tt))

to_bytes-from_bytes :
    (order : Byteorder) (check : List ℕ)
    → order ≢ other
    → IsBytes check
    → to_bytes order (length check) (from_bytes order check) ≡ ok check
unfolding to_bytes from_bytes
to_bytes-from_bytes big check ne h = rw (← length-reverse check) (
    ap (λ c. ok (reverse c))
      (to_bytes_little-from_bytes_little (reverse check) (IsBytes-reverse check h))
    ∙ ap ok (reverse-reverse check))
to_bytes-from_bytes little check ne h = ap ok (to_bytes_little-from_bytes_little check h)
to_bytes-from_bytes other check ne h = absurd (ne refl)

module _ (spec : CrcSpec) (valid : post_init spec ≡ ok spec) where
  -- The check fits in its octets.
  pub compute-lt : (bytes : List ℕ) → compute spec bytes < 256 ^ byte_width spec
  unfolding compute
  compute-lt bytes =
      masked-lt (byte_width spec) spec.width _ (omega (arith, post_init-width spec valid))

  strip_checked-append :
      (order : Byteorder) (payload check : List ℕ)
      → length check ≡ byte_width spec
      → from_bytes order check ≡ compute spec payload
      → strip_checked spec order (payload ++ check) ≡ some payload
  unfolding strip_checked
  strip_checked-append order payload check l e =
      let cut : length (payload ++ check) - byte_width spec ≡ length payload =
        omega (arith, length-append payload check) in
      let long : ltb (length (payload ++ check)) (byte_width spec) ≡ false =
        ground (arith, length-append payload check) in
      rw (long, cut, take-append payload check _ refl, drop-append payload check _ refl, e)
        (rw (==_self (compute spec payload)))

  strip_checked-inv :
      (order : Byteorder) (frame payload : List ℕ)
      → strip_checked spec order frame ≡ some payload
      → (check : List ℕ) × (frame ≡ payload ++ check)
        × (length check ≡ byte_width spec)
        × (from_bytes order check ≡ compute spec payload)
  unfolding strip_checked
  strip_checked-inv order frame payload h =
      let cut = length frame - byte_width spec in
      let is : payload ≡ take cut frame = ground arith in
      let same : compute spec (take cut frame) ≡ from_bytes order (drop cut frame) = ground arith in
      let long : byte_width spec ≤ length frame = ground arith in
      (
        drop cut frame,
        sym (take-append-drop cut frame) ∙ ap (λ p. p ++ drop cut frame) (sym is),
        omega (arith, length-drop cut frame),
        sym same ∙ ap (compute spec) (sym is),
      )

  accepts :
      (order : Byteorder) (frame payload : List ℕ) (check : Result (List ℕ))
      → check ≡ to_bytes order (byte_width spec) (compute spec payload)
      → with_check payload check ≡ ok frame
      → strip_checked spec order frame ≡ some payload
  unfolding with_check
  accepts order frame payload (ok check) e h =
      let back =
        from_bytes-to_bytes order (byte_width spec) (compute spec payload) check
          (compute-lt payload) (sym e) in
      let is : payload ++ check ≡ frame = cc in
      rw (← is) (strip_checked-append order payload check back.0 back.1)
  accepts order frame payload value_error e h = cc

  rebuilds :
      (order : Byteorder) (frame payload : List ℕ)
      → order ≢ other
      → IsBytes frame
      → strip_checked spec order frame ≡ some payload
      → append spec order payload ≡ ok frame
  unfolding append with_check
  rebuilds order frame payload ne bytes h =
      let (check, e, l, v) = strip_checked-inv order frame payload h in
      let check_bytes = All-drop IsByte payload check (subst IsBytes e bytes) in
      let encoded : to_bytes order (byte_width spec) (compute spec payload) ≡ ok check =
        rw (← l, ← v) (to_bytes-from_bytes order check ne check_bytes) in
      rw encoded (ap ok (sym e))

  -- Of a frame of octets, `strip_if_valid` returns a payload exactly when the frame is what
  -- `append` makes of that payload, for each byte order and each specification that
  -- `__post_init__` lets through.
  pub strip_if_valid-append_iff :
      (order : Byteorder) (frame payload : List ℕ)
      → order ≢ other
      → IsBytes frame
      → (strip_if_valid spec order frame ≡ ok (some payload))
        ↔ (append spec order payload ≡ ok frame)
  unfolding strip_if_valid append
  strip_if_valid-append_iff big frame payload ne bytes = (
    (λ h. rebuilds big frame payload ne bytes (cc)),
    (λ h. ap ok (accepts big frame payload _ refl h)),
  )
  strip_if_valid-append_iff little frame payload ne bytes = (
    (λ h. rebuilds little frame payload ne bytes (cc)),
    (λ h. ap ok (accepts little frame payload _ refl h)),
  )
  strip_if_valid-append_iff other frame payload ne bytes = absurd (ne refl)

  -- What `append` makes is stripped to what it was made of, and is longer by the check.
  pub append-strip_checked :
      (order : Byteorder) (frame payload : List ℕ)
      → append spec order payload ≡ ok frame
      → (strip_checked spec order frame ≡ some payload)
        × ((check : List ℕ) × (frame ≡ payload ++ check) × (length check ≡ byte_width spec))
  unfolding append
  append-strip_checked order frame payload h =
      let taken = accepts order frame payload _ refl h in
      let parts = strip_checked-inv order frame payload taken in
      (taken, (parts.0, parts.1, parts.2))
