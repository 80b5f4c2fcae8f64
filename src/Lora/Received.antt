-- ===== src/Lora/Received.antt =====
-- The payload's check of native_lora/framing.py as a number of four nibbles, the lowest first.
use gs_flowgraphs.Base.{
  ℕ, zero, suc, ◌+◌, ◌*◌, ◌≡◌, refl, ap, ◌∙◌, Bool, true, false, Option, List, [], ◌∷◌, arith, inl,
  inr, ok, ◌>>=◌, ◌==◌, drop, take, get_or, ok-bind, Bool-cases,
}
use gs_flowgraphs.Lora.{LoRaHeader, lora_payload_crc}
use gs_flowgraphs.Lora.Frame.{check_crc, judged, received_crc}

abbrev pub little_endian : List ℕ → ℕ
little_endian [] = 0
little_endian (n ∷ nibbles) = n + 16 * little_endian nibbles

get_or-drop :
    (nibbles : List ℕ) (o k n : ℕ) → n ≡ o + k → get_or nibbles n 0 ≡ get_or (drop o nibbles) k 0
get_or-drop nibbles zero k n h = ap (λ i. get_or nibbles i 0) (omega arith)
get_or-drop [] (suc o) k n h = refl
get_or-drop (x ∷ nibbles) (suc o) k zero h = absurd (omega arith)
get_or-drop (x ∷ nibbles) (suc o) k (suc n) h = get_or-drop nibbles o k n (omega arith)

first_four :
    (nibbles : List ℕ)
    → little_endian (take 4 nibbles)
      ≡ get_or nibbles 0 0
        + 16 * (get_or nibbles 1 0 + 16 * (get_or nibbles 2 0 + 16 * get_or nibbles 3 0))
first_four [] = refl
first_four (a ∷ []) = omega arith
first_four (a ∷ b ∷ []) = omega arith
first_four (a ∷ b ∷ c ∷ []) = omega arith
first_four (a ∷ b ∷ c ∷ d ∷ nibbles) = omega arith

-- The check that is read is the number of the four nibbles after the payload's.
pub received_crc-little_endian :
    (nibbles : List ℕ) (o : ℕ) → received_crc nibbles o ≡ little_endian (take 4 (drop o nibbles))
unfolding received_crc
received_crc-little_endian nibbles o = omega (
  arith,
  first_four (drop o nibbles),
  get_or-drop nibbles o 0 o (omega arith),
  get_or-drop nibbles o 1 (o + 1) (omega arith),
  get_or-drop nibbles o 2 (o + 2) (omega arith),
  get_or-drop nibbles o 3 (o + 3) (omega arith),
)

-- If there is a check, the four nibbles after those of the payload are the payload's check.
abbrev pub Checked : Bool → ℕ → List ℕ → List ℕ → Type 0
Checked false offset nibbles payload = Unit
Checked true offset nibbles payload =
    lora_payload_crc payload ≡ ok (little_endian (take 4 (drop offset nibbles)))

judged-true : (valid : Bool) (v : Option Bool) → judged true valid ≡ ok v → valid ≡ true
unfolding judged
judged-true true v h = refl
judged-true false v h = absurd (cc)

check_crc-called :
    (nibbles payload : List ℕ) (offset : ℕ) (v : Option Bool)
    → (lora_payload_crc payload
        >>= (λ expected. judged true (received_crc nibbles offset == expected)))
      ≡ ok v
    → Checked true offset nibbles payload
check_crc-called nibbles payload offset v called =
    let (expected, got, told) =
      ok-bind (lora_payload_crc payload)
        (λ expected. judged true (received_crc nibbles offset == expected)) v called in
    let valid = judged-true (received_crc nibbles offset == expected) v told in
    let same : expected ≡ received_crc nibbles offset = ground arith in
    got ∙ ap ok (same ∙ received_crc-little_endian nibbles offset)

pub check_crc-Checked :
    (header : LoRaHeader) (nibbles payload : List ℕ) (v : Option Bool)
    → check_crc header true nibbles payload ≡ ok v
    → Checked header.has_crc (2 * header.payload_length) nibbles payload
unfolding check_crc
check_crc-Checked header nibbles payload v h = elim (Bool-cases header.has_crc) [
  | inl checked ↦
      let called : (lora_payload_crc payload >>= (λ expected.
        judged true (received_crc nibbles (2 * header.payload_length) == expected)))
          ≡ ok v =
        ground arith in
      rw checked (check_crc-called nibbles payload (2 * header.payload_length) v called)
  | inr unchecked ↦ rw unchecked tt
]
