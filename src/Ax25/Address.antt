-- ===== src/Ax25/Address.antt =====
-- The address octets of ax25.py: what a callsign becomes, and that it comes back.
use gs_flowgraphs.Base.{
  ℕ, zero, suc, ◌-◌, ◌%◌, ◌<◌, ◌≡◌, refl, ap, ap₂, sym, ◌∙◌, Bool, true, false, List, [], ◌∷◌, ◌++◌,
  map, bit_and, bit_or, arith, ◌&&◌,
}
use gs_flowgraphs.Base.{
  ok, ltb, ◌==◌, length, take, replicate, get_or, bit, odd_of, All, All-append, All-take,
  All-replicate, length-append, length-take, length-map, length-replicate, take-append, ◌<<<◌,
  ◌>>>◌, and_mask, all_below, all_below_sound,
}
use gs_flowgraphs.Octets.{IsByte, IsBytes}
use gs_flowgraphs.Ax25.{
  upper_char, ljust, padded, ascii, ssid_octet, encode_callsign, is_space, rstrip_cons, rstrip,
  decode_callsign,
}

abbrev pub IsAscii : List ℕ → Type 0
IsAscii text = All (λ c. c < 128) text

-- What a receiver shows for a callsign: six characters at most, in upper case, no space at the end.
abbrev pub shown : List ℕ → List ℕ
shown call = rstrip (take 6 (map upper_char call))

ascii_ok : (text : List ℕ) → IsAscii text → ascii text ≡ ok text
unfolding ascii
ascii_ok [] h = refl
ascii_ok (c ∷ text) h =
    let fits : ltb c 128 ≡ true = ground (arith, h.0) in rw (ascii_ok text h.1, fits)

upper-IsAscii : (text : List ℕ) → IsAscii text → IsAscii (map upper_char text)
unfolding upper_char
upper-IsAscii [] h = tt
upper-IsAscii (c ∷ text) h = (ground (arith, h.0), upper-IsAscii text h.1)

padded-IsAscii : (call : List ℕ) → IsAscii call → IsAscii (padded call)
unfolding padded ljust
padded-IsAscii call h =
    let cut = take 6 (map upper_char call) in
    All-append (λ c. c < 128) cut (replicate (6 - length cut) b' ')
      (All-take (λ c. c < 128) 6 (map upper_char call) (upper-IsAscii call h))
      (All-replicate (λ c. c < 128) (6 - length cut) b' ' (omega arith))

length-padded : (call : List ℕ) → length (padded call) ≡ 6
unfolding padded ljust
length-padded call =
    let cut = take 6 (map upper_char call) in
    omega (
      arith,
      length-append cut (replicate (6 - length cut) b' '),
      length-replicate {A = ℕ} (6 - length cut) b' ',
      length-take 6 (map upper_char call),
    )

rstrip-spaces : (n : ℕ) → rstrip (replicate n b' ') ≡ []
unfolding rstrip rstrip_cons is_space
rstrip-spaces zero = refl
rstrip-spaces (suc n) = rw (rstrip-spaces n)

rstrip-append_spaces : (text : List ℕ) (n : ℕ) → rstrip (text ++ replicate n b' ') ≡ rstrip text
unfolding rstrip
rstrip-append_spaces [] n = rstrip-spaces n
rstrip-append_spaces (c ∷ text) n = ap (rstrip_cons c) (rstrip-append_spaces text n)

halves-doubles : (text : List ℕ) → map (λ b. b >>> 1) (map (λ c. c <<< 1) text) ≡ text
halves-doubles [] = refl
halves-doubles (c ∷ text) = ap₂ ◌∷◌ (omega arith) (halves-doubles text)

doubles-IsBytes : (text : List ℕ) → IsAscii text → IsBytes (map (λ c. c <<< 1) text)
doubles-IsBytes [] h = tt
doubles-IsBytes (c ∷ text) h = (omega (arith, h.0), doubles-IsBytes text h.1)

rstrip-padded : (call : List ℕ) → rstrip (padded call) ≡ shown call
unfolding padded ljust
rstrip-padded call = rstrip-append_spaces (take 6 (map upper_char call)) _

-- The octet of the SSID, at each of its 16 values.
abbrev octet_right : Bool → ℕ → Bool
octet_right last s =
    ltb (ssid_octet s last) 256
    && (bit_and (ssid_octet s last >>> 1) 0x0F == s && ((ssid_octet s last) % 2 == bit last))

octets_right : (last : Bool) → all_below 16 (octet_right last) ≡ true
unfolding all_below ssid_octet
octets_right false = refl
octets_right true = refl

ssid_octet-low : (ssid : ℕ) (last : Bool) → ssid_octet ssid last ≡ ssid_octet (ssid % 16) last
unfolding ssid_octet
ssid_octet-low ssid last =
    ap (λ s. bit_or (bit_or 0x60 (s <<< 1)) (bit last))
      (and_mask 4 ssid ∙ sym (and_mask 4 (ssid % 16) ∙ omega arith))

ssid_octet_facts :
    (ssid : ℕ) (last : Bool)
    → (ssid_octet ssid last < 256)
      × (bit_and (ssid_octet ssid last >>> 1) 0x0F ≡ ssid % 16)
      × (ssid_octet ssid last % 2 ≡ bit last)
ssid_octet_facts ssid last =
    let right =
      all_below_sound (octet_right last) {bound = 16} {value = ssid % 16} (omega arith)
        (octets_right last) in
    rw (ssid_octet-low ssid last) (facts (ssid % 16) right)
  where
    facts :
        (s : ℕ)
        → octet_right last s ≡ true
        → (ssid_octet s last < 256)
          × (bit_and (ssid_octet s last >>> 1) 0x0F ≡ s)
          × (ssid_octet s last % 2 ≡ bit last)
    facts s h = ground arith

-- The seven octets of an ASCII callsign, and what the decoder reads in them.
pub record IsAddress (call : List ℕ) (ssid : ℕ) (last : Bool) (octets : List ℕ) : Type 0 where
  pub encoded : encode_callsign call ssid last ≡ ok octets
  pub seven : length octets ≡ 7
  pub bytes : IsBytes octets
  pub decoded : decode_callsign octets ≡ record { call = shown call; ssid = ssid % 16; last = last }

pub callsign_octets : List ℕ → ℕ → Bool → List ℕ
callsign_octets call ssid last = map (λ c. c <<< 1) (padded call) ++ ssid_octet ssid last ∷ []

get_or-append : (xs : List ℕ) (x : ℕ) (n : ℕ) → n ≡ length xs → get_or (xs ++ x ∷ []) n 0 ≡ x
get_or-append [] x zero e = refl
get_or-append [] x (suc n) e = absurd (omega arith)
get_or-append (y ∷ xs) x zero e = absurd (omega arith)
get_or-append (y ∷ xs) x (suc n) e = get_or-append xs x n (omega arith)

-- An ASCII callsign of any length is encoded in seven octets, of which the decoder reads its
-- first six characters in upper case without the spaces at the end, and the SSID modulo 16.
pub callsign-IsAddress :
    (call : List ℕ) (ssid : ℕ) (last : Bool)
    → IsAscii call
    → IsAddress call ssid last (callsign_octets call ssid last)
unfolding encode_callsign decode_callsign callsign_octets
callsign-IsAddress call ssid last h =
    let shifted = map (λ c. c <<< 1) (padded call) in
    let six : length shifted ≡ 6 = length-map (λ c. c <<< 1) (padded call) ∙ length-padded call in
    let facts = ssid_octet_facts ssid last in
    let seventh : get_or (shifted ++ ssid_octet ssid last ∷ []) 6 0 ≡ ssid_octet ssid last =
      get_or-append shifted (ssid_octet ssid last) 6 (sym six) in
    record {
      encoded = rw (ascii_ok (padded call) (padded-IsAscii call h));
      seven = omega (arith, length-append shifted (ssid_octet ssid last ∷ []), six);
      bytes =
          All-append IsByte shifted (ssid_octet ssid last ∷ [])
            (doubles-IsBytes (padded call) (padded-IsAscii call h)) (facts.0, tt);
      decoded =
          rw (take-append shifted (ssid_octet ssid last ∷ []) 6 (sym six), seventh)
            (λ i. record {
              call = (ap rstrip (halves-doubles (padded call)) ∙ rstrip-padded call) i;
              ssid = facts.1 i;
              last = odd_of last (ssid_octet ssid last) facts.2 i;
            });
    }
