-- ===== src/Profiles/Accepted.antt =====
-- Packets that the wire decoders accept.
use gs_flowgraphs.Base.{
  ℕ, ◌+◌, ◌≤◌, ◌≡◌, refl, ap, sym, ◌∙◌, false, some, List, [], ◌∷◌, ◌++◌, arith,
}
use gs_flowgraphs.Base.{ok, ltb, length, drop, length-append, take-append}
use gs_flowgraphs.Crc.Catalog.{
  CrcSpec, Byteorder, big, post_init, byte_width, append, strip_checked, crc16_cc11xx,
}
use gs_flowgraphs.Crc.Catalog.RoundTrip.{append-strip_checked}
use gs_flowgraphs.LineCode.{pn9_loop}
use gs_flowgraphs.LineCode.Additive.{pn9_loop_twice}
use gs_flowgraphs.Crop.{cc11xx_cut, head_tail}
use gs_flowgraphs.Profiles.{
  plain, made_plain, and_then, decode_geoscan, decode_packet, wire_decoder, frame_size,
}

-- A whitened GEOSCAN frame is decoded to its payload.
pub decode_geoscan-append :
    (payload frame : List ℕ)
    → append crc16_cc11xx big payload ≡ ok frame
    → decode_geoscan (pn9_loop 0x1FF frame) ≡ some (plain payload)
unfolding decode_geoscan made_plain post_init
decode_geoscan-append payload frame h =
    ap (λ w. made_plain (strip_checked crc16_cc11xx big w)) (pn9_loop_twice 0x1FF frame)
    ∙ ap made_plain (append-strip_checked crc16_cc11xx refl big frame payload h).0

-- The octets of a CC11xx packet before its check: the length of the rest, two octets of header,
-- the payload and one octet behind it.
abbrev pub packet_of : ℕ → ℕ → List ℕ → ℕ → List ℕ
packet_of first second payload last = (length payload + 3) ∷ first ∷ second ∷ (payload ++ last ∷ [])

cut-append :
    (size : ℕ) (rest fill : List ℕ)
    → length (size ∷ rest) ≡ size + 3
    → size ≤ 255
    → cc11xx_cut 2 frame_size ((size ∷ rest) ++ fill) ≡ some (size ∷ rest)
unfolding cc11xx_cut
cut-append size rest fill whole fits =
    let small : ltb 258 (size + 1 + 2) ≡ false = ground arith in
    let there : ltb (length (size ∷ (rest ++ fill))) (size + 1 + 2) ≡ false =
      ground (arith, whole, length-append rest fill) in
    rw (small, there)
      (ap some (take-append (size ∷ rest) fill (size + 1 + 2) (omega (arith, whole))))

head_tail-packet_of :
    (first second : ℕ) (payload : List ℕ) (last : ℕ)
    → head_tail (packet_of first second payload last) 3 1 ≡ some payload
unfolding head_tail
head_tail-packet_of first second payload last =
    let size = length-append payload (last ∷ []) in
    let whole : ltb (length (packet_of first second payload last)) (3 + 1) ≡ false =
      ground (arith, size) in
    rw whole (
      ap (λ l. some (drop 3 l))
        (take-append ((length payload + 3) ∷ first ∷ second ∷ payload) (last ∷ []) _
          (omega (arith, size))))

module _ (spec : CrcSpec) (order : Byteorder) (valid : post_init spec ≡ ok spec)
    (two : byte_width spec ≡ 2) where
  -- Behind any 16-bit check, whitened, a CC11xx packet with at most 252 octets of payload is decoded
  -- to this payload, whatever octets fill the rest of the captured frame.
  pub wire_decoder-append :
      (first second : ℕ) (payload : List ℕ) (last : ℕ) (frame fill : List ℕ)
      → length payload ≤ 252
      → append spec order (packet_of first second payload last) ≡ ok frame
      → wire_decoder spec order (pn9_loop 0x1FF (frame ++ fill)) ≡ some (plain payload)
  unfolding wire_decoder decode_packet and_then made_plain
  wire_decoder-append first second payload last frame fill short h =
      let P = packet_of first second payload last in
      let taken = append-strip_checked spec valid order frame P h in
      let check = taken.1.0 in
      let cut : cc11xx_cut 2 frame_size (frame ++ fill) ≡ some (P ++ check) =
        ap (λ f. cc11xx_cut 2 frame_size (f ++ fill)) taken.1.1
        ∙ cut-append (length payload + 3) (first ∷ second ∷ ((payload ++ last ∷ []) ++ check)) fill
            (omega (
              arith,
              length-append (payload ++ last ∷ []) check,
              length-append payload (last ∷ []),
              taken.1.2,
              two,
            ))
            (omega arith) in
      let strip : strip_checked spec order (P ++ check) ≡ some P =
        ap (strip_checked spec order) (sym taken.1.1) ∙ taken.0 in
      ap (λ w. decode_packet spec order w) (pn9_loop_twice 0x1FF (frame ++ fill))
      ∙ ap
          (λ c.
            made_plain (and_then (and_then c (strip_checked spec order)) (λ w. head_tail w 3 1)))
          cut
      ∙ ap (λ c. made_plain (and_then c (λ w. head_tail w 3 1))) strip
      ∙ ap made_plain (head_tail-packet_of first second payload last)
