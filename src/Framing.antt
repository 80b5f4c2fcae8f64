-- ===== src/Framing.antt =====
-- gfsk_ax25/framing.py: the link layer that both engines share, from frame bodies to the serial
-- stream and back. The registers start at the defaults of g3ruh.py.
pub mod RoundTrip
use gs_flowgraphs.Base.{ℕ, Bool, List, map, if◌then◌else◌}
use gs_flowgraphs.Hdlc
use gs_flowgraphs.Hdlc.{Deframed}
use gs_flowgraphs.G3ruh

unfoldable pub encode : List ℕ → ℕ → ℕ → Bool → Bool → List Bool
encode body preamble_flags postamble_flags scramble nrzi =
    let bits = Hdlc.frame body preamble_flags postamble_flags in
    let coded = if nrzi then G3ruh.nrzi_encode bits 1 else bits in
    if scramble then G3ruh.scramble coded 0 else coded

unfoldable pub decode_with_offsets : List Bool → Bool → Bool → List Deframed
decode_with_offsets bits scramble nrzi =
    let plain = if scramble then G3ruh.descramble bits 0 else bits in
    let out = if nrzi then G3ruh.nrzi_decode plain 1 else plain in Hdlc.deframe_with_offsets out

unfoldable pub decode : List Bool → Bool → Bool → List (List ℕ)
decode bits scramble nrzi = map (λ f. f.body) (decode_with_offsets bits scramble nrzi)
