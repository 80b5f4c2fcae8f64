-- ===== src/Tests/Checks.antt =====
-- Concrete octets for the checks of fcs.py and crc.py, and their standard check values.
use gs_flowgraphs.Base.{ℕ, ◌≡◌, ◌≢◌, refl, ◌↔◌, some, List, [], ◌∷◌, ◌++◌, ok, odd, arith}
use gs_flowgraphs.Octets.{IsBytes}
use gs_flowgraphs.Crc.Fcs.{fcs}
use gs_flowgraphs.Crc.Fcs.Table.{fcs-eq-compute}
use gs_flowgraphs.Crc.Fcs.Detect.{fcs_single_octet}
use gs_flowgraphs.Crc.Ccitt.{crc16_ccitt_false}
use gs_flowgraphs.Crc.Ccitt.Bitwise.{crc16_ccitt_false-eq-compute}
use gs_flowgraphs.Crc.Catalog.{
  big, post_init, compute, append, strip_if_valid, crc16_x25, crc16_arc, differs, reflected_loop,
  straight_loop, repeat, shift_right, shift_left, reflect, reflect_loop,
}
use gs_flowgraphs.Crc.Catalog.RoundTrip.{strip_if_valid-append_iff}

-- b"123456789"
abbrev digits : List ℕ
digits = 0x31 ∷ 0x32 ∷ 0x33 ∷ 0x34 ∷ 0x35 ∷ 0x36 ∷ 0x37 ∷ 0x38 ∷ 0x39 ∷ []

digits-IsBytes : IsBytes digits
digits-IsBytes = (
  omega arith,
  (
    omega arith,
    (
      omega arith,
      (omega arith, (omega arith, (omega arith, (omega arith, (omega arith, (omega arith, tt)))))),
    ),
  ),
)

fcs_test : fcs digits ≡ 0x906E
unfolding compute differs reflected_loop repeat shift_right odd reflect reflect_loop
fcs_test = fcs-eq-compute digits digits-IsBytes

crc16_ccitt_false_test : crc16_ccitt_false digits 0xFFFF 0x1021 ≡ 0x29B1
unfolding compute differs straight_loop repeat shift_left
crc16_ccitt_false_test = crc16_ccitt_false-eq-compute 0x1021 (omega arith) 0xFFFF digits

crc16_arc_test : compute crc16_arc digits ≡ 0xBB3D
unfolding compute differs reflected_loop repeat shift_right odd reflect reflect_loop
crc16_arc_test = refl

abbrev few : List ℕ
few = 0x31 ∷ 0x32 ∷ []

few-IsBytes : IsBytes few
few-IsBytes = (omega arith, (omega arith, tt))

fcs-eq-compute_example : fcs few ≡ compute crc16_x25 few
fcs-eq-compute_example = fcs-eq-compute few few-IsBytes

fcs_single_octet_example : fcs (few ++ 7 ∷ few) ≢ fcs (few ++ 8 ∷ few)
fcs_single_octet_example =
    fcs_single_octet few few 7 8 few-IsBytes few-IsBytes (omega arith) (omega arith) (omega arith)

crc16_arc_valid : post_init crc16_arc ≡ ok crc16_arc
unfolding post_init
crc16_arc_valid = refl

strip_if_valid-append_iff_example :
    (strip_if_valid crc16_arc big (0x31 ∷ 0 ∷ 1 ∷ []) ≡ ok (some (0x31 ∷ [])))
    ↔ (append crc16_arc big (0x31 ∷ []) ≡ ok (0x31 ∷ 0 ∷ 1 ∷ []))
strip_if_valid-append_iff_example =
    strip_if_valid-append_iff crc16_arc crc16_arc_valid big (0x31 ∷ 0 ∷ 1 ∷ []) (0x31 ∷ [])
      (λ e. cc) (omega arith, (omega arith, (omega arith, tt)))
