-- ===== src/Tests/LineCode.antt =====
-- Concrete streams for hdlc.py and g3ruh.py.
use gs_flowgraphs.Base.{◌≡◌, Bool, true, false, List, [], ◌∷◌, drop, arith}
use gs_flowgraphs.Octets.{bytes_to_bits, pack_msb, unpack_msb, pack_msb-unpack_msb}
use gs_flowgraphs.G3ruh.{scramble, descramble}
use gs_flowgraphs.G3ruh.Inverse.{descramble_self_sync}

abbrev ones : List Bool
ones = true ∷ true ∷ true ∷ true ∷ true ∷ true ∷ false ∷ true ∷ []

abbrev long_stream : List Bool
long_stream = bytes_to_bits (0x7E ∷ 0xFF ∷ 0x35 ∷ [])

pack_msb-unpack_msb_example : pack_msb (unpack_msb (0x7E ∷ 0x1F ∷ [])) ≡ 0x7E ∷ 0x1F ∷ []
pack_msb-unpack_msb_example =
    pack_msb-unpack_msb (0x7E ∷ 0x1F ∷ []) (omega arith, (omega arith, tt))

descramble_self_sync_example :
    drop 17 (descramble (scramble long_stream 0x15555) 0) ≡ drop 17 long_stream
descramble_self_sync_example = descramble_self_sync long_stream 0x15555 0
