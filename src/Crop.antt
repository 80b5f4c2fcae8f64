-- ===== src/Crop.antt =====
-- native_framing/crop.py: packet lengths and bounded cropping. Arguments that the source refuses
-- for being negative have no `ℕ`.
use gs_flowgraphs.Base.{ℕ, ◌+◌, ◌-◌, Option, none, some, List, [], ◌∷◌, ◌||◌}
use gs_flowgraphs.Base.{Result, ok, value_error, ltb, leb, ◌==◌, if◌then◌else◌, length, take, drop}

-- `cc11xx_packet` once `maximum` is known to be positive.
unfoldable pub cc11xx_cut : ℕ → ℕ → List ℕ → Option (List ℕ)
cc11xx_cut crc_bytes maximum [] = none
cc11xx_cut crc_bytes maximum (size ∷ rest) =
    let packet_length = size + 1 + crc_bytes in
    if ltb maximum packet_length || ltb (length (size ∷ rest)) packet_length
    then none
    else some (take packet_length (size ∷ rest))

unfoldable pub cc11xx_packet : List ℕ → ℕ → ℕ → Result (Option (List ℕ))
cc11xx_packet packet crc_bytes maximum =
    if maximum == 0 then value_error else ok (cc11xx_cut crc_bytes maximum packet)

unfoldable pub head_tail : List ℕ → ℕ → ℕ → Option (List ℕ)
head_tail packet head tail =
    if ltb (length packet) (head + tail)
    then none
    else some (drop head (take (length packet - tail) packet))

unfoldable pub fixed : List ℕ → ℕ → ℕ → Result (Option (List ℕ))
fixed packet size maximum =
    if ltb maximum size
    then value_error
    else if leb size (length packet)
    then ok (some (take size packet))
    else ok none
