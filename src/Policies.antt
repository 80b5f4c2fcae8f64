-- ===== src/Policies.antt =====
-- native_framing/policies.py: the plausibility of the callsigns of an AX.25 body.
use gs_flowgraphs.Base.{ℕ, zero, suc, ◌+◌, Bool, true, false, List, ◌&&◌, ◌||◌}
use gs_flowgraphs.Base.{leb, ltb, ◌==◌, if◌then◌else◌, length, get_or, ◌>>>◌}

-- The test on one character.
unfoldable pub is_callsign_char : ℕ → Bool
is_callsign_char char =
    (leb 0x41 char && leb char 0x5A) || ((leb 0x30 char && leb char 0x39) || char == 0x20)

-- The loop over `n` indices from `index` on.
unfoldable pub callsign_ok : List ℕ → ℕ → ℕ → Bool
callsign_ok body zero index = true
callsign_ok body (suc n) index =
    is_callsign_char (get_or body index 0 >>> 1) && callsign_ok body n (index + 1)

unfoldable pub valid_ax25_address : List ℕ → Bool
valid_ax25_address body =
    if ltb (length body) 15 then false else callsign_ok body 6 0 && callsign_ok body 6 7
