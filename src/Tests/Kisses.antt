-- ===== src/Tests/Kisses.antt =====
-- Concrete frames for kiss.py.
use gs_flowgraphs.Base.{ℕ, ◌≡◌, refl, true, false, List, [], ◌∷◌}
use gs_flowgraphs.Kiss.{escape, type_byte, Command, kiss_decode, kiss_decode_commands}
use gs_flowgraphs.Kiss.RoundTrip.{AreClear, stream, kiss_decode_commands-stream}
use gs_flowgraphs.Kiss.Kept.{kiss_decode-stream}

abbrev awkward : List ℕ
awkward = 0xC0 ∷ 0xDB ∷ 0xDC ∷ []

abbrev commands : List Command
commands =
    record { port = 0; command = 0; payload = awkward }
    ∷ record { port = 3; command = 6; payload = 1 ∷ 2 ∷ [] }
    ∷ []

commands-AreClear : AreClear commands
unfolding type_byte
commands-AreClear = (refl, (refl, tt))

escape_test : escape awkward ≡ 0xDB ∷ 0xDC ∷ 0xDB ∷ 0xDD ∷ 0xDC ∷ []
unfolding escape
escape_test = refl

kiss_decode_commands-stream_example :
    kiss_decode_commands (stream commands) false
    ≡ record { port = 0; command = 0; payload = awkward }
      ∷ record { port = 3; command = 6; payload = 1 ∷ 2 ∷ [] }
      ∷ []
kiss_decode_commands-stream_example = kiss_decode_commands-stream false commands commands-AreClear

kiss_decode-stream_example : kiss_decode (stream commands) true ≡ []
kiss_decode-stream_example = kiss_decode-stream true commands commands-AreClear
