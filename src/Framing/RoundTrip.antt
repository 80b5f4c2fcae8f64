-- ===== src/Framing/RoundTrip.antt =====
-- Decoding undoes encoding, for each setting of the scrambler and of NRZI.
use gs_flowgraphs.Base.{
  ℕ, ◌+◌, ◌-◌, ◌*◌, ◌≡◌, refl, ap, sym, ◌∙◌, Bool, true, false, List, [], ◌∷◌, map, max, append-nil,
  arith,
}
use gs_flowgraphs.Hdlc.{frame, deframe_with_offsets}
use gs_flowgraphs.Hdlc.Segment.{IsBody}
use gs_flowgraphs.Hdlc.RoundTrip.{deframe-transmission}
use gs_flowgraphs.G3ruh.Inverse.{nrzi_decode-nrzi_encode, descramble-scramble}
use gs_flowgraphs.Framing.{encode, decode_with_offsets, decode}

deframe-frame :
    (body : List ℕ) (preamble postamble : ℕ)
    → IsBody body
    → deframe_with_offsets (frame body preamble postamble)
      ≡ record { body = body; offset = 8 * (max 1 preamble - 1) } ∷ []
deframe-frame body preamble postamble ok =
    ap deframe_with_offsets (sym (append-nil (frame body preamble postamble)))
    ∙ deframe-transmission
        (record { body = body; preamble_flags = preamble; postamble_flags = postamble } ∷ [])
        (ok, tt)
    ∙ ap (λ o. record { body = body; offset = o } ∷ []) {x = 0 + 8 * (max 1 preamble - 1)}
        (omega arith)

line_code :
    (body : List ℕ) (preamble postamble : ℕ) (scramble nrzi : Bool)
    → decode_with_offsets (encode body preamble postamble scramble nrzi) scramble nrzi
      ≡ deframe_with_offsets (frame body preamble postamble)
unfolding encode decode_with_offsets
line_code body preamble postamble true true = rw (descramble-scramble, nrzi_decode-nrzi_encode)
line_code body preamble postamble true false = rw descramble-scramble
line_code body preamble postamble false true = rw nrzi_decode-nrzi_encode
line_code body preamble postamble false false = refl

-- For each setting of the scrambler and of NRZI, with any numbers of flags, decoding the stream
-- that one body of at least 16 octets was encoded to gives this body alone, at the index of the
-- last flag of the preamble.
pub decode_with_offsets-encode :
    (body : List ℕ) (preamble postamble : ℕ) (scramble nrzi : Bool)
    → IsBody body
    → decode_with_offsets (encode body preamble postamble scramble nrzi) scramble nrzi
      ≡ record { body = body; offset = 8 * (max 1 preamble - 1) } ∷ []
decode_with_offsets-encode body preamble postamble scramble nrzi ok =
    line_code body preamble postamble scramble nrzi ∙ deframe-frame body preamble postamble ok

pub decode-encode :
    (body : List ℕ) (preamble postamble : ℕ) (scramble nrzi : Bool)
    → IsBody body
    → decode (encode body preamble postamble scramble nrzi) scramble nrzi ≡ body ∷ []
unfolding decode
decode-encode body preamble postamble scramble nrzi ok =
    ap (map (λ f. f.body)) (decode_with_offsets-encode body preamble postamble scramble nrzi ok)
