-- ===== src/Kiss/Kept.antt =====
-- Which payloads `kiss_decode` and `slip_decode` let through, in both modes.
use gs_flowgraphs.Base.{
  ℕ, ◌%◌, ◌<◌, ◌≡◌, refl, ap, ap₂, ◌∙◌, Bool, true, false, some, List, [], ◌∷◌, ◌++◌, ◌&&◌, ◌||◌,
  not, bit_and, arith, map,
}
use gs_flowgraphs.Base.{◌==◌, if◌then◌else◌, All, length, ltb, leb, and_mask}
use gs_flowgraphs.Kiss.{
  escape, unescape, type_byte, chunks_of, is_constant, keep_payload, keep, kiss_chunk, each,
  kiss_decode, Command, slip_encode, slip_chunk, slip_decode, strict_min_payload,
  slip_strict_min_payload,
}
use gs_flowgraphs.Kiss.Escape.{IsFree, specials, escape-IsFree, unescape-escape}
use gs_flowgraphs.Kiss.RoundTrip.{
  type_byte-eq, AreClear, content_of, stream, stream-wire, contents-IsFree, each-chunks_of, wire,
  wrapped,
}

-- A payload passes if it is not empty and, in strict mode, it has the least length and either
-- holds an escaped octet or two different octets.
abbrev pub passes : ℕ → Bool → List ℕ → Bool
passes minimum strict payload =
    not (length payload == 0)
    && (not strict
        || (leb minimum (length payload)
            && (ltb 0 (specials payload) || not (is_constant payload))))

abbrev pub surviving : (List ℕ → Bool) → List (List ℕ) → List (List ℕ)
surviving p [] = []
surviving p (frame ∷ frames) = if p frame then frame ∷ surviving p frames else surviving p frames

abbrev pub one_if : Bool → List ℕ → List (List ℕ)
one_if b payload = if b then payload ∷ [] else []

keep-passes :
    (minimum : ℕ) (strict : Bool) (payload : List ℕ)
    → keep minimum strict (record { payload = some payload; escapes = specials payload })
      ≡ one_if (passes minimum strict payload) payload
unfolding keep keep_payload
keep-passes minimum strict payload = ground arith

-- In strict mode the command must be that of a data frame.
abbrev pub is_data : Bool → Command → Bool
is_data strict c = not strict || (c.command % 16 == 0)

kiss_chunk-content :
    (strict : Bool) (c : Command)
    → kiss_chunk strict (content_of c)
      ≡ one_if (is_data strict c && passes strict_min_payload strict c.payload) c.payload
unfolding kiss_chunk
kiss_chunk-content strict c =
    let command : bit_and (type_byte c.command c.port) 0x0F ≡ c.command % 16 =
      and_mask 4 (type_byte c.command c.port) ∙ omega (arith, type_byte-eq c.command c.port) in
    rw (command, unescape-escape strict c.payload, keep-passes strict_min_payload strict c.payload)
      (ground arith)

-- The payloads of the data frames that pass, in order.
abbrev pub passing : Bool → List Command → List (List ℕ)
passing strict [] = []
passing strict (c ∷ cs) =
    if is_data strict c && passes strict_min_payload strict c.payload
    then c.payload ∷ passing strict cs
    else passing strict cs

one_if-append :
    (b : Bool) (payload : List ℕ) (l : List (List ℕ))
    → one_if b payload ++ l ≡ (if b then payload ∷ l else l)
one_if-append true payload l = refl
one_if-append false payload l = refl

each-contents :
    (strict : Bool) (cs : List Command)
    → each (kiss_chunk strict) (map content_of cs) ≡ passing strict cs
unfolding each
each-contents strict [] = refl
each-contents strict (c ∷ cs) =
    ap₂ ◌++◌ (kiss_chunk-content strict c) (each-contents strict cs)
    ∙ one_if-append (is_data strict c && passes strict_min_payload strict c.payload) c.payload
        (passing strict cs)

kiss_chunk-nil : (strict : Bool) → kiss_chunk strict [] ≡ []
unfolding kiss_chunk
kiss_chunk-nil strict = refl

-- From a stream of any frames whose type bytes are not the delimiter, `kiss_decode` gives in
-- order: without the strict mode the payloads that are not empty; in strict mode, of the frames
-- with command 0, the payloads of 8 octets or more that are not constant or hold an escaped octet.
pub kiss_decode-stream :
    (strict : Bool) (cs : List Command)
    → AreClear cs
    → kiss_decode (stream cs) strict ≡ passing strict cs
unfolding kiss_decode
kiss_decode-stream strict cs h =
    ap (λ s. each (kiss_chunk strict) (chunks_of s strict)) (stream-wire cs)
    ∙ each-chunks_of (kiss_chunk strict) (kiss_chunk-nil strict) strict (map content_of cs)
        (contents-IsFree cs h)
    ∙ each-contents strict cs

slip_chunk-escape :
    (strict : Bool) (frame : List ℕ)
    → slip_chunk strict (escape frame) ≡ one_if (passes slip_strict_min_payload strict frame) frame
slip_chunk-escape strict [] = unfold slip_chunk escape in refl
slip_chunk-escape strict (b ∷ frame) =
    some_chunk (escape (b ∷ frame)) (starts b frame)
    ∙ ap (keep slip_strict_min_payload strict) (unescape-escape strict (b ∷ frame))
    ∙ keep-passes slip_strict_min_payload strict (b ∷ frame)
  where
    some_chunk :
        (chunk : List ℕ)
        → 0 < length chunk
        → slip_chunk strict chunk ≡ keep slip_strict_min_payload strict (unescape chunk strict)
    some_chunk [] h = absurd (omega arith)
    some_chunk (c ∷ chunk) h = unfold slip_chunk in refl

    starts : (c : ℕ) (l : List ℕ) → 0 < length (escape (c ∷ l))
    starts c l = unfold escape in ground arith

abbrev pub slip_stream : List (List ℕ) → List ℕ
slip_stream [] = []
slip_stream (frame ∷ frames) = slip_encode frame ++ slip_stream frames

slip_stream-wire : (frames : List (List ℕ)) → slip_stream frames ≡ wire (map escape frames)
unfolding slip_encode
slip_stream-wire [] = refl
slip_stream-wire (frame ∷ frames) = ap (◌++◌ (wrapped (escape frame))) (slip_stream-wire frames)

escapes-IsFree : (frames : List (List ℕ)) → All IsFree (map escape frames)
escapes-IsFree [] = tt
escapes-IsFree (frame ∷ frames) = (escape-IsFree frame, escapes-IsFree frames)

each-escapes :
    (strict : Bool) (frames : List (List ℕ))
    → each (slip_chunk strict) (map escape frames)
      ≡ surviving (passes slip_strict_min_payload strict) frames
unfolding each
each-escapes strict [] = refl
each-escapes strict (frame ∷ frames) =
    ap₂ ◌++◌ (slip_chunk-escape strict frame) (each-escapes strict frames)
    ∙ one_if-append (passes slip_strict_min_payload strict frame) frame _

-- From a stream of any SLIP frames, `slip_decode` gives in order: without the strict mode the
-- frames that are not empty; in strict mode those of 16 octets or more that are not constant or
-- hold an escaped octet.
pub slip_decode-stream :
    (strict : Bool) (frames : List (List ℕ))
    → slip_decode (slip_stream frames) strict
      ≡ surviving (passes slip_strict_min_payload strict) frames
unfolding slip_decode
slip_decode-stream strict frames =
    ap (λ s. each (slip_chunk strict) (chunks_of s strict)) (slip_stream-wire frames)
    ∙ each-chunks_of (slip_chunk strict) (unfold slip_chunk in refl) strict (map escape frames)
        (escapes-IsFree frames)
    ∙ each-escapes strict frames
