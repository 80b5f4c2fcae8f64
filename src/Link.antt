-- ===== src/Link.antt =====
-- _uplink_frame.py, the framing of a payload, with the receivers of framing.py and
-- endurosat_link.py at the other end. The choice of the payload and the modem between the two
-- streams are not modelled.
use gs_flowgraphs.Base.{
  ℕ, ◌≤◌, ◌<◌, ◌≡◌, ap, ◌∙◌, ◌↔◌, ◌⊎◌, inl, inr, Bool, false, Option, some, List, [], ◌∷◌, map,
  arith,
}
use gs_flowgraphs.Base.{
  Result, ok, value_error, ◌>>=◌, ltb, ◌==◌, if◌then◌else◌, length, Bool-cases,
}
use gs_flowgraphs.Ax25.{Ui, encode_ui, decode_ui}
use gs_flowgraphs.Ax25.RoundTrip.{
  IsSendable, as_received, ui_body, encode_ui-eq, ui_body-IsBody, decode_ui-ui_body,
}
use gs_flowgraphs.Framing.{encode, decode}
use gs_flowgraphs.Framing.RoundTrip.{decode-encode}
use gs_flowgraphs.EnduroSat.{max_payload, frame_bits, frame_bytes}

pub data UplinkFraming : Type 0 where
  ax25 endurosat : UplinkFraming

abbrev pub ax25_info_max_bytes : ℕ
ax25_info_max_bytes = 77

-- `ax25.encode_ui` with its default SSIDs.
abbrev pub ui_of : List ℕ → List ℕ → List ℕ → Ui
ui_of dest src payload = record {
  dest = dest;
  src = src;
  info = payload;
  dest_ssid = 0;
  src_ssid = 0;
}

-- The bits of `build_uplink_frame` for a resolved payload, with the defaults of `framing.encode`
-- and `endurosat_link.frame_bits`; `PayloadRejected` is a `ValueError`.
pub build_uplink_frame : UplinkFraming → List ℕ → List ℕ → List ℕ → Bool → Bool → Result (List Bool)
build_uplink_frame endurosat dest src payload scramble nrzi =
    if ltb max_payload (length payload)
    then value_error
    else if length payload == 0
    then value_error
    else frame_bits payload 5
build_uplink_frame ax25 dest src payload scramble nrzi =
    if ltb ax25_info_max_bytes (length payload)
    then value_error
    else do body ← encode_ui (ui_of dest src payload); ok (encode body 16 2 scramble nrzi)

-- What the receiver of the AX.25 framing reads: the frames, each as a UI frame if it is one.
pub receive : List Bool → Bool → Bool → List (Option Ui)
receive bits scramble nrzi = map decode_ui (decode bits scramble nrzi)

encoded_ok :
    (dest src payload : List ℕ) (scramble nrzi : Bool)
    → IsSendable (ui_of dest src payload)
    → ltb ax25_info_max_bytes (length payload) ≡ false
    → build_uplink_frame ax25 dest src payload scramble nrzi
      ≡ ok (encode (ui_body (ui_of dest src payload)) 16 2 scramble nrzi)
unfolding build_uplink_frame
encoded_ok dest src payload scramble nrzi h fits =
    rw (fits, encode_ui-eq (ui_of dest src payload) h)

-- A payload of up to 77 octets with ASCII callsigns is framed as AX.25 without an error on any
-- line coding, and the receiver of the same line coding gets one UI frame with the whole payload.
pub receive-build_uplink_frame :
    (dest src payload : List ℕ) (scramble nrzi : Bool)
    → IsSendable (ui_of dest src payload)
    → length payload ≤ ax25_info_max_bytes
    → (bits : List Bool) × (build_uplink_frame ax25 dest src payload scramble nrzi ≡ ok bits)
      × (receive bits scramble nrzi ≡ some (as_received (ui_of dest src payload)) ∷ [])
unfolding receive
receive-build_uplink_frame dest src payload scramble nrzi h short =
    let ui = ui_of dest src payload in
    (
      encode (ui_body ui) 16 2 scramble nrzi,
      encoded_ok dest src payload scramble nrzi h (ground arith),
      ap (map decode_ui) (decode-encode (ui_body ui) 16 2 scramble nrzi (ui_body-IsBody ui h))
          ∙ ap (λ u. u ∷ []) (decode_ui-ui_body ui h),
    )

-- A payload is refused, never cut: with ASCII callsigns the AX.25 framing raises exactly for a
-- payload of more than 77 octets, and the EnduroSat framing exactly for one that is empty or has
-- more than 128.
pub build_uplink_frame_refuses :
    (dest src payload : List ℕ) (scramble nrzi : Bool)
    → IsSendable (ui_of dest src payload)
    → ((build_uplink_frame ax25 dest src payload scramble nrzi ≡ value_error)
        ↔ (ax25_info_max_bytes < length payload))
      × ((build_uplink_frame endurosat dest src payload scramble nrzi ≡ value_error)
          ↔ ((length payload ≡ 0) ⊎ (max_payload < length payload)))
build_uplink_frame_refuses dest src payload scramble nrzi h = (
  (too_long, λ long. unfold build_uplink_frame in ground arith),
  (no_packet, λ bad. unfold build_uplink_frame in ground arith),
)
  where
    too_long :
        build_uplink_frame ax25 dest src payload scramble nrzi ≡ value_error
        → ax25_info_max_bytes < length payload
    too_long e = elim (Bool-cases (ltb ax25_info_max_bytes (length payload))) [
      | inl long ↦ ground arith
      | inr fits ↦ let sent = encoded_ok dest src payload scramble nrzi h fits in absurd (cc)
    ]

    no_packet :
        build_uplink_frame endurosat dest src payload scramble nrzi ≡ value_error
        → (length payload ≡ 0) ⊎ (max_payload < length payload)
    no_packet e = unfold build_uplink_frame frame_bits frame_bytes in ground arith
