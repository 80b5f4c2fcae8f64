-- ===== src/Tests/Frames.antt =====
-- Concrete frames for hdlc.py, framing.py, ax25.py, endurosat_link.py and _uplink_frame.py.
use gs_flowgraphs.Base.{
  ℕ, ◌≡◌, Bool, true, some, List, [], ◌∷◌, ◌++◌, ok, ◌↔◌, ◌⊎◌, ◌<◌, ◌≤◌, length, value_error,
  replicate, All-replicate, arith,
}
use gs_flowgraphs.Octets.{IsByte}
use gs_flowgraphs.Hdlc.{deframe_with_offsets}
use gs_flowgraphs.Hdlc.Segment.{IsBody}
use gs_flowgraphs.Hdlc.RoundTrip.{Sent, transmission, received, deframe-transmission}
use gs_flowgraphs.Framing.{encode, decode_with_offsets}
use gs_flowgraphs.Framing.RoundTrip.{decode_with_offsets-encode}
use gs_flowgraphs.Ax25.{Ui, encode_ui, decode_ui}
use gs_flowgraphs.Ax25.RoundTrip.{IsSendable, as_received, decode_ui-encode_ui}
use gs_flowgraphs.EnduroSat.{max_payload, frame_bits, deframe, body_of, read_packet}
use gs_flowgraphs.EnduroSat.Packet.{check_of, read_packet_iff}
use gs_flowgraphs.EnduroSat.RoundTrip.{deframe-frame_bits}
use gs_flowgraphs.Link.{
  ax25, endurosat, ax25_info_max_bytes, ui_of, build_uplink_frame, receive,
  receive-build_uplink_frame, build_uplink_frame_refuses,
}

abbrev beacon : List ℕ
beacon = replicate 16 0x7E

beacon-IsBody : IsBody beacon
beacon-IsBody = record { octets = All-replicate IsByte 16 0x7E (omega arith); long = omega arith }

abbrev two_frames : List Sent
two_frames =
    record { body = beacon; preamble_flags = 2; postamble_flags = 1 }
    ∷ record { body = beacon; preamble_flags = 0; postamble_flags = 3 }
    ∷ []

deframe-transmission_example :
    deframe_with_offsets (transmission two_frames) ≡ received 0 two_frames
deframe-transmission_example = deframe-transmission two_frames (beacon-IsBody, (beacon-IsBody, tt))

decode_with_offsets-encode_example :
    decode_with_offsets (encode beacon 4 2 true true) true true
    ≡ record { body = beacon; offset = 24 } ∷ []
decode_with_offsets-encode_example = decode_with_offsets-encode beacon 4 2 true true beacon-IsBody

-- "cq", "DSN-17" and two octets.
abbrev hello : Ui
hello = record {
  dest = 0x63 ∷ 0x71 ∷ [];
  src = 0x44 ∷ 0x53 ∷ 0x4E ∷ [];
  info = 0x7E ∷ 0xFF ∷ [];
  dest_ssid = 0;
  src_ssid = 17;
}

hello-IsSendable : IsSendable hello
hello-IsSendable = record {
  dest = (omega arith, (omega arith, tt));
  src = (omega arith, (omega arith, (omega arith, tt)));
  info = (omega arith, (omega arith, tt));
}

decode_ui-encode_ui_example :
    (body : List ℕ) × (encode_ui hello ≡ ok body) × (decode_ui body ≡ some (as_received hello))
decode_ui-encode_ui_example = decode_ui-encode_ui hello hello-IsSendable

abbrev command : List ℕ
command = 0x7E ∷ 0xFF ∷ []

command-IsSendable : IsSendable (ui_of (0x43 ∷ 0x51 ∷ []) (0x44 ∷ []) command)
command-IsSendable = record {
  dest = (omega arith, (omega arith, tt));
  src = (omega arith, tt);
  info = (omega arith, (omega arith, tt));
}

receive-build_uplink_frame_example :
    (bits : List Bool) × (build_uplink_frame ax25 (0x43 ∷ 0x51 ∷ []) (0x44 ∷ []) command true true
      ≡ ok bits)
    × (receive bits true true
        ≡ some (as_received (ui_of (0x43 ∷ 0x51 ∷ []) (0x44 ∷ []) command)) ∷ [])
receive-build_uplink_frame_example =
    receive-build_uplink_frame (0x43 ∷ 0x51 ∷ []) (0x44 ∷ []) command true true command-IsSendable
      (omega arith)

build_uplink_frame_refuses_example :
    ((build_uplink_frame ax25 (0x43 ∷ 0x51 ∷ []) (0x44 ∷ []) command true true ≡ value_error)
      ↔ (ax25_info_max_bytes < length command))
    × ((build_uplink_frame endurosat (0x43 ∷ 0x51 ∷ []) (0x44 ∷ []) command true true ≡ value_error)
        ↔ ((length command ≡ 0) ⊎ (max_payload < length command)))
build_uplink_frame_refuses_example =
    build_uplink_frame_refuses (0x43 ∷ 0x51 ∷ []) (0x44 ∷ []) command true true command-IsSendable

deframe-frame_bits_example :
    (bits : List Bool) × (frame_bits command 5 ≡ ok bits)
    × ((others : List (List ℕ)) × (deframe (bits ++ true ∷ []) ≡ command ∷ others))
deframe-frame_bits_example =
    deframe-frame_bits command 5 (true ∷ []) (omega arith, (omega arith, tt)) (omega arith)
      (omega arith) (omega arith)

read_packet_iff_example : (read_packet (1 ∷ 7 ∷ 0 ∷ 0 ∷ []) ≡ (7 ∷ []) ∷ []) ↔ (
    (1 ≤ 1)
    × (1 ≤ max_payload)
    × ((rest : List ℕ) × (1 ∷ 7 ∷ 0 ∷ 0 ∷ [] ≡ body_of (7 ∷ []) ++ (check_of (7 ∷ []) ++ rest))))
read_packet_iff_example = read_packet_iff (1 ∷ 7 ∷ 0 ∷ 0 ∷ []) (7 ∷ [])
