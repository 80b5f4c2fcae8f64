-- ===== src/Fixed.antt =====
-- native_framing/fixed.py, `FixedSyncFrameDecoder`: the collector of frames of a fixed number of
-- octets after a sync word. The decoder of the wire octets is the parameter `decode_wire`; the
-- name of the framing and the metadata of a frame are left out.
pub mod Pending
pub mod Capture
pub mod Reference
pub mod Refinement
pub mod Stream
use gs_flowgraphs.Base.{
  ℕ, zero, suc, ◌+◌, ◌-◌, ◌*◌, Bool, true, false, Option, some, none, List, [], ◌∷◌, ◌++◌, ◌||◌,
  map, min, not,
}
use gs_flowgraphs.Base.{
  Result, ok, value_error, ◌>>=◌, ltb, leb, ◌==◌, if◌then◌else◌, length, take, drop,
}
use gs_flowgraphs.Octets.{pack_msb}
use gs_flowgraphs.Sync
use gs_flowgraphs.Sync.{
  Polarity, normal, inverted, ambiguous, SyncMatch, StreamingSync, streaming_sync,
}

pub data IntegrityStatus : Type 0 where
  passed failed not_present not_checked : IntegrityStatus

pub record DecodedFixedFrame : Type 0 where
  pub payload : List ℕ
  pub integrity : IntegrityStatus
  pub corrected_symbols : Option ℕ

pub record PendingFrame : Type 0 where
  pub sync_start : ℕ
  pub capture_start : ℕ
  pub capture_end : ℕ
  pub sync_distance : ℕ
  pub polarity : Polarity

pub record FrameResult : Type 0 where
  pub payload : List ℕ
  pub integrity : IntegrityStatus
  pub source_start : ℕ
  pub source_end : ℕ
  pub polarity : Polarity
  pub sync_distance : ℕ
  pub corrected_symbols : Option ℕ

-- What a method returns: its value, or the `RuntimeError` of a broken bound.
pub data Ran (A : Type 0) : Type 0 where
  done : A → Ran A
  runtime_error : Ran A

pub record FixedSyncFrameDecoder : Type 0 where
  pub frame_bits : ℕ
  pub syncword_length : ℕ
  pub sync : StreamingSync
  pub buffer : List Bool
  pub buffer_base : ℕ
  pub total_seen : ℕ
  pub pending : List PendingFrame

unfoldable pub fixed_sync_frame_decoder : List Bool → ℕ → ℕ → Result FixedSyncFrameDecoder
fixed_sync_frame_decoder syncword frame_size sync_threshold =
    if frame_size == 0 then value_error else do
      sync ← streaming_sync syncword sync_threshold true
      ok (record {
        frame_bits = frame_size * 8;
        syncword_length = length syncword;
        sync = sync;
        buffer = [];
        buffer_base = 0;
        total_seen = 0;
        pending = [];
      })

abbrev pub retained_symbols : FixedSyncFrameDecoder → ℕ
retained_symbols d = length d.buffer + length d.sync.tail

abbrev pub max_retained_symbols : FixedSyncFrameDecoder → ℕ
max_retained_symbols d = d.frame_bits + d.syncword_length - 1

pub pending_from_match : ℕ → SyncMatch → PendingFrame
pending_from_match frame_bits m = record {
  sync_start = m.source_start;
  capture_start = m.source_end;
  capture_end = m.source_end + frame_bits;
  sync_distance = m.distance;
  polarity = m.polarity;
}

-- The smallest start of a capture, `p` being the first.
pub keep_from : PendingFrame → List PendingFrame → ℕ
keep_from p [] = p.capture_start
keep_from p (q ∷ ps) = min p.capture_start (keep_from q ps)

pub trimmed : FixedSyncFrameDecoder → List PendingFrame → FixedSyncFrameDecoder
trimmed d [] = record d { buffer_base = d.total_seen; buffer = [] }
trimmed d (p ∷ ps) =
    let keep = keep_from p ps in
    if ltb d.buffer_base keep
    then record d { buffer = drop (keep - d.buffer_base) d.buffer; buffer_base = keep }
    else d

pub trim_buffer : FixedSyncFrameDecoder → FixedSyncFrameDecoder
trim_buffer d = trimmed d d.pending

-- A result put in front of those of the frames behind it.
pub add_results :
    Ran (List FrameResult)
    → Ran (List FrameResult × List PendingFrame)
    → Ran (List FrameResult × List PendingFrame)
add_results runtime_error rest = runtime_error
add_results (done here) runtime_error = runtime_error
add_results (done here) (done (results, waiting)) = done (here ++ results, waiting)

pub add_waiting :
    PendingFrame
    → Ran (List FrameResult × List PendingFrame)
    → Ran (List FrameResult × List PendingFrame)
add_waiting p runtime_error = runtime_error
add_waiting p (done (results, waiting)) = done (results, p ∷ waiting)

module _ (decode_wire : List ℕ → Option DecodedFixedFrame) where
  pub result_of : PendingFrame → Option DecodedFixedFrame → List FrameResult
  result_of p none = []
  result_of p (some decoded) =
      record {
        payload = decoded.payload;
        integrity = decoded.integrity;
        source_start = p.sync_start;
        source_end = p.capture_end;
        polarity = p.polarity;
        sync_distance = p.sync_distance;
        corrected_symbols = decoded.corrected_symbols;
      }
      ∷ []

  -- The captured bits, by the polarity of their sync.
  pub decode_bits : PendingFrame → Polarity → List Bool → List FrameResult
  decode_bits p normal bits = result_of p (decode_wire (pack_msb bits))
  decode_bits p inverted bits = result_of p (decode_wire (pack_msb (map not bits)))
  decode_bits p ambiguous bits = []

  pub decode : FixedSyncFrameDecoder → PendingFrame → Ran (List FrameResult)
  decode d p =
      let start = p.capture_start - d.buffer_base in
      let end = p.capture_end - d.buffer_base in
      if ltb p.capture_start d.buffer_base || ltb (d.buffer_base + length d.buffer) p.capture_end
      then runtime_error
      else done (decode_bits p p.polarity (take (end - start) (drop start d.buffer)))

  -- The loop over the pending frames.
  pub collect :
      FixedSyncFrameDecoder → List PendingFrame → Ran (List FrameResult × List PendingFrame)
  collect d [] = done ([], [])
  collect d (p ∷ ps) =
      let rest = collect d ps in
      if ltb d.total_seen p.capture_end then add_waiting p rest else add_results (decode d p) rest

  -- The end of `push`: trim the buffer, and check the bound.
  pub settle :
      FixedSyncFrameDecoder
      → Ran (List FrameResult × List PendingFrame)
      → Ran (FixedSyncFrameDecoder × List FrameResult)
  settle d runtime_error = runtime_error
  settle d (done (output, waiting)) =
      let settled = trim_buffer (record d { pending = waiting }) in
      if ltb (max_retained_symbols settled) (retained_symbols settled)
      then runtime_error
      else done (settled, output)

  pub push : FixedSyncFrameDecoder → List Bool → Ran (FixedSyncFrameDecoder × List FrameResult)
  push d hard =
      let synced = Sync.push d.sync hard in
      let received = record d {
        sync = synced.0;
        buffer = d.buffer ++ hard;
        buffer_base = if length d.buffer == 0 then d.total_seen else d.buffer_base;
        total_seen = d.total_seen + length hard;
        pending = d.pending ++ map (pending_from_match d.frame_bits) synced.1;
      } in
      settle received (collect received received.pending)

pub flush : FixedSyncFrameDecoder → FixedSyncFrameDecoder
flush d = record d {
  sync = Sync.flush d.sync;
  pending = [];
  buffer = [];
  buffer_base = d.total_seen;
}
