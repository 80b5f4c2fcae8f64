-- ===== src/Stubs.antt =====
-- stub_tx.py, `amain`, as a state machine: the commands that it reads and the wake-ups of its
-- periodic task, which fall between two commands, are its inputs, and the status events are what it
-- gives. `read_bytes` and `st_size` stand for the files, `none` where they raise `OSError`,
-- `sha256` for the digest and `duration` for the rounded quotient of samples and rate. The
-- arguments are those of the command line.
pub mod Order
use gs_flowgraphs.Base.{
  ℕ, zero, suc, ◌+◌, max, Bool, true, false, Option, none, some, List, [], ◌∷◌, ◌++◌, length,
  if◌then◌else◌,
}

-- The commands; a path is a string that is not empty.
pub data Command (F P : Type 0) : Type 0 where
  start stop other : Command F P
  prepare_transmit transmit_frame : F → Option P → Command F P

pub data Input (F P : Type 0) : Type 0 where
  command : Command F P → Input F P
  wake_up : Input F P

pub data FailureCode : Type 0 where
  payload_unreadable no_payload : FailureCode

pub data Event (F D R : Type 0) : Type 0 where
  started transmit_started stopped : Event F D R
  stub_complete periodic_complete : ℕ → Event F D R
  transmit_complete : F → ℕ → ℕ → Event F D R
  tx_prepared : F → ℕ → ℕ → D → ℕ → R → Event F D R
  tx_prepare_failed : F → FailureCode → Event F D R

-- `next_frame` is the index of the periodic task, while it runs.
pub record StubTx (F D : Type 0) : Type 0 where
  pub started : Bool
  pub next_frame : Option ℕ
  pub staged : List (F × ℕ × D)

-- After an input: the state, the events, and whether `amain` goes on.
pub record Handled (F D R : Type 0) : Type 0 where
  pub state : StubTx F D
  pub events : List (Event F D R)
  pub alive : Bool

unfoldable pub size_or_zero : Option ℕ → ℕ
size_or_zero none = 0
size_or_zero (some size) = size

-- The octets of the payload file of `transmit_frame`.
unfoldable pub bytes_transmitted : {P : Type 0} → (P → Option ℕ) → Option P → ℕ
bytes_transmitted st_size none = 0
bytes_transmitted st_size (some payload_file) = size_or_zero (st_size payload_file)

unfoldable pub fresh : {F D : Type 0} → StubTx F D
fresh = record { started = false; next_frame = none; staged = [] }

-- The events of the first frames, from index `i`.
unfoldable pub first_frames : {F D R : Type 0} → ℕ → ℕ → List (Event F D R)
first_frames zero i = []
first_frames (suc left) i = stub_complete i ∷ first_frames left (i + 1)

module _ {F P D R : Type 0} (read_bytes : P → Option (List ℕ)) (st_size : P → Option ℕ)
    (sha256 : List ℕ → D) (duration : ℕ → ℕ → R) (sample_rate frames_to_tx : ℕ)
    (periodic : Bool) where
  unfoldable pub on_start : StubTx F D → Handled F D R
  on_start s = if s.started then record { state = s; events = []; alive = true } else record {
    state = record s { started = true; next_frame = if periodic then some 0 else none };
    events = started ∷ transmit_started ∷ first_frames frames_to_tx 0;
    alive = true;
  }

  unfoldable pub prepared : F → Option (List ℕ) → StubTx F D → Handled F D R
  prepared fid none s = record {
    state = s;
    events = tx_prepare_failed fid payload_unreadable ∷ [];
    alive = true;
  }
  prepared fid (some payload) s =
      let n_samples = max 1 (length payload) in
      record {
        state = record s { staged = (fid, length payload, sha256 payload) ∷ s.staged };
        events =
            tx_prepared fid n_samples (length payload) (sha256 payload) sample_rate
              (duration n_samples (max 1 sample_rate))
            ∷ [];
        alive = true;
      }

  unfoldable pub on_prepare : F → Option P → StubTx F D → Handled F D R
  on_prepare fid none s = record {
    state = s;
    events = tx_prepare_failed fid no_payload ∷ [];
    alive = true;
  }
  on_prepare fid (some payload_file) s = prepared fid (read_bytes payload_file) s

  unfoldable pub on_transmit : F → Option P → StubTx F D → Handled F D R
  on_transmit fid payload_file s =
      let sent = bytes_transmitted st_size payload_file in
      record {
        state = s;
        events = transmit_started ∷ transmit_complete fid sent (max 1 sent) ∷ [];
        alive = true;
      }

  unfoldable pub on_command : Command F P → StubTx F D → Handled F D R
  on_command start s = on_start s
  on_command stop s = record {
    state = record s { next_frame = none };
    events = stopped ∷ [];
    alive = false;
  }
  on_command other s = record { state = s; events = []; alive = true }
  on_command (prepare_transmit fid payload_file) s = on_prepare fid payload_file s
  on_command (transmit_frame fid payload_file) s = on_transmit fid payload_file s

  -- The task sends an event and sleeps again; without a task there is no wake-up.
  unfoldable pub on_wake_up : Option ℕ → StubTx F D → Handled F D R
  on_wake_up none s = record { state = s; events = []; alive = true }
  on_wake_up (some i) s = record {
    state = record s { next_frame = some (i + 1) };
    events = periodic_complete i ∷ [];
    alive = true;
  }

  unfoldable pub on_input : Input F P → StubTx F D → Handled F D R
  on_input (command c) s = on_command c s
  on_input wake_up s = on_wake_up s.next_frame s

  -- The events of a run, up to the stop or the end of the control stream.
  unfoldable pub run_stub : List (Input F P) → StubTx F D → List (Event F D R)
  run_stub [] s = []
  run_stub (input ∷ inputs) s =
      let turn = on_input input s in
      turn.events ++ (if turn.alive then run_stub inputs turn.state else [])
