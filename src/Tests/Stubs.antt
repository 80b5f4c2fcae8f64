-- ===== src/Tests/Stubs.antt =====
-- A run of the stub of stub_tx.py with one frame at its start and with the periodic task.
use gs_flowgraphs.Base.{
  ℕ, true, false, Option, none, some, List, [], ◌∷◌, ◌≡◌, refl, length, ◌==◌, if◌then◌else◌,
}
use gs_flowgraphs.Stubs.{
  start, stop, prepare_transmit, transmit_frame, Input, command, wake_up, Event, started,
  transmit_started, stopped, stub_complete, periodic_complete, transmit_complete, tx_prepared,
  fresh, first_frames, prepared, on_start, on_prepare, on_transmit, on_command, on_wake_up,
  on_input, run_stub, bytes_transmitted, size_or_zero,
}
use gs_flowgraphs.Stubs.Order.{InOrder, run_stub-InOrder}

-- File 3 has two octets, and no other file can be read.
abbrev read_bytes : ℕ → Option (List ℕ)
read_bytes p = if p == 3 then some (65 ∷ 66 ∷ []) else none

abbrev st_size : ℕ → Option ℕ
st_size p = if p == 3 then some 2 else none

abbrev duration : ℕ → ℕ → ℕ × ℕ
duration n rate = (n, rate)

abbrev inputs : List (Input ℕ ℕ)
inputs =
    command (prepare_transmit 7 (some 3))
    ∷ wake_up
    ∷ command start
    ∷ wake_up
    ∷ command (transmit_frame 7 (some 3))
    ∷ command stop
    ∷ command start
    ∷ []

abbrev events : List (Event ℕ ℕ (ℕ × ℕ))
events = run_stub read_bytes st_size length duration 48000 1 true inputs fresh

events-value :
    events
    ≡ tx_prepared 7 2 2 2 48000 (2, 48000)
      ∷ started
      ∷ transmit_started
      ∷ stub_complete 0
      ∷ periodic_complete 0
      ∷ transmit_started
      ∷ transmit_complete 7 2 2
      ∷ stopped
      ∷ []
unfolding run_stub on_input on_command on_start on_prepare prepared on_transmit on_wake_up fresh
    first_frames bytes_transmitted size_or_zero
events-value = refl

run_stub-InOrder_example : InOrder false false events
run_stub-InOrder_example = run_stub-InOrder read_bytes st_size length duration 48000 1 true inputs
