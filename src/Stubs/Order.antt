-- ===== src/Stubs/Order.antt =====
-- The order of the status events of stub_tx.py.
use gs_flowgraphs.Base.{
  ℕ, zero, suc, ◌+◌, Bool, true, false, Option, none, some, List, [], ◌∷◌, ◌++◌, ◌≡◌, refl,
  if◌then◌else◌,
}
use gs_flowgraphs.Stubs.{
  start, stop, other, prepare_transmit, transmit_frame, Input, command, wake_up, Event, started,
  transmit_started, stopped, stub_complete, periodic_complete, transmit_complete, tx_prepared,
  tx_prepare_failed, StubTx, Handled, fresh, first_frames, on_start, prepared, on_prepare,
  on_transmit, on_command, on_wake_up, on_input, run_stub,
}

-- The events in order: `s` tells that `started` has been sent, and `t` that `transmit_started` has.
abbrev pub InOrder : {F D R : Type 0} → Bool → Bool → List (Event F D R) → Type 0
InOrder s t [] = Unit
InOrder s t (started ∷ es) = (s ≡ false) × InOrder true t es
InOrder s t (transmit_started ∷ es) = InOrder s true es
InOrder s t (stopped ∷ es) = es ≡ []
InOrder s t (stub_complete i ∷ es) = (t ≡ true) × InOrder s t es
InOrder s t (periodic_complete i ∷ es) = (t ≡ true) × InOrder s t es
InOrder s t (transmit_complete f n k ∷ es) = (t ≡ true) × InOrder s t es
InOrder s t (tx_prepared f k n d r u ∷ es) = InOrder s t es
InOrder s t (tx_prepare_failed f c ∷ es) = InOrder s t es

-- The task runs only after `transmit_started`.
abbrev TaskAfter : Option ℕ → Bool → Type 0
TaskAfter none t = Unit
TaskAfter (some i) t = t ≡ true

task_of : (b : Bool) → TaskAfter (if b then some 0 else none) true
task_of true = refl
task_of false = tt

task_true : (next : Option ℕ) (t : Bool) → TaskAfter next t → TaskAfter next true
task_true none t h = tt
task_true (some i) t h = refl

first_frames-InOrder :
    {F D R : Type 0} (left i : ℕ) (s : Bool) (es : List (Event F D R))
    → InOrder s true es
    → InOrder s true (first_frames left i ++ es)
unfolding first_frames
first_frames-InOrder zero i s es h = h
first_frames-InOrder (suc left) i s es h = (refl, first_frames-InOrder left (i + 1) s es h)

-- An input keeps the order: events in order from the state after it are in order after its own.
abbrev Keeps : {F D R : Type 0} → StubTx F D → Bool → Handled F D R → Type 0
Keeps {F} {D} {R} m t r =
    (later : List (Event F D R))
    → ((t' : Bool) → TaskAfter r.state.next_frame t' → InOrder r.state.started t' later)
    → InOrder m.started t (r.events ++ (if r.alive then later else []))

module _ {F P D R : Type 0} (read_bytes : P → Option (List ℕ)) (st_size : P → Option ℕ)
    (sha256 : List ℕ → D) (duration : ℕ → ℕ → R) (sample_rate frames_to_tx : ℕ)
    (periodic : Bool) where
  abbrev events_of : List (Input F P) → StubTx F D → List (Event F D R)
  events_of = run_stub read_bytes st_size sha256 duration sample_rate frames_to_tx periodic

  abbrev handled : Input F P → StubTx F D → Handled F D R
  handled = on_input read_bytes st_size sha256 duration sample_rate frames_to_tx periodic

  start-Keeps :
      (b : Bool) (next : Option ℕ) (staged : List (F × ℕ × D)) (t : Bool)
      → TaskAfter next t
      → Keeps
          (record { started = b; next_frame = next; staged = staged })
          t
          (handled (command start) (record { started = b; next_frame = next; staged = staged }))
  unfolding on_input on_command on_start
  start-Keeps true next staged t h later k = k t h
  start-Keeps false next staged t h later k =
      (refl, first_frames-InOrder frames_to_tx 0 true later (k true (task_of periodic)))

  prepared-Keeps :
      (fid : F) (payload : Option (List ℕ)) (m : StubTx F D) (t : Bool)
      → TaskAfter m.next_frame t
      → Keeps m t (
          prepared read_bytes st_size sha256 duration sample_rate frames_to_tx periodic fid payload
            m)
  unfolding prepared
  prepared-Keeps fid none m t h later k = k t h
  prepared-Keeps fid (some payload) m t h later k = k t h

  wake_up-Keeps :
      (next : Option ℕ) (begun : Bool) (staged : List (F × ℕ × D)) (t : Bool)
      → TaskAfter next t
      → Keeps
          (record { started = begun; next_frame = next; staged = staged })
          t
          (handled wake_up (record { started = begun; next_frame = next; staged = staged }))
  unfolding on_input on_wake_up
  wake_up-Keeps none begun staged t h later k = k t h
  wake_up-Keeps (some i) begun staged t h later k = (h, k t h)

  input-Keeps :
      (input : Input F P) (m : StubTx F D) (t : Bool)
      → TaskAfter m.next_frame t
      → Keeps m t (handled input m)
  unfolding on_input on_command on_prepare on_transmit
  input-Keeps (command start) m t h later k =
      start-Keeps m.started m.next_frame m.staged t h later k
  input-Keeps (command stop) m t h later k = refl
  input-Keeps (command other) m t h later k = k t h
  input-Keeps (command (prepare_transmit fid none)) m t h later k = k t h
  input-Keeps (command (prepare_transmit fid (some p))) m t h later k =
      prepared-Keeps fid (read_bytes p) m t h later k
  input-Keeps (command (transmit_frame fid p)) m t h later k =
      (refl, k true (task_true m.next_frame t h))
  input-Keeps wake_up m t h later k = wake_up-Keeps m.next_frame m.started m.staged t h later k

  events_of-InOrder :
      (inputs : List (Input F P)) (m : StubTx F D) (t : Bool)
      → TaskAfter m.next_frame t
      → InOrder m.started t (events_of inputs m)
  unfolding run_stub
  events_of-InOrder [] m t h = tt
  events_of-InOrder (input ∷ inputs) m t h =
      input-Keeps input m t h (events_of inputs (handled input m).state)
        (events_of-InOrder inputs (handled input m).state)

  -- The status events of any run, from its start: `started` is sent at most once,
  -- `transmit_complete` only after `transmit_started`, and nothing after `stopped`.
  pub run_stub-InOrder : (inputs : List (Input F P)) → InOrder false false (events_of inputs fresh)
  unfolding fresh
  run_stub-InOrder inputs = events_of-InOrder inputs fresh false tt
