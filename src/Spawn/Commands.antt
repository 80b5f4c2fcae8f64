-- ===== src/Spawn/Commands.antt =====
-- _spawn_contract.py, `read_command` and `run_command_loop`. A line is what `readline` returns, the
-- end of the sequence the end of the stream. `loads` stands for `json.loads` with the test for an
-- object, and `name_of` for the string in the field "cmd", if there is one. The handlers are those
-- of an app, with the state that they share, and `send` tells whether `send_event` raised when it
-- was to report a failure. That `readline` itself may raise is left out.
use gs_flowgraphs.Base.{Bool, Option, none, some, List, [], ◌∷◌, ◌++◌, if◌then◌else◌}

-- What `json.loads` does with a line: `other_error` is an exception that `read_command` does not
-- catch, such as `UnicodeDecodeError`.
pub data Parsed (C : Type 0) : Type 0 where
  decode_error not_object other_error : Parsed C
  object : C → Parsed C

-- What `read_command` makes of one line.
pub data Line (C : Type 0) : Type 0 where
  passed_over read_raises : Line C
  command : C → Line C

-- What it returns, with the lines that are left, or that it raised.
pub data Read (C Raw : Type 0) : Type 0 where
  end_of_lines read_fails : Read C Raw
  next_is : C → List Raw → Read C Raw

-- Whether a handler or `send_event` returned or raised.
pub data Outcome : Type 0 where
  returned raised : Outcome

-- The exit reason, or that `read_command` or `on_unknown` raised, which is not caught.
pub data Exit (N : Type 0) : Type 0 where
  eof handler_failed read_raised unknown_raised : Exit N
  terminal : N → Exit N

-- After one line: the state, the error events that the loop built, each with the name in it and with
-- whether it was sent, and the exit if there is one.
pub record Turn (N S : Type 0) : Type 0 where
  pub state : S
  pub errors : List (N × Outcome)
  pub exit : Option (Exit N)

-- The end of the loop.
pub record Ended (N S : Type 0) : Type 0 where
  pub state : S
  pub errors : List (N × Outcome)
  pub exit : Exit N

module _ {C : Type 0} where
  unfoldable pub line_of : Parsed C → Line C
  line_of decode_error = passed_over
  line_of not_object = passed_over
  line_of other_error = read_raises
  line_of (object c) = command c

  unfoldable pub next_command : {Raw : Type 0} → Line C → List Raw → Read C Raw → Read C Raw
  next_command passed_over lines later = later
  next_command read_raises lines later = read_fails
  next_command (command c) lines later = next_is c lines

  -- The next command, and the lines after it.
  unfoldable pub read_command : {Raw : Type 0} → (Raw → Parsed C) → List Raw → Read C Raw
  read_command loads [] = end_of_lines
  read_command loads (raw ∷ lines) =
      next_command (line_of (loads raw)) lines (read_command loads lines)

module _ {C N S : Type 0} (name_of : C → Option N) (handlers : N → Option (C → S → S × Outcome))
    (on_unknown : Option (C → S → S × Outcome)) (is_terminal : N → Bool)
    (send : N → S → Outcome) where
  -- After a handler.
  unfoldable pub handled : N → S × Outcome → Turn N S
  handled name (s, returned) = record {
    state = s;
    errors = [];
    exit = if is_terminal name then some (terminal name) else none;
  }
  handled name (s, raised) = record {
    state = s;
    errors = (name, send name s) ∷ [];
    exit = some (if is_terminal name then terminal name else handler_failed);
  }

  -- After `on_unknown`, which is outside the `try`.
  unfoldable pub unknown_handled : S × Outcome → Turn N S
  unknown_handled (s, returned) = record { state = s; errors = []; exit = none }
  unknown_handled (s, raised) = record { state = s; errors = []; exit = some unknown_raised }

  unfoldable pub unknown : Option (C → S → S × Outcome) → C → S → Turn N S
  unknown none c s = record { state = s; errors = []; exit = none }
  unknown (some handler) c s = unknown_handled (handler c s)

  unfoldable pub named : C → N → Option (C → S → S × Outcome) → S → Turn N S
  named c name none s = unknown on_unknown c s
  named c name (some handler) s = handled name (handler c s)

  unfoldable pub dispatch_name : C → Option N → S → Turn N S
  dispatch_name c none s = record { state = s; errors = []; exit = none }
  dispatch_name c (some name) s = named c name (handlers name) s

  unfoldable pub dispatch : C → S → Turn N S
  dispatch c s = dispatch_name c (name_of c) s

  unfoldable pub ended_by : Turn N S → (S → Ended N S) → Option (Exit N) → Ended N S
  ended_by turn later (some exit) = record { state = turn.state; errors = turn.errors; exit = exit }
  ended_by turn later none = record {
    state = (later turn.state).state;
    errors = turn.errors ++ (later turn.state).errors;
    exit = (later turn.state).exit;
  }

  -- The loop goes on unless the command ended it.
  unfoldable pub go_on : Turn N S → (S → Ended N S) → Ended N S
  go_on turn later = ended_by turn later turn.exit

  module _ {Raw : Type 0} (loads : Raw → Parsed C) where
    unfoldable pub turn_of : Line C → S → Turn N S
    turn_of passed_over s = record { state = s; errors = []; exit = none }
    turn_of read_raises s = record { state = s; errors = []; exit = some read_raised }
    turn_of (command c) s = dispatch c s

    unfoldable pub run_command_loop : List Raw → S → Ended N S
    run_command_loop [] s = record { state = s; errors = []; exit = eof }
    run_command_loop (raw ∷ lines) s =
        go_on (turn_of (line_of (loads raw)) s) (run_command_loop lines)
