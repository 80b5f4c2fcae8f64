-- ===== src/Spawn/Reads.antt =====
-- The loop of _spawn_contract.py reads its commands with `read_command`.
use gs_flowgraphs.Base.{Bool, Option, List, [], ◌∷◌, ◌≡◌, refl}
use gs_flowgraphs.Spawn.Commands.{
  Parsed, Line, passed_over, read_raises, command, Read, end_of_lines, read_fails, next_is, Outcome,
  eof, read_raised, Ended, line_of, next_command, read_command, dispatch, ended_by, go_on, turn_of,
  run_command_loop,
}

module _ {C N S : Type 0} (name_of : C → Option N) (handlers : N → Option (C → S → S × Outcome))
    (on_unknown : Option (C → S → S × Outcome)) (is_terminal : N → Bool)
    (send : N → S → Outcome) where
  module _ {Raw : Type 0} (loads : Raw → Parsed C) where
    abbrev pub loop : List Raw → S → Ended N S
    loop = run_command_loop name_of handlers on_unknown is_terminal send loads

    unfoldable one_turn : Read C Raw → S → Ended N S
    one_turn end_of_lines s = record { state = s; errors = []; exit = eof }
    one_turn read_fails s = record { state = s; errors = []; exit = read_raised }
    one_turn (next_is c lines) s =
        go_on name_of handlers on_unknown is_terminal send
          (dispatch name_of handlers on_unknown is_terminal send c s) (loop lines)

    read_one :
        (line : Line C) (lines : List Raw) (s : S)
        → loop lines s ≡ one_turn (read_command loads lines) s
        → go_on name_of handlers on_unknown is_terminal send
            (turn_of name_of handlers on_unknown is_terminal send loads line s)
            (loop lines)
          ≡ one_turn (next_command line lines (read_command loads lines)) s
    unfolding one_turn turn_of next_command go_on ended_by
    read_one passed_over lines s h = h
    read_one read_raises lines s h = refl
    read_one (command c) lines s h = refl

    -- The loop is `read_command`, with what the source does with the command that it returns.
    run_command_loop-read_command :
        (lines : List Raw) (s : S) → loop lines s ≡ one_turn (read_command loads lines) s
    unfolding run_command_loop read_command one_turn
    run_command_loop-read_command [] s = refl
    run_command_loop-read_command (raw ∷ lines) s =
        read_one (line_of (loads raw)) lines s (run_command_loop-read_command lines s)
