-- ===== src/Tests/Spawns.antt =====
-- A concrete app on _spawn_contract.py: command 5 is its stop, 6 counts, 7 raises, and the others
-- have no handler; line 0 is malformed, line 1 is no object, and
-- line 2 is not UTF-8.
use gs_flowgraphs.Base.{
  ℕ, ◌+◌, ◌-◌, ◌≤◌, Bool, true, false, Option, none, some, List, [], ◌∷◌, ◌++◌, map, ◌≡◌, refl,
  ◌==◌, ◌⊎◌, if◌then◌else◌, arith, drop, ok,
}
use gs_flowgraphs.Spawn.Commands.{
  Parsed, decode_error, not_object, other_error, object, Outcome, returned, raised, eof,
  handler_failed, read_raised, terminal, Ended, line_of, handled, unknown, named, dispatch_name,
  dispatch, ended_by, go_on, turn_of, run_command_loop,
}
use gs_flowgraphs.Spawn.Exits.{AtEof, AtLine, run_command_loop-AtLine}
use gs_flowgraphs.Spawn.Stops.{stop_ends-run_command_loop, raising_ends-run_command_loop}
use gs_flowgraphs.Spawn.Pump.{Step, offer, finished, pump_data_queue, signal_pump_end}
use gs_flowgraphs.Spawn.Sentinel.{
  IsSignalled, signal_pump_end-IsSignalled, written, signal_pump_end-pump_data_queue,
}
use gs_flowgraphs.Spawn.Watch.{Answers, await_first_samples, await_first_samples-Answers}
use gs_flowgraphs.Spawn.Url.{tcp_prefix, colon, parse_tcp_url, parse_tcp_url-endpoint}

abbrev load : ℕ → Parsed ℕ
load n =
    if n == 0
    then decode_error
    else if n == 1
    then not_object
    else if n == 2
    then other_error
    else object n

abbrev add_one : ℕ → ℕ → ℕ × Outcome
add_one c s = (s + 1, returned)

abbrev fail : ℕ → ℕ → ℕ × Outcome
fail c s = (s + 10, raised)

abbrev table : ℕ → Option (ℕ → ℕ → ℕ × Outcome)
table n =
    if n == 5
    then some add_one
    else if n == 6
    then some add_one
    else if n == 7
    then some fail
    else none

abbrev is_stop : ℕ → Bool
is_stop n = n == 5

abbrev sends : ℕ → ℕ → Outcome
sends n s = if s == 0 then raised else returned

abbrev app : List ℕ → ℕ → Ended ℕ ℕ
app = run_command_loop some table none is_stop sends load

app-quiet : (app (6 ∷ 0 ∷ 6 ∷ 1 ∷ 9 ∷ []) 0).exit ≡ eof
unfolding run_command_loop go_on ended_by turn_of line_of dispatch dispatch_name named unknown
    handled
app-quiet = refl

app-undecodable : app (6 ∷ 2 ∷ 5 ∷ []) 0 ≡ record { state = 1; errors = []; exit = read_raised }
unfolding run_command_loop go_on ended_by turn_of line_of dispatch dispatch_name named handled
app-undecodable = refl

app-AtLine_example :
    AtEof some table none is_stop sends load (app (6 ∷ 0 ∷ 7 ∷ 5 ∷ []) 0)
    ⊎ AtLine some table none is_stop sends load (6 ∷ 0 ∷ 7 ∷ 5 ∷ []) 0 (app (6 ∷ 0 ∷ 7 ∷ 5 ∷ []) 0)
app-AtLine_example =
    run_command_loop-AtLine some table none is_stop sends load (6 ∷ 0 ∷ 7 ∷ 5 ∷ []) 0

app-stop_example :
    ((app ((6 ∷ 0 ∷ 6 ∷ 1 ∷ 9 ∷ []) ++ 5 ∷ 7 ∷ []) 0).exit ≡ terminal 5)
    × ((app ((6 ∷ 0 ∷ 6 ∷ 1 ∷ 9 ∷ []) ++ 5 ∷ 7 ∷ []) 0).state
        ≡ (app (6 ∷ 0 ∷ 6 ∷ 1 ∷ 9 ∷ []) 0).state + 1)
app-stop_example =
    stop_ends-run_command_loop some table none is_stop sends load (6 ∷ 0 ∷ 6 ∷ 1 ∷ 9 ∷ []) (7 ∷ [])
      5 5 5 add_one 0 app-quiet refl refl refl refl

app-raising_example : app ((6 ∷ 0 ∷ 6 ∷ 1 ∷ 9 ∷ []) ++ 7 ∷ 5 ∷ []) 0 ≡ record {
  state = (app (6 ∷ 0 ∷ 6 ∷ 1 ∷ 9 ∷ []) 0).state + 10;
  errors = (7, sends 7 ((app (6 ∷ 0 ∷ 6 ∷ 1 ∷ 9 ∷ []) 0).state + 10)) ∷ [];
  exit = handler_failed;
}
app-raising_example =
    raising_ends-run_command_loop some table none is_stop sends load (6 ∷ 0 ∷ 6 ∷ 1 ∷ 9 ∷ [])
      (5 ∷ []) 7 7 7 fail 0 app-quiet refl refl refl refl refl

abbrev chunks : List ℕ
chunks = 7 ∷ 8 ∷ []

abbrev producer : List (List (Step ℕ))
producer = (offer 9 ∷ []) ∷ []

-- A full queue of two chunks, whose producer is still live.
signal_pump_end-IsSignalled_example :
    IsSignalled 2 (signal_pump_end 2 false producer (map some chunks))
signal_pump_end-IsSignalled_example =
    signal_pump_end-IsSignalled 2 producer (map some chunks) (λ k. omega arith)

abbrev append_to : ℕ → List ℕ → List ℕ × Outcome
append_to c w = (w ++ c ∷ [], returned)

signal_pump_end-pump_data_queue_example :
    (dropped : ℕ) × (dropped ≤ 1)
    × ((signal_pump_end 2 false [] (map some chunks)).1 ≡ true)
    × (pump_data_queue append_to (signal_pump_end 2 false [] (map some chunks)).0 []
        ≡ (written append_to (drop dropped chunks) [], finished))
signal_pump_end-pump_data_queue_example =
    signal_pump_end-pump_data_queue append_to 2 chunks [] (λ k. omega arith) (λ c w. refl)

-- The probe raises at first, and finds samples at the third poll.
abbrev probe : ℕ → Option ℕ
probe k = if k == 0 then none else if k == 2 then some 4 else some 0

abbrev clock : ℕ → ℕ
clock k = k + 100

await_first_samples_example :
    Answers probe clock (100 + 5) 0 (await_first_samples probe clock 100 5)
await_first_samples_example =
    await_first_samples-Answers probe clock 100 5 (λ k. omega arith) (omega arith)

abbrev one_digit : List ℕ → Option ℕ
one_digit [] = none
one_digit (c ∷ []) = some (c - 48)
one_digit (c ∷ d ∷ s) = none

-- "tcp://::1:7"
parse_tcp_url-endpoint_example :
    parse_tcp_url one_digit (tcp_prefix ++ (58 ∷ 58 ∷ 49 ∷ []) ++ colon ∷ 55 ∷ [])
    ≡ ok (record { host = 58 ∷ 58 ∷ 49 ∷ []; port = 7 })
parse_tcp_url-endpoint_example =
    parse_tcp_url-endpoint one_digit (58 ∷ 58 ∷ 49 ∷ []) (55 ∷ []) 7 (refl, tt) refl
