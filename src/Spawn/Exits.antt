-- ===== src/Spawn/Exits.antt =====
-- How `run_command_loop` of _spawn_contract.py ends, for every app that uses it.
use gs_flowgraphs.Base.{
  Bool, true, false, Option, none, some, List, [], ◌∷◌, ◌++◌, ◌≡◌, refl, sym, ap, subst, ◌⊎◌, inl,
  inr,
}
use gs_flowgraphs.Base.{if◌then◌else◌}
use gs_flowgraphs.Spawn.Commands.{
  Parsed, decode_error, not_object, other_error, object, Outcome, returned, raised, eof,
  handler_failed, read_raised, unknown_raised, terminal, Turn, Ended, line_of, handled,
  unknown_handled, unknown, named, dispatch_name, dispatch, ended_by, go_on, turn_of,
  run_command_loop,
}

module _ {C N S Raw : Type 0} (name_of : C → Option N) (handlers : N → Option (C → S → S × Outcome))
    (on_unknown : Option (C → S → S × Outcome)) (is_terminal : N → Bool) (send : N → S → Outcome)
    (loads : Raw → Parsed C) where
  abbrev pub loop : List Raw → S → Ended N S
  loop = run_command_loop name_of handlers on_unknown is_terminal send loads

  abbrev pub turn_on : Raw → S → Turn N S
  turn_on raw s = turn_of name_of handlers on_unknown is_terminal send loads (line_of (loads raw)) s

  -- The lines that end the loop in a state, and what they leave.
  pub data Ending (raw : Raw) (s : S) : Turn N S → Type 0 where
    undecodable :
        loads raw ≡ other_error
        → Ending raw s (record { state = s; errors = []; exit = some read_raised })
    unknown_failure :
        (c : C) (n : N) (u : C → S → S × Outcome) (t : S)
        → loads raw ≡ object c
        → name_of c ≡ some n
        → handlers n ≡ none
        → on_unknown ≡ some u
        → u c s ≡ (t, raised)
        → Ending raw s (record { state = t; errors = []; exit = some unknown_raised })
    stop :
        (c : C) (n : N) (h : C → S → S × Outcome) (t : S)
        → loads raw ≡ object c
        → name_of c ≡ some n
        → handlers n ≡ some h
        → h c s ≡ (t, returned)
        → is_terminal n ≡ true
        → Ending raw s (record { state = t; errors = []; exit = some (terminal n) })
    raising_stop :
        (c : C) (n : N) (h : C → S → S × Outcome) (t : S)
        → loads raw ≡ object c
        → name_of c ≡ some n
        → handlers n ≡ some h
        → h c s ≡ (t, raised)
        → is_terminal n ≡ true
        → Ending raw s (record { state = t; errors = (n, send n t) ∷ []; exit = some (terminal n) })
    raising :
        (c : C) (n : N) (h : C → S → S × Outcome) (t : S)
        → loads raw ≡ object c
        → name_of c ≡ some n
        → handlers n ≡ some h
        → h c s ≡ (t, raised)
        → is_terminal n ≡ false
        → Ending raw s
            (record { state = t; errors = (n, send n t) ∷ []; exit = some handler_failed })

  -- What one line leaves: no exit and no error, or an end.
  pub data TurnReason (raw : Raw) (s : S) : Turn N S → Type 0 where
    goes_on : (t : S) → TurnReason raw s (record { state = t; errors = []; exit = none })
    ends : (turn : Turn N S) → Ending raw s turn → TurnReason raw s turn

  module _ (raw : Raw) (s : S) where
    returned-TurnReason :
        (c : C) (n : N) (h : C → S → S × Outcome) (t : S) (b : Bool)
        → loads raw ≡ object c
        → name_of c ≡ some n
        → handlers n ≡ some h
        → h c s ≡ (t, returned)
        → is_terminal n ≡ b
        → TurnReason raw s
            (record { state = t; errors = []; exit = if b then some (terminal n) else none })
    returned-TurnReason c n h t true p q r e k = ends _ (stop c n h t p q r e k)
    returned-TurnReason c n h t false p q r e k = goes_on t

    raised-TurnReason :
        (c : C) (n : N) (h : C → S → S × Outcome) (t : S) (b : Bool)
        → loads raw ≡ object c
        → name_of c ≡ some n
        → handlers n ≡ some h
        → h c s ≡ (t, raised)
        → is_terminal n ≡ b
        → TurnReason raw s (record {
          state = t;
          errors = (n, send n t) ∷ [];
          exit = some (if b then terminal n else handler_failed);
        })
    raised-TurnReason c n h t true p q r e k = ends _ (raising_stop c n h t p q r e k)
    raised-TurnReason c n h t false p q r e k = ends _ (raising c n h t p q r e k)

    handled-TurnReason :
        (c : C) (n : N) (h : C → S → S × Outcome) (r : S × Outcome)
        → loads raw ≡ object c
        → name_of c ≡ some n
        → handlers n ≡ some h
        → h c s ≡ r
        → TurnReason raw s (handled name_of handlers on_unknown is_terminal send n r)
    unfolding handled
    handled-TurnReason c n h (t, returned) p q r e =
        returned-TurnReason c n h t (is_terminal n) p q r e refl
    handled-TurnReason c n h (t, raised) p q r e =
        raised-TurnReason c n h t (is_terminal n) p q r e refl

    unknown_handled-TurnReason :
        (c : C) (n : N) (u : C → S → S × Outcome) (r : S × Outcome)
        → loads raw ≡ object c
        → name_of c ≡ some n
        → handlers n ≡ none
        → on_unknown ≡ some u
        → u c s ≡ r
        → TurnReason raw s (unknown_handled name_of handlers on_unknown is_terminal send r)
    unfolding unknown_handled
    unknown_handled-TurnReason c n u (t, returned) p q r e k = goes_on t
    unknown_handled-TurnReason c n u (t, raised) p q r e k =
        ends _ (unknown_failure c n u t p q r e k)

    unknown-TurnReason :
        (c : C) (n : N) (u : Option (C → S → S × Outcome))
        → loads raw ≡ object c
        → name_of c ≡ some n
        → handlers n ≡ none
        → on_unknown ≡ u
        → TurnReason raw s (unknown name_of handlers on_unknown is_terminal send u c s)
    unfolding unknown
    unknown-TurnReason c n none p q r e = goes_on s
    unknown-TurnReason c n (some u) p q r e = unknown_handled-TurnReason c n u (u c s) p q r e refl

    named-TurnReason :
        (c : C) (n : N) (h : Option (C → S → S × Outcome))
        → loads raw ≡ object c
        → name_of c ≡ some n
        → handlers n ≡ h
        → TurnReason raw s (named name_of handlers on_unknown is_terminal send c n h s)
    unfolding named
    named-TurnReason c n none p q r = unknown-TurnReason c n on_unknown p q r refl
    named-TurnReason c n (some h) p q r = handled-TurnReason c n h (h c s) p q r refl

    dispatch-TurnReason :
        (c : C) (n : Option N)
        → loads raw ≡ object c
        → name_of c ≡ n
        → TurnReason raw s (dispatch_name name_of handlers on_unknown is_terminal send c n s)
    unfolding dispatch_name
    dispatch-TurnReason c none p q = goes_on s
    dispatch-TurnReason c (some n) p q = named-TurnReason c n (handlers n) p q refl

    parsed-TurnReason :
        (parsed : Parsed C)
        → loads raw ≡ parsed
        → TurnReason raw s
            (turn_of name_of handlers on_unknown is_terminal send loads (line_of parsed) s)
    unfolding turn_of line_of dispatch
    parsed-TurnReason decode_error p = goes_on s
    parsed-TurnReason not_object p = goes_on s
    parsed-TurnReason other_error p = ends _ (undecodable p)
    parsed-TurnReason (object c) p = dispatch-TurnReason c (name_of c) p refl

    pub turn-TurnReason : TurnReason raw s (turn_on raw s)
    turn-TurnReason = parsed-TurnReason (loads raw) refl

  -- The loop reached the end of the stream, and built no error event.
  abbrev pub AtEof : Ended N S → Type 0
  AtEof e = (e.errors ≡ []) × (e.exit ≡ eof)

  -- The loop ended at a line, the ones before it being passed: the state, the error events and the
  -- exit are those that this line leaves.
  abbrev pub AtLine : List Raw → S → Ended N S → Type 0
  AtLine lines s e =
      (before : List Raw) × (raw : Raw) × (after : List Raw) × (lines ≡ before ++ raw ∷ after)
      × AtEof (loop before s)
      × Ending raw (loop before s).state
          (record { state = e.state; errors = e.errors; exit = some e.exit })

  loop-goes_on :
      (raw : Raw) (lines : List Raw) (s t : S)
      → turn_on raw s ≡ record { state = t; errors = []; exit = none }
      → loop (raw ∷ lines) s ≡ loop lines t
  unfolding run_command_loop go_on ended_by
  loop-goes_on raw lines s t e =
      ap (λ turn. go_on name_of handlers on_unknown is_terminal send turn (loop lines)) e

  quiet-later :
      (raw : Raw) (lines : List Raw) (s t : S)
      → turn_on raw s ≡ record { state = t; errors = []; exit = none }
      → AtEof (loop lines t) ⊎ AtLine lines t (loop lines t)
      → AtEof (loop lines t) ⊎ AtLine (raw ∷ lines) s (loop lines t)
  quiet-later raw lines s t e (inl quiet) = inl quiet
  quiet-later raw lines s t e (inr (before, last, after, split, quiet, ending)) =
      let back = sym (loop-goes_on raw before s t e) in
      inr (
        raw ∷ before,
        last,
        after,
        ap (◌∷◌ raw) split,
        subst AtEof back quiet,
        subst
            (λ (v : Ended N S). Ending last v.state (record {
              state = (loop lines t).state;
              errors = (loop lines t).errors;
              exit = some (loop lines t).exit;
            }))
            back ending,
      )

  -- What the loop makes of the turn of a line that ended it is that turn.
  Ending-AtLine :
      (raw : Raw) (lines : List Raw) (s : S) (turn : Turn N S)
      → Ending raw s turn
      → AtLine
          (raw ∷ lines)
          s
          (go_on name_of handlers on_unknown is_terminal send turn (loop lines))
  unfolding go_on ended_by run_command_loop
  Ending-AtLine raw lines s _ (undecodable p) = ([], raw, lines, refl, (refl, refl), undecodable p)
  Ending-AtLine raw lines s _ (unknown_failure c n u t p q r e k) =
      ([], raw, lines, refl, (refl, refl), unknown_failure c n u t p q r e k)
  Ending-AtLine raw lines s _ (stop c n h t p q r e k) =
      ([], raw, lines, refl, (refl, refl), stop c n h t p q r e k)
  Ending-AtLine raw lines s _ (raising_stop c n h t p q r e k) =
      ([], raw, lines, refl, (refl, refl), raising_stop c n h t p q r e k)
  Ending-AtLine raw lines s _ (raising c n h t p q r e k) =
      ([], raw, lines, refl, (refl, refl), raising c n h t p q r e k)

  go_on-AtLine :
      (raw : Raw) (lines : List Raw) (s : S) (turn : Turn N S)
      → turn_on raw s ≡ turn
      → TurnReason raw s turn
      → ((t : S) → AtEof (loop lines t) ⊎ AtLine lines t (loop lines t))
      → AtEof (go_on name_of handlers on_unknown is_terminal send turn (loop lines))
        ⊎ AtLine
            (raw ∷ lines)
            s
            (go_on name_of handlers on_unknown is_terminal send turn (loop lines))
  unfolding go_on ended_by
  go_on-AtLine raw lines s _ e (goes_on t) h = quiet-later raw lines s t e (h t)
  go_on-AtLine raw lines s turn e (ends _ ending) h = inr (Ending-AtLine raw lines s turn ending)

  -- However the lines are and whatever the handlers do, the loop either reaches the end of the
  -- stream without building an error event, or ends at one of the lines: it passed all the lines
  -- before that one without an error event, and the state, the error events and the exit are those
  -- that this line leaves in the state that they left, whatever lines follow. The line is of one of
  -- five kinds: `json.loads` raised on it what is not caught, and it left the state as it was; its
  -- name has no handler and `on_unknown` raised; the handler of a terminal command returned or, with
  -- one error event, raised; or the handler of another command raised, with one error event. An
  -- error event names the command, and comes with whether it was sent.
  pub run_command_loop-AtLine :
      (lines : List Raw) (s : S) → AtEof (loop lines s) ⊎ AtLine lines s (loop lines s)
  unfolding run_command_loop
  run_command_loop-AtLine [] s = inl (refl, refl)
  run_command_loop-AtLine (raw ∷ lines) s =
      go_on-AtLine raw lines s (turn_on raw s) refl (turn-TurnReason raw s)
        (run_command_loop-AtLine lines)
