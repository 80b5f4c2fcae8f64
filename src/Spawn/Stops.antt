-- ===== src/Spawn/Stops.antt =====
-- How the loop of _spawn_contract.py goes on over more lines, and what a line with a handled command
-- does to it.
use gs_flowgraphs.Base.{
  Bool, true, false, Option, some, List, [], ◌∷◌, ◌++◌, ◌≡◌, refl, ap, ◌∙◌, ◌⊎◌, inl, inr,
}
use mathlib.Core.Path.{fun_ext}
use gs_flowgraphs.Spawn.Commands.{
  Parsed, object, Outcome, returned, raised, Exit, eof, handler_failed, read_raised, unknown_raised,
  terminal, Turn, Ended, line_of, handled, named, dispatch_name, dispatch, ended_by, go_on, turn_of,
  run_command_loop,
}
use gs_flowgraphs.Spawn.Exits.{
  Ending, undecodable, unknown_failure, stop, raising_stop, raising, TurnReason, goes_on, ends,
  turn-TurnReason, AtEof, AtLine, run_command_loop-AtLine,
}

-- The loop over more lines, from where the loop over the first ones ended.
unfoldable pub resume_from :
    {N S : Type 0} → S → List (N × Outcome) → (S → Ended N S) → Exit N → Ended N S
resume_from s errors later eof = record {
  state = (later s).state;
  errors = errors ++ (later s).errors;
  exit = (later s).exit;
}
resume_from s errors later handler_failed = record {
  state = s;
  errors = errors;
  exit = handler_failed;
}
resume_from s errors later read_raised = record { state = s; errors = errors; exit = read_raised }
resume_from s errors later unknown_raised = record {
  state = s;
  errors = errors;
  exit = unknown_raised;
}
resume_from s errors later (terminal n) = record { state = s; errors = errors; exit = terminal n }

unfoldable pub resume : {N S : Type 0} → Ended N S → (S → Ended N S) → Ended N S
resume e later = resume_from e.state e.errors later e.exit

module _ {C N S : Type 0} (name_of : C → Option N) (handlers : N → Option (C → S → S × Outcome))
    (on_unknown : Option (C → S → S × Outcome)) (is_terminal : N → Bool)
    (send : N → S → Outcome) where
  module _ {Raw : Type 0} (loads : Raw → Parsed C) where
    abbrev pub loop : List Raw → S → Ended N S
    loop = run_command_loop name_of handlers on_unknown is_terminal send loads

    go_on-resume :
        (raw : Raw) (u : S) (turn : Turn N S) (first more : S → Ended N S)
        → TurnReason name_of handlers on_unknown is_terminal send loads raw u turn
        → go_on name_of handlers on_unknown is_terminal send turn (λ s. resume (first s) more)
          ≡ resume (go_on name_of handlers on_unknown is_terminal send turn first) more
    unfolding go_on ended_by resume resume_from
    go_on-resume raw u _ first more (goes_on s) = refl
    go_on-resume raw u _ first more (ends _ (undecodable p)) = refl
    go_on-resume raw u _ first more (ends _ (unknown_failure c n h t p q r e k)) = refl
    go_on-resume raw u _ first more (ends _ (stop c n h t p q r e k)) = refl
    go_on-resume raw u _ first more (ends _ (raising_stop c n h t p q r e k)) = refl
    go_on-resume raw u _ first more (ends _ (raising c n h t p q r e k)) = refl

    -- The loop over more lines is the loop over the first, which goes on if it reached their end.
    pub run_command_loop-append :
        (first more : List Raw) (s : S) → loop (first ++ more) s ≡ resume (loop first s) (loop more)
    unfolding run_command_loop resume resume_from
    run_command_loop-append [] more s = refl
    run_command_loop-append (raw ∷ first) more s =
        ap
          (go_on name_of handlers on_unknown is_terminal send
            (turn_of name_of handlers on_unknown is_terminal send loads (line_of (loads raw)) s))
          (fun_ext (run_command_loop-append first more))
        ∙ go_on-resume raw s
            (turn_of name_of handlers on_unknown is_terminal send loads (line_of (loads raw)) s)
            (loop first) (loop more)
            (turn-TurnReason name_of handlers on_unknown is_terminal send loads raw s)

    Ending-not_eof :
        (raw : Raw) (u s : S) (errors : List (N × Outcome)) (exit : Option (Exit N))
        → Ending name_of handlers on_unknown is_terminal send loads raw u
            (record { state = s; errors = errors; exit = exit })
        → ¬ (exit ≡ some eof)
    Ending-not_eof raw u s _ _ (undecodable p) x = cc
    Ending-not_eof raw u s _ _ (unknown_failure c n h t p q r e k) x = cc
    Ending-not_eof raw u s _ _ (stop c n h t p q r e k) x = cc
    Ending-not_eof raw u s _ _ (raising_stop c n h t p q r e k) x = cc
    Ending-not_eof raw u s _ _ (raising c n h t p q r e k) x = cc

    eof-errors :
        (lines : List Raw) (s : S) (e : Ended N S)
        → AtEof name_of handlers on_unknown is_terminal send loads e
          ⊎ AtLine name_of handlers on_unknown is_terminal send loads lines s e
        → e.exit ≡ eof
        → e.errors ≡ []
    eof-errors lines s e (inl quiet) h = quiet.0
    eof-errors lines s e (inr (before, raw, after, split, quiet, ending)) h =
        absurd (
          Ending-not_eof raw (loop before s).state e.state e.errors (some e.exit) ending
            (ap some h))

    resume_from-eof :
        (s : S) (errors : List (N × Outcome)) (exit : Exit N) (later : S → Ended N S)
        → errors ≡ []
        → exit ≡ eof
        → resume_from s errors later exit ≡ later s
    unfolding resume_from
    resume_from-eof s errors eof later h k = rw (h) refl
    resume_from-eof s errors handler_failed later h k = absurd (cc)
    resume_from-eof s errors read_raised later h k = absurd (cc)
    resume_from-eof s errors unknown_raised later h k = absurd (cc)
    resume_from-eof s errors (terminal n) later h k = absurd (cc)

    -- After lines that did not end the loop, it goes on as if it had begun in their state.
    run_command_loop-after :
        (before more : List Raw) (s : S)
        → (loop before s).exit ≡ eof
        → loop (before ++ more) s ≡ loop more (loop before s).state
    unfolding resume
    run_command_loop-after before more s h =
        run_command_loop-append before more s
        ∙ resume_from-eof (loop before s).state (loop before s).errors (loop before s).exit
            (loop more)
            (eof-errors before s (loop before s)
              (run_command_loop-AtLine name_of handlers on_unknown is_terminal send loads before s)
              h)
            h

    turn_of-handled :
        (raw : Raw) (c : C) (n : N) (h : C → S → S × Outcome) (s : S)
        → loads raw ≡ object c
        → name_of c ≡ some n
        → handlers n ≡ some h
        → turn_of name_of handlers on_unknown is_terminal send loads (line_of (loads raw)) s
          ≡ handled name_of handlers on_unknown is_terminal send n (h c s)
    unfolding turn_of dispatch dispatch_name named line_of
    turn_of-handled raw c n h s p q r = rw (p, q, r) refl

    go_on-ends :
        (turn : Turn N S) (later : S → Ended N S) (exit : Exit N)
        → turn.exit ≡ some exit
        → go_on name_of handlers on_unknown is_terminal send turn later
          ≡ record { state = turn.state; errors = turn.errors; exit = exit }
    unfolding go_on ended_by
    go_on-ends turn later exit h = rw (h) refl

    handled-stops :
        (n : N) (r : S × Outcome)
        → is_terminal n ≡ true
        → ((handled name_of handlers on_unknown is_terminal send n r).exit ≡ some (terminal n))
          × ((handled name_of handlers on_unknown is_terminal send n r).state ≡ r.0)
    unfolding handled
    handled-stops n (s, returned) t = rw (t) (refl, refl)
    handled-stops n (s, raised) t = rw (t) (refl, refl)

    handled-fails :
        (n : N) (r : S × Outcome)
        → is_terminal n ≡ false
        → r.1 ≡ raised
        → handled name_of handlers on_unknown is_terminal send n r
          ≡ record { state = r.0; errors = (n, send n r.0) ∷ []; exit = some handler_failed }
    unfolding handled
    handled-fails n (s, returned) t h = absurd (cc)
    handled-fails n (s, raised) t h = rw (t) refl

    -- A line with a handled command, after lines that did not end the loop.
    run_command_loop-handled :
        (before after : List Raw) (raw : Raw) (c : C) (n : N) (h : C → S → S × Outcome) (s : S)
        → (loop before s).exit ≡ eof
        → loads raw ≡ object c
        → name_of c ≡ some n
        → handlers n ≡ some h
        → loop (before ++ raw ∷ after) s
          ≡ go_on name_of handlers on_unknown is_terminal send
              (handled name_of handlers on_unknown is_terminal send n (h c (loop before s).state))
              (loop after)
    unfolding run_command_loop
    run_command_loop-handled before after raw c n h s e p q r =
        run_command_loop-after before (raw ∷ after) s e
        ∙ ap (λ turn. go_on name_of handlers on_unknown is_terminal send turn (loop after))
            (turn_of-handled raw c n h (loop before s).state p q r)

    -- A terminal command that has a handler ends the loop, after lines that did not end it: the
    -- exit names it, whether or not its handler raised, and no later line is read.
    pub stop_ends-run_command_loop :
        (before after : List Raw) (raw : Raw) (c : C) (n : N) (h : C → S → S × Outcome) (s : S)
        → (loop before s).exit ≡ eof
        → loads raw ≡ object c
        → name_of c ≡ some n
        → handlers n ≡ some h
        → is_terminal n ≡ true
        → ((loop (before ++ raw ∷ after) s).exit ≡ terminal n)
          × ((loop (before ++ raw ∷ after) s).state ≡ (h c (loop before s).state).0)
    stop_ends-run_command_loop before after raw c n h s e p q r t =
        let turn =
          handled name_of handlers on_unknown is_terminal send n (h c (loop before s).state) in
        let stopped = handled-stops n (h c (loop before s).state) t in
        let whole =
          run_command_loop-handled before after raw c n h s e p q r
          ∙ go_on-ends turn (loop after) (terminal n) stopped.0 in
        (ap (λ x. x.exit) whole, ap (λ x. x.state) whole ∙ stopped.1)

    -- Another command whose handler raises, after lines that did not end the loop, ends it with the
    -- failure exit and with one error event, which names it and comes with whether it was sent; no later line is read.
    pub raising_ends-run_command_loop :
        (before after : List Raw) (raw : Raw) (c : C) (n : N) (h : C → S → S × Outcome) (s : S)
        → (loop before s).exit ≡ eof
        → loads raw ≡ object c
        → name_of c ≡ some n
        → handlers n ≡ some h
        → is_terminal n ≡ false
        → (h c (loop before s).state).1 ≡ raised
        → loop (before ++ raw ∷ after) s ≡ record {
          state = (h c (loop before s).state).0;
          errors = (n, send n (h c (loop before s).state).0) ∷ [];
          exit = handler_failed;
        }
    raising_ends-run_command_loop before after raw c n h s e p q r t u =
        run_command_loop-handled before after raw c n h s e p q r
        ∙ ap (λ turn. go_on name_of handlers on_unknown is_terminal send turn (loop after))
            (handled-fails n (h c (loop before s).state) t u)
        ∙ go_on-ends
            (record {
              state = (h c (loop before s).state).0;
              errors = (n, send n (h c (loop before s).state).0) ∷ [];
              exit = some handler_failed;
            })
            (loop after) handler_failed refl
