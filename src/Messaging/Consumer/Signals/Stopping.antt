-- ===== src/Messaging/Consumer/Signals/Stopping.antt =====
-- What a signal does to the consumer, by the statement that it interrupts.
use drive_now.Base.{
  ℕ, ◌+◌, ◌-◌, ◌≤◌, ◌≡◌, refl, ◌∙◌, Bool, true, false, not, ◌&&◌, ◌||◌, List, [], ◌∷◌, arith,
  if◌then◌else◌, All,
}
use drive_now.Messaging.Consumer.Signals.{
  Stage, testing, connecting, declaring, assigned, consuming, closing, handling, waiting, stopped,
  raised, State, Happening, goes, loses, crashes, delivers, signals, step, run, started,
}

step-attempts :
    (h : Happening) (s : State)
    → s.shutdown ≡ true
    → ((step h s).attempts ≡ s.attempts) × ((step h s).shutdown ≡ true)
unfolding step
step-attempts h s e = ground arith

-- Once the shutdown is requested, nothing that happens makes the consumer try another connection.
pub run-attempts :
    (hs : List Happening) (s : State) → s.shutdown ≡ true → (run hs s).attempts ≡ s.attempts
unfolding run
run-attempts [] s e = refl
run-attempts (h ∷ hs) s e =
    let (same, still) = step-attempts h s e in run-attempts hs (step h s) still ∙ same

-- Whether the channel may consume.
abbrev consumes : Stage → Bool
consumes assigned = true
consumes consuming = true
consumes (closing exit) = false
consumes testing = false
consumes connecting = false
consumes declaring = false
consumes handling = false
consumes waiting = false
consumes stopped = false
consumes raised = false

abbrev is_closing : Stage → Bool
is_closing (closing exit) = true
is_closing assigned = false
is_closing consuming = false
is_closing testing = false
is_closing connecting = false
is_closing declaring = false
is_closing handling = false
is_closing waiting = false
is_closing stopped = false
is_closing raised = false

-- The active channel is the one that may consume; the `finally` may still see it.
abbrev is_tracked : State → Bool
is_tracked s = is_closing s.stage || (if consumes s.stage then s.active else not s.active)

step-tracked : (h : Happening) (s : State) → is_tracked s ≡ true → is_tracked (step h s) ≡ true
unfolding step
step-tracked h s e = ground arith

run-tracked : (hs : List Happening) (s : State) → is_tracked s ≡ true → is_tracked (run hs s) ≡ true
unfolding run
run-tracked [] s e = e
run-tracked (h ∷ hs) s e = run-tracked hs (step h s) (step-tracked h s e)

started-tracked : (enabled : Bool) → is_tracked (started enabled) ≡ true
started-tracked enabled = ground arith

-- Whether `_consume_once` sets its connection up.
abbrev pub sets_up : Stage → Bool
sets_up connecting = true
sets_up declaring = true
sets_up assigned = false
sets_up consuming = false
sets_up (closing exit) = false
sets_up testing = false
sets_up handling = false
sets_up waiting = false
sets_up stopped = false
sets_up raised = false

abbrev pub is_over : Stage → Bool
is_over stopped = true
is_over raised = true
is_over assigned = false
is_over consuming = false
is_over (closing exit) = false
is_over testing = false
is_over connecting = false
is_over declaring = false
is_over handling = false
is_over waiting = false

-- The statements that a consumer has left once it is to stop.
abbrev rank : Stage → ℕ
rank stopped = 0
rank raised = 0
rank testing = 1
rank handling = 1
rank waiting = 2
rank (closing exit) = 2
rank consuming = 3
rank assigned = 4
rank connecting = 6
rank declaring = 5

-- A shutdown that reached the channel, if there is one.
abbrev is_stopping : State → Bool
is_stopping s = s.shutdown && not (sets_up s.stage) && (s.cancelled || not (consumes s.stage))

abbrev pub goes_in : Happening → ℕ
goes_in goes = 1
goes_in loses = 0
goes_in crashes = 0
goes_in delivers = 0
goes_in (signals stops) = 0

-- How many statements complete.
abbrev pub completed : List Happening → ℕ
completed [] = 0
completed (h ∷ hs) = goes_in h + completed hs

step-stopping :
    (h : Happening) (s : State)
    → is_stopping s ≡ true
    → (is_stopping (step h s) ≡ true) × (rank (step h s).stage ≤ rank s.stage - goes_in h)
unfolding step
step-stopping h s e = ground arith

run-stopping :
    (hs : List Happening) (s : State)
    → is_stopping s ≡ true
    → rank (run hs s).stage ≤ rank s.stage - completed hs
unfolding run
run-stopping [] s e = omega arith
run-stopping (h ∷ hs) s e =
    let (still, less) = step-stopping h s e in
    let later = run-stopping hs (step h s) still in omega arith

over-rank : (stage : Stage) → rank stage ≤ 0 → is_over stage ≡ true
over-rank stage h = ground arith

signal-stopping :
    (s : State)
    → is_tracked s ≡ true
    → sets_up s.stage ≡ false
    → (is_stopping (step (signals true) s) ≡ true) × (rank (step (signals true) s).stage ≤ 4)
unfolding step
signal-stopping s e h = ground arith

-- A signal whose `stop_consuming` works, at any statement but those that set a connection up, ends
-- the consumer: whatever happens afterwards, once four more statements have completed, `main` has
-- left its loop.
pub signal-stops :
    (enabled : Bool) (past future : List Happening)
    → sets_up (run past (started enabled)).stage ≡ false
    → 4 ≤ completed future
    → is_over (run future (step (signals true) (run past (started enabled)))).stage ≡ true
signal-stops enabled past future h enough =
    let s = run past (started enabled) in
    let (still, low) =
      signal-stopping s (run-tracked past (started enabled) (started-tracked enabled)) h in
    let less = run-stopping future (step (signals true) s) still in over-rank _ (omega arith)

abbrev pub is_quiet : Happening → Bool
is_quiet goes = true
is_quiet delivers = true
is_quiet loses = false
is_quiet crashes = false
is_quiet (signals stops) = false

run-quiet :
    (hs : List Happening) (s : State)
    → s.stage ≡ consuming
    → s.cancelled ≡ false
    → All (λ h. is_quiet h ≡ true) hs
    → (run hs s).stage ≡ consuming
unfolding run step
run-quiet [] s e c q = e
run-quiet (goes ∷ hs) s e c q = simp (e, c) (run-quiet hs s e c q.1)
run-quiet (delivers ∷ hs) s e c q = run-quiet hs s e c q.1
run-quiet (loses ∷ hs) s e c q = absurd (ground arith)
run-quiet (crashes ∷ hs) s e c q = absurd (ground arith)
run-quiet (signals stops ∷ hs) s e c q = absurd (ground arith)

-- The three statements from the connection to `start_consuming`.
set-up-consumes :
    (s : State) (stops : Bool)
    → s.stage ≡ connecting
    → is_tracked s ≡ true
    → let s' = run (signals stops ∷ goes ∷ goes ∷ goes ∷ []) s in
      (s'.stage ≡ consuming) × (s'.cancelled ≡ false)
unfolding run step
set-up-consumes s stops e t = ground arith

-- A signal that arrives while the connection is opened does not stop the consumer: if the set-up
-- completes, it still consumes after any sequence of deliveries and completed statements.
pub signal-missed :
    (past future : List Happening) (stops : Bool)
    → (run past (started true)).stage ≡ connecting
    → All (λ h. is_quiet h ≡ true) future
    → (run (signals stops ∷ goes ∷ goes ∷ goes ∷ future) (run past (started true))).stage
      ≡ consuming
unfolding run
signal-missed past future stops e quiet =
    let s = run past (started true) in
    let (there, kept) =
      set-up-consumes s stops e (run-tracked past (started true) (started-tracked true)) in
    run-quiet future (run (signals stops ∷ goes ∷ goes ∷ goes ∷ []) s) there kept quiet
