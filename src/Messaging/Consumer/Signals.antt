-- ===== src/Messaging/Consumer/Signals.antt =====
-- The shutdown of the consumer, app/messaging/consumer.py, statement by statement: `main`,
-- `_consume_once` and `_handle_signal`, which may interrupt them anywhere. What pika does is one of
-- the happenings; as pika documents, `stop_consuming` makes `start_consuming` return.
pub mod Stopping
use drive_now.Base.{ℕ, ◌+◌, Bool, true, false, ◌&&◌, List, [], ◌∷◌, if◌then◌else◌}

-- How `_consume_once` is left.
pub data Exit : Type 0 where
  clean connection_lost crashed : Exit

-- The statement that runs next.
pub data Stage : Type 0 where
  -- `while not _shutdown.is_set()`
  testing : Stage
  -- `pika.BlockingConnection`
  connecting : Stage
  -- from `connection.channel()` to `basic_consume`
  declaring : Stage
  -- `_active_channel` is set, and `start_consuming` comes next
  assigned : Stage
  consuming : Stage
  -- the `finally` of `_consume_once`
  closing : Exit → Stage
  -- the `except` of `main`, and its wait
  handling : Stage
  waiting : Stage
  -- the loop was left, or an exception leaves `main`
  stopped raised : Stage

pub record State : Type 0 where
  pub stage : Stage
  -- whether `_shutdown` is set
  pub shutdown : Bool
  -- whether `_active_channel` is a channel
  pub active : Bool
  -- whether `stop_consuming` was called on the channel
  pub cancelled : Bool
  -- how many connections were tried
  pub attempts : ℕ

-- What happens next: the statement completes, a call of it loses the connection or raises another
-- exception, a message is delivered, or a signal arrives, whose `stop_consuming` works or raises.
pub data Happening : Type 0 where
  goes loses crashes delivers : Happening
  signals : (stops : Bool) → Happening

abbrev at : State → Stage → State
at s stage = record s { stage = stage }

-- The statement after `_consume_once`, by its exit.
abbrev pub after_round : Exit → Stage
after_round clean = stopped
after_round connection_lost = handling
after_round crashed = raised

abbrev pub advance : Stage → State → State
advance testing s =
    if s.shutdown then at s stopped else record s { stage = connecting; attempts = s.attempts + 1 }
advance connecting s = at s declaring
advance declaring s = record s { stage = assigned; active = true; cancelled = false }
advance assigned s = at s consuming
advance consuming s = if s.cancelled then at s (closing clean) else s
advance (closing exit) s = record s { stage = after_round exit; active = false }
advance handling s = if s.shutdown then at s stopped else at s waiting
advance waiting s = at s testing
advance stopped s = s
advance raised s = s

-- A call of pika raises: what follows is the `finally` if the call is inside the `try`.
abbrev pub fail : Exit → Stage → State → State
fail exit testing s = s
fail exit connecting s = at s (after_round exit)
fail exit declaring s = at s (closing exit)
fail exit assigned s = s
fail exit consuming s = at s (closing exit)
fail exit (closing exit') s = s
fail exit handling s = s
fail exit waiting s = s
fail exit stopped s = s
fail exit raised s = s

-- `_handle_signal`
abbrev pub handle_signal : (stops : Bool) → State → State
handle_signal stops s =
    if s.active && stops
    then record s { shutdown = true; cancelled = true }
    else record s { shutdown = true }

unfoldable pub step : Happening → State → State
step goes s = advance s.stage s
step loses s = fail connection_lost s.stage s
step crashes s = fail crashed s.stage s
step delivers s = s
step (signals stops) s = handle_signal stops s

unfoldable pub run : List Happening → State → State
unfolding step
run [] s = s
run (h ∷ rest) s = run rest (step h s)

-- `main` after its settings are read: without the message queue it returns at once.
abbrev pub started : (enable_message_queue : Bool) → State
started enabled = record {
  stage = if enabled then testing else stopped;
  shutdown = false;
  active = false;
  cancelled = false;
  attempts = 0;
}
