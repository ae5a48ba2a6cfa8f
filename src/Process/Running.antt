-- ===== src/Process/Running.antt =====
-- What a process is asked for, one call after the other, and the lifespan of app/main.py around it.
use drive_now.Base.{false, none, some, List, [], ◌∷◌}
use drive_now.Messaging.{Event}
use drive_now.Messaging.Rabbit.{Pika}
use drive_now.Process.{
  Environ, Process, Disk, Ended, returned, raised, Service, get_settings, get_engine,
  get_event_publisher, close_publisher, configure_logging, request,
}

-- What a part of the program asks of its process.
pub data Use (K : Pika) : Type 0 where
  asks_settings asks_engine asks_publisher : Use K
  sets_up_logging : Disk → Use K
  requests : (Service K → Ended × List Event) → Use K

module _ {K : Pika} where
  unfoldable pub set_up_logging : Environ → Disk → Process K → Ended × Process K
  set_up_logging env disk p =
      let (settings, p₁) = get_settings env p in configure_logging disk settings p₁

  abbrev pub perform : Environ → Use K → Process K → Process K
  perform env asks_settings p = (get_settings env p).1
  perform env asks_engine p = (get_engine env p).1
  perform env asks_publisher p = (get_event_publisher env p).1
  perform env (sets_up_logging disk) p = (set_up_logging env disk p).1
  perform env (requests method) p = (request env method p).1

  -- Uses one after the other, each with what the environment holds then.
  abbrev pub perform_all : List (Environ × Use K) → Process K → Process K
  perform_all [] p = p
  perform_all ((env, u) ∷ rest) p = perform_all rest (perform env u p)

  -- The end of `lifespan`
  abbrev pub shut_down : Environ → Ended × Process K → Ended × Process K
  shut_down env (e, p) =
      let (h, p₁) = get_event_publisher env p in
      (e, record p₁ { publisher = some (close_publisher h) })

  -- What `lifespan` does after the set-up of the log.
  abbrev pub serving :
      Environ → (Process K → Ended × Process K) → Ended × Process K → Ended × Process K
  serving env body (returned, p) = shut_down env (body p)
  serving env body (raised, p) = (raised, p)

  -- `lifespan` around all that runs until the shutdown
  unfoldable pub lifespan :
      Environ → Disk → (Process K → Ended × Process K) → Process K → Ended × Process K
  lifespan env disk body p = serving env body (set_up_logging env disk p)

-- A process that starts.
abbrev pub started : {K : Pika} → K.Network → Process K
started network = record {
  settings = none;
  engine = none;
  publisher = none;
  configured = false;
  installed = [];
  network = network;
  opened = 0;
  open_sessions = [];
}
