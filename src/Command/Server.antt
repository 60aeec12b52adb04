-- ===== src/Command/Server.antt =====
-- The end of run in cmd/smartcar-4runner/main.go: the goroutine that serves, the channel on which it
-- reports, the signals, and the select that waits for either. A step is one of the statements, or
-- something that the environment does: ListenAndServe returns, a signal comes, Shutdown returns.
pub mod Laws
use toyotaview.Common.{Bool, true, false, Option, none, some, GoError, ◌≡◌, wrapped}
use toyotaview.Command.Run.{ServerEnd, signalled, server_failed, server_closed}

-- Where the goroutine is. What ListenAndServe returned is an error, or none for ErrServerClosed.
pub data Listener : Type 0 where
  listening : Listener
  sending : GoError → Listener
  closing : Option GoError → Listener
  finished : Option GoError → Listener

-- Where run is: at the select, in Shutdown, or past the end, after what the wait ended with and what
-- Shutdown returned if it was called.
pub data Waiter : Type 0 where
  waiting : Waiter
  stopping : Waiter
  returned : ServerEnd → Option GoError → Waiter

-- The channel holds one error at most; closing it is the last statement of the goroutine.
pub record Server : Type 0 where
  pub waiter : Waiter
  pub listener : Listener
  pub buffer : Option GoError
  pub is_closed : Bool
  pub is_signalled : Bool

abbrev pub started : Server
started = record {
  waiter = waiting;
  listener = listening;
  buffer = none;
  is_closed = false;
  is_signalled = false;
}

-- The statements of the program.
pub data Move (s : Server) : Server → Type 0 where
  -- A send waits while the buffer is full.
  report :
      (e : GoError)
      → s.listener ≡ sending e
      → s.buffer ≡ none
      → Move s (record s { buffer = some e; listener = closing (some e) })
  finish :
      (r : Option GoError)
      → s.listener ≡ closing r
      → Move s (record s { is_closed = true; listener = finished r })
  take_signal : s.waiter ≡ waiting → s.is_signalled ≡ true → Move s (record s { waiter = stopping })
  take_error :
      (e : GoError)
      → s.waiter ≡ waiting
      → s.buffer ≡ some e
      → Move s (record s { buffer = none; waiter = returned (server_failed e) none })
  -- A receive from a closed channel with nothing in its buffer.
  take_close :
      s.waiter ≡ waiting
      → s.buffer ≡ none
      → s.is_closed ≡ true
      → Move s (record s { waiter = returned server_closed none })

-- What the environment does.
pub data Outside (s : Server) : Server → Type 0 where
  listen_failed :
      (e : GoError) → s.listener ≡ listening → Outside s (record s { listener = sending e })
  listen_closed : s.listener ≡ listening → Outside s (record s { listener = closing none })
  signal : Outside s (record s { is_signalled = true })
  shutdown_returned :
      (failure : Option GoError)
      → s.waiter ≡ stopping
      → Outside s (record s { waiter = returned signalled failure })

pub data Reach : Server → Type 0 where
  start : Reach started
  move : {s t : Server} → Reach s → Move s t → Reach t
  outside : {s t : Server} → Reach s → Outside s t → Reach t

-- What ListenAndServe returned, if it did.
abbrev pub listened : Listener → Option (Option GoError)
listened listening = none
listened (sending e) = some (some e)
listened (closing r) = some r
listened (finished r) = some r

-- What run returns.
abbrev pub run_result : Waiter → Option (Option GoError)
run_result waiting = none
run_result stopping = none
run_result (returned signalled none) = some none
run_result (returned signalled (some e)) = some (some (wrapped "shutdown server" e))
run_result (returned (server_failed e) failure) = some (some e)
run_result (returned server_closed failure) = some none
