-- ===== src/Command/Server/Laws.antt =====
-- What the wait of run comes to, in every interleaving.
use toyotaview.Common.{
  Bool, true, false, Option, none, some, GoError, ◌≡◌, ◌≢◌, refl, ap, ◌∙◌, ◌⊎◌, inl, inr, arith, ℕ,
  suc, ◌+◌, ◌<◌,
}
use toyotaview.Config.Types.{Config}
use toyotaview.Command.Run
use toyotaview.Command.Run.{
  ServerEnd, signalled, server_failed, server_closed, System, Running, opening, after_listen,
}
use toyotaview.Command.Server.{
  Listener, listening, sending, closing, finished, Waiter, waiting, stopping, returned, Server,
  Move, report, finish, take_signal, take_error, take_close, Outside, listen_failed, listen_closed,
  signal, shutdown_returned, Reach, start, move, outside, listened, run_result,
}

-- The error of the goroutine is in the channel, or run has returned it.
abbrev IsHeld : Waiter → Option GoError → GoError → Type 0
IsHeld (returned (server_failed d) failure) buffer e = (buffer ≡ none) × (d ≡ e)
IsHeld (returned server_closed failure) buffer e = ⊥
IsHeld (returned signalled failure) buffer e = buffer ≡ some e
IsHeld waiting buffer e = buffer ≡ some e
IsHeld stopping buffer e = buffer ≡ some e

-- Nothing has come through the channel.
abbrev IsUnheard : Waiter → Type 0
IsUnheard (returned (server_failed d) failure) = ⊥
IsUnheard (returned server_closed failure) = ⊥
IsUnheard (returned signalled failure) = Unit {0}
IsUnheard waiting = Unit {0}
IsUnheard stopping = Unit {0}

-- Run has not returned an error of the server.
abbrev IsUnfailed : Waiter → Type 0
IsUnfailed (returned (server_failed d) failure) = ⊥
IsUnfailed w = Unit {0}

-- What the place of the goroutine says about the channel and about run.
abbrev Agrees : Listener → Waiter → Option GoError → Bool → Type 0
Agrees listening w buffer is_closed = IsUnheard w × (buffer ≡ none) × (is_closed ≡ false)
Agrees (sending e) w buffer is_closed = IsUnheard w × (buffer ≡ none) × (is_closed ≡ false)
Agrees (closing none) w buffer is_closed = IsUnheard w × (buffer ≡ none) × (is_closed ≡ false)
Agrees (closing (some e)) w buffer is_closed = IsHeld w buffer e × (is_closed ≡ false)
Agrees (finished none) w buffer is_closed = IsUnfailed w × (buffer ≡ none) × (is_closed ≡ true)
Agrees (finished (some e)) w buffer is_closed = IsHeld w buffer e × (is_closed ≡ true)

-- Run is past the select on the signal's side only after a signal.
abbrev IsAsked : Waiter → Bool → Type 0
IsAsked stopping is_signalled = is_signalled ≡ true
IsAsked (returned signalled failure) is_signalled = is_signalled ≡ true
IsAsked w is_signalled = Unit {0}

record IsSound (s : Server) : Type 0 where
  agrees : Agrees s.listener s.waiter s.buffer s.is_closed
  asked : IsAsked s.waiter s.is_signalled

Move-IsSound : {s t : Server} → Move s t → IsSound s → IsSound t
Move-IsSound (report e at empty) h = record { agrees = ground arith; asked = ground arith }
Move-IsSound (finish r at) h = record { agrees = ground arith; asked = ground arith }
Move-IsSound (take_signal at came) h = record { agrees = ground arith; asked = ground arith }
Move-IsSound (take_error e at held) h = record { agrees = ground arith; asked = ground arith }
Move-IsSound (take_close at empty shut) h = record { agrees = ground arith; asked = ground arith }

Outside-IsSound : {s t : Server} → Outside s t → IsSound s → IsSound t
Outside-IsSound (listen_failed e at) h = record { agrees = ground arith; asked = ground arith }
Outside-IsSound (listen_closed at) h = record { agrees = ground arith; asked = ground arith }
Outside-IsSound signal h = record { agrees = ground arith; asked = ground arith }
Outside-IsSound (shutdown_returned failure at) h = record {
  agrees = ground arith;
  asked = ground arith;
}

Reach-IsSound : {s : Server} → Reach s → IsSound s
Reach-IsSound start = record { agrees = (tt, refl, refl); asked = tt }
Reach-IsSound (move r m) = Move-IsSound m (Reach-IsSound r)
Reach-IsSound (outside r e) = Outside-IsSound e (Reach-IsSound r)

-- Why the wait ended as it did.
abbrev pub IsDue : Server → ServerEnd → Type 0
IsDue s signalled = s.is_signalled ≡ true
IsDue s (server_failed e) = listened s.listener ≡ some (some e)
IsDue s server_closed = listened s.listener ≡ some none

why_returned :
    (end : ServerEnd) (failure : Option GoError) (s : Server)
    → s.waiter ≡ returned end failure
    → IsSound s
    → IsDue s end
why_returned signalled failure s at h = ground arith
why_returned (server_failed e) failure s at h = ground arith
why_returned server_closed failure s at h = ground arith

-- The errors of run's end are those of the step that the select was left by.
run_result-after_listen :
    {W : Type 0} (system : System W) (cfg : Config) (x : Running W) (end : ServerEnd)
    (failure : Option GoError)
    → (system.shutdown x.world).0 ≡ failure
    → run_result (returned end failure) ≡ some (after_listen system cfg (end, x)).0
unfolding after_listen opening Run.shut_down
run_result-after_listen system cfg x end failure h = ground (arith, h)

kept :
    (end : ServerEnd) (failure : Option GoError) (s : Server) (e : GoError)
    → s.waiter ≡ returned end failure
    → IsDue s end
    → listened s.listener ≡ some (some e)
    → (s.is_signalled ≡ true) ⊎ (run_result s.waiter ≡ some (some e))
kept signalled failure s e at due failed = inl due
kept (server_failed d) failure s e at due failed = inr (rw at (cc (due, failed)))
kept server_closed failure s e at due failed = absurd (cc (due, failed))

-- In every interleaving of the goroutine, the signals and the select, run ends after a signal, or with
-- the error of ListenAndServe, or because that returned ErrServerClosed; it returns what `after_listen`
-- returns for that end; and the error of ListenAndServe is lost only where a signal came.
pub returned_lem :
    {W : Type 0} (system : System W) (cfg : Config) (x : Running W) (s : Server) (end : ServerEnd)
    (failure : Option GoError)
    → Reach s
    → s.waiter ≡ returned end failure
    → (system.shutdown x.world).0 ≡ failure
    → IsDue s end
      × (run_result s.waiter ≡ some (after_listen system cfg (end, x)).0)
      × ((e : GoError)
          → listened s.listener ≡ some (some e)
          → (s.is_signalled ≡ true) ⊎ (run_result s.waiter ≡ some (some e)))
returned_lem system cfg x s end failure r at h =
    let sound = Reach-IsSound r in
    let due = why_returned end failure s at sound in
    (
      due,
      ap run_result at ∙ run_result-after_listen system cfg x end failure h,
      λ e failed. kept end failure s e at due failed,
    )

-- The rest of a run by the statements of the program alone.
pub data Moves : Server → Server → Type 0 where
  stay : {s : Server} → Moves s s
  next : {s t u : Server} → Move s t → Moves t u → Moves s u

-- The goroutine has ended, and run is past the select.
pub record IsSettled (r : Option GoError) (s : Server) : Type 0 where
  pub done : s.listener ≡ finished r
  pub past : s.waiter ≢ waiting

abbrev CanSettle : Option GoError → Server → Type 0
CanSettle r s = (t : Server) × Moves s t × IsSettled r t

waiter_cases : (w : Waiter) → (w ≡ waiting) ⊎ (w ≢ waiting)
waiter_cases waiting = inl refl
waiter_cases stopping = inr (λ e. cc e)
waiter_cases (returned end failure) = inr (λ e. cc e)

settles_finished :
    (r : Option GoError) (s : Server) → s.listener ≡ finished r → IsSound s → CanSettle r s
settles_finished none s at h = elim (waiter_cases s.waiter) [
  | inr past ↦ (s, stay, record { done = at; past = past })
  | inl w ↦
      let open_end : (s.buffer ≡ none) × (s.is_closed ≡ true) = ground arith in
      (_, next (take_close w open_end.0 open_end.1) stay, record { done = at; past = λ e. cc e })
]
settles_finished (some e) s at h = elim (waiter_cases s.waiter) [
  | inr past ↦ (s, stay, record { done = at; past = past })
  | inl w ↦
      let held : s.buffer ≡ some e = ground arith in
      (_, next (take_error e w held) stay, record { done = at; past = λ d. cc d })
]

settles_closing :
    (r : Option GoError) (s : Server) → s.listener ≡ closing r → IsSound s → CanSettle r s
settles_closing r s at h =
    let m = finish r at in
    let (t, rest, settled) = settles_finished r _ refl (Move-IsSound m h) in
    (t, next m rest, settled)

settles_from :
    (l : Listener) (r : Option GoError) (s : Server)
    → s.listener ≡ l
    → listened l ≡ some r
    → IsSound s
    → CanSettle r s
settles_from listening r s at back h = absurd (cc back)
settles_from (sending e) r s at back h =
    let empty : s.buffer ≡ none = ground arith in
    let m = report e at empty in
    let (t, rest, settled) = settles_closing (some e) _ refl (Move-IsSound m h) in
    (t, next m rest, record { done = cc (settled.done, back); past = settled.past })
settles_from (closing q) r s at back h = settles_closing r s (cc (at, back)) h
settles_from (finished q) r s at back h = settles_finished r s (cc (at, back)) h

-- The statements that are left at most: of the goroutine after ListenAndServe, and of the select.
abbrev left_to_send : Listener → ℕ
left_to_send (sending e) = 2
left_to_send (closing r) = 1
left_to_send l = 0

abbrev left_to_take : Waiter → ℕ
left_to_take waiting = 1
left_to_take w = 0

abbrev pub remaining : Server → ℕ
remaining s = left_to_send s.listener + left_to_take s.waiter

Move-remaining : {s t : Server} → Move s t → remaining s ≡ suc (remaining t)
Move-remaining (report e at empty) = ground arith
Move-remaining (finish r at) = ground arith
Move-remaining (take_signal at came) = ground arith
Move-remaining (take_error e at held) = ground arith
Move-remaining (take_close at empty shut) = ground arith

-- In every interleaving, once ListenAndServe has returned, the statements of the program can go on until
-- the goroutine has ended and run is past the select, with no further signal and nothing that blocks;
-- and each statement, in whatever order, leaves fewer of them.
pub settles :
    (s : Server) (r : Option GoError)
    → Reach s
    → listened s.listener ≡ some r
    → ((t : Server) × Moves s t × IsSettled r t)
      × ((t : Server) → Move s t → remaining t < remaining s)
settles s r reached back = (
  settles_from s.listener r s refl back (Reach-IsSound reached),
  λ t m. omega (arith, Move-remaining m),
)
