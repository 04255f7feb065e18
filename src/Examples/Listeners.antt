-- ===== src/Examples/Listeners.antt =====
-- A server that accepts one connection and is closed.
use my_dfs.Common.{◌≡◌, refl, true, [], ◌∷◌, arith, occurrences}
use my_dfs.Transport.Listener.{
  Listener, listen, acceptor_ended, dispatcher_ended, called_accept, accepted, received, started,
  handled, shut_down, saw_shutdown, dispatcher_stopped, done, Reach, listening, stepped,
}
use my_dfs.Transport.Listener.Closing.{closed_once}

abbrev ended : Listener
ended = record listen {
  next = 1;
  acceptor = acceptor_ended;
  dispatcher = dispatcher_ended;
  closed = 0 ∷ [];
  wg = 0;
  shutdown = true;
}

one_handled : Reach (record listen { next = 1; closed = 0 ∷ [] })
one_handled =
    stepped
      (stepped
        (stepped
          (stepped (stepped (stepped listening (called_accept refl refl)) (accepted refl))
            (received 0 refl refl))
          (started 0 refl))
        (handled 0 [] [] refl))
      (done (omega arith))

ended-Reach : Reach ended
ended-Reach =
    stepped
      (stepped
        (stepped (stepped (stepped one_handled shut_down) (saw_shutdown refl refl))
          (dispatcher_stopped refl refl))
        (done (omega arith)))
      (done (omega arith))

closed_once_example : occurrences 0 (0 ∷ []) ≡ 1
closed_once_example = closed_once ended ended-Reach refl 0
