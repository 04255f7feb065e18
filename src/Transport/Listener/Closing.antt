-- ===== src/Transport/Listener/Closing.antt =====
-- When Close of internal/transport/tcp_transport.go has waited for the goroutines.
use my_dfs.Common.{
  ℕ, ◌+◌, ◌≡◌, refl, List, [], ◌∷◌, arith, ltb, if◌then◌else◌, length, length-append, nil_of_length,
  occurrences, occurrences-append,
}
use my_dfs.Transport.Listener.{
  Acceptor, checking, accepting, offering, acceptor_ended, Dispatcher, waiting, dispatcher_ended,
  starting, Listener, Step, saw_shutdown, called_accept, accepted, accept_failed, dropped, received,
  started, dispatcher_stopped, handled, done, Reach, listening, stepped,
}

abbrev pub offered : Acceptor → List ℕ
offered checking = []
offered accepting = []
offered (offering conn) = conn ∷ []
offered acceptor_ended = []

abbrev pub received_by : Dispatcher → List ℕ
received_by waiting = []
received_by (starting conn) = conn ∷ []
received_by dispatcher_ended = []

abbrev pub acceptors : Acceptor → ℕ
acceptors checking = 1
acceptors accepting = 1
acceptors (offering conn) = 1
acceptors acceptor_ended = 0

-- The dispatcher, with the goroutine that it is about to start.
abbrev pub dispatchers : Dispatcher → ℕ
dispatchers waiting = 1
dispatchers (starting conn) = 2
dispatchers dispatcher_ended = 0

abbrev pub places : ℕ → Listener → ℕ
places i s =
    occurrences i (offered s.acceptor)
    + occurrences i (received_by s.dispatcher)
    + occurrences i s.handling
    + occurrences i s.closed

abbrev pub Waits : Listener → Type 0
Waits s = s.wg ≡ acceptors s.acceptor + dispatchers s.dispatcher + length s.handling + s.ending

Step-places :
    {s t : Listener} (i : ℕ)
    → Step s t
    → places i s ≡ (if ltb i s.next then 1 else 0)
    → places i t ≡ (if ltb i t.next then 1 else 0)
Step-places i (saw_shutdown e f) a = ground arith
Step-places i (called_accept e f) a = ground arith
Step-places i (accepted e) a = ground arith
Step-places i (accept_failed e) a = ground arith
Step-places i (dropped conn e f) a = ground arith
Step-places i (received conn e f) a = ground arith
Step-places i (started conn e) a = ground arith
Step-places i (dispatcher_stopped e f) a = ground arith
Step-places {s} i (handled conn front back e) a =
    ground (arith, occurrences-append i front (conn ∷ back), occurrences-append i front back)
Step-places i _ a = a

Step-Waits : {s t : Listener} → Step s t → Waits s → Waits t
Step-Waits (saw_shutdown e f) a = ground arith
Step-Waits (called_accept e f) a = ground arith
Step-Waits (accepted e) a = ground arith
Step-Waits (accept_failed e) a = ground arith
Step-Waits (dropped conn e f) a = ground arith
Step-Waits (received conn e f) a = ground arith
Step-Waits (started conn e) a = ground arith
Step-Waits (dispatcher_stopped e f) a = ground arith
Step-Waits {s} (handled conn front back e) a =
    ground (arith, length-append front (conn ∷ back), length-append front back)
Step-Waits (done e) a = ground arith
Step-Waits _ a = a

Reach-places : {s : Listener} (i : ℕ) → Reach s → places i s ≡ (if ltb i s.next then 1 else 0)
Reach-places i listening = ground arith
Reach-places i (stepped r st) = Step-places i st (Reach-places i r)

Reach-Waits : {s : Listener} → Reach s → Waits s
Reach-Waits listening = refl
Reach-Waits (stepped r st) = Step-Waits st (Reach-Waits r)

-- In every state that a TCPTransport can reach, by any interleaving of its goroutines with Close,
-- if the wait group is at zero, as it is when Close has waited for it, then each connection that
-- was accepted is closed, and was closed just once.
pub closed_once :
    (s : Listener)
    → Reach s
    → s.wg ≡ 0
    → (i : ℕ) → occurrences i s.closed ≡ (if ltb i s.next then 1 else 0)
closed_once s r none_left i =
    let none_handled = nil_of_length s.handling (ground (arith, Reach-Waits r, none_left)) in
    ground (arith, Reach-places i r, Reach-Waits r, none_left, none_handled)
