-- ===== src/Transport/Listener.antt =====
-- TCPTransport of internal/transport/tcp_transport.go with its goroutines. Connections are numbered as
-- they are accepted. What the handler does with a connection is left open; it may end at any time.
pub mod Closing
use my_dfs.Common.{
  ℕ, zero, suc, ◌+◌, ◌-◌, ◌*◌, ◌/◌, ◌%◌, ◌^◌, ◌≤◌, ◌<◌, min, max, ◌≡◌, refl, sym, ap, ◌∙◌, subst,
  ◌≡⟨◌⟩◌, ◌∎, ◌≢◌, ◌↔◌, ◌⊎◌, inl, inr, Bool, true, false, ◌&&◌, ◌||◌, not, Option, none, some, List,
  [], ◌∷◌, ◌++◌, map, append-nil, append_assoc, arith, ltb, leb, ◌==◌, if◌then◌else◌, ltb→lt,
  lt→ltb, le→ltb, leb→le, le→leb, lt→leb, ==_iff, ==_refl, tests, Bool-cases, Option-cases, Result,
  ok, err, ◌>>=◌, ◌>>◌, or_fail, Result-cases, Codec, length, get_elem?, take, drop, replicate, All,
  length-append, take-append-drop, length-take, length-drop, take_all, drop_all, take-append,
  drop-append, All-append, nil_of_length, occurrences, occurrences-append, get_elem?-append,
  get_elem?-take, get_elem?-drop, get_elem?-some, get_elem?-here, get_elem?-ext, All-imp, All-both,
}

-- acceptConnections: at its select, in Accept, in the send of a connection, behind it, or ended.
pub data Acceptor : Type 0 where
  checking accepting : Acceptor
  offering : ℕ → Acceptor
  acceptor_ended : Acceptor

-- handleConnections: at its select, or between wg.Add and the start of the connection's goroutine.
pub data Dispatcher : Type 0 where
  waiting dispatcher_ended : Dispatcher
  starting : ℕ → Dispatcher

-- `handling` are the connections in their handlers, `closed` those on which Close was called, and
-- `ending` the goroutines that have returned and not yet called wg.Done.
pub record Listener : Type 0 where
  pub next : ℕ
  pub acceptor : Acceptor
  pub dispatcher : Dispatcher
  pub handling : List ℕ
  pub closed : List ℕ
  pub ending : ℕ
  pub wg : ℕ
  pub shutdown : Bool

-- Listen, where the port can be listened on.
abbrev pub listen : Listener
listen = record {
  next = 0;
  acceptor = checking;
  dispatcher = waiting;
  handling = [];
  closed = [];
  ending = 0;
  wg = 2;
  shutdown = false;
}

pub data Step (s : Listener) : Listener → Type 0 where
  -- acceptConnections
  saw_shutdown :
      s.acceptor ≡ checking
      → s.shutdown ≡ true
      → Step s (record s { acceptor = acceptor_ended; ending = s.ending + 1 })
  called_accept :
      s.acceptor ≡ checking → s.shutdown ≡ false → Step s (record s { acceptor = accepting })
  accepted :
      s.acceptor ≡ accepting → Step s (record s { acceptor = offering s.next; next = s.next + 1 })
  accept_failed :
      s.acceptor ≡ accepting
      → Step s (record s { acceptor = acceptor_ended; ending = s.ending + 1 })
  dropped :
      (conn : ℕ)
      → s.acceptor ≡ offering conn
      → s.shutdown ≡ true
      → Step s
          (record s { acceptor = acceptor_ended; closed = conn ∷ s.closed; ending = s.ending + 1 })
  -- handleConnections
  received :
      (conn : ℕ)
      → s.acceptor ≡ offering conn
      → s.dispatcher ≡ waiting
      → Step s (record s { acceptor = checking; dispatcher = starting conn; wg = s.wg + 1 })
  started :
      (conn : ℕ)
      → s.dispatcher ≡ starting conn
      → Step s (record s { dispatcher = waiting; handling = conn ∷ s.handling })
  dispatcher_stopped :
      s.dispatcher ≡ waiting
      → s.shutdown ≡ true
      → Step s (record s { dispatcher = dispatcher_ended; ending = s.ending + 1 })
  -- handleConnection
  handled :
      (conn : ℕ) (front back : List ℕ)
      → s.handling ≡ front ++ (conn ∷ back)
      → Step s
          (record s { handling = front ++ back; closed = conn ∷ s.closed; ending = s.ending + 1 })
  -- the deferred wg.Done, and Close up to its wait
  done : 0 < s.ending → Step s (record s { ending = s.ending - 1; wg = s.wg - 1 })
  shut_down : Step s (record s { shutdown = true })

pub data Reach : Listener → Type 0 where
  listening : Reach listen
  stepped : {before after : Listener} → Reach before → Step before after → Reach after
