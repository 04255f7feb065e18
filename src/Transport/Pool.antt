-- ===== src/Transport/Pool.antt =====
-- TCPPool of internal/transport/tcp_pool.go. Connections are numbered as they are dialed. The outcome
-- of a dial and of a health check on a pooled connection is left open, as a Boolean. The channel is a
-- queue with a capacity; the lock makes every part that holds it one step.
pub mod Accounts
pub mod Opening
use my_dfs.Common.{
  ℕ, zero, suc, ◌+◌, ◌-◌, ◌*◌, ◌/◌, ◌%◌, ◌^◌, ◌≤◌, ◌<◌, min, max, ◌≡◌, refl, sym, ap, ◌∙◌, subst,
  ◌≡⟨◌⟩◌, ◌∎, ◌≢◌, ◌↔◌, ◌⊎◌, inl, inr, Bool, true, false, ◌&&◌, ◌||◌, not, Option, none, some, List,
  [], ◌∷◌, ◌++◌, map, append-nil, append_assoc, arith, ltb, leb, ◌==◌, if◌then◌else◌, ltb→lt,
  lt→ltb, le→ltb, leb→le, le→leb, lt→leb, ==_iff, ==_refl, tests, Bool-cases, Option-cases, Result,
  ok, err, ◌>>=◌, ◌>>◌, or_fail, Result-cases, Codec, length, get_elem?, take, drop, replicate, All,
  length-append, take-append-drop, length-take, length-drop, take_all, drop_all, take-append,
  drop-append, All-append, nil_of_length,
}

pub data PoolError : Type 0 where
  tcp_accept pool_closed : PoolError

-- `capacity` is that of the channel, `closed` are the connections on which Close was called, `next` the
-- number of the next connection.
pub record Pool : Type 0 where
  pub max_conn : ℕ
  pub capacity : ℕ
  pub queue : List ℕ
  pub is_closed : Bool
  pub closed : List ℕ
  pub next : ℕ

-- defaultTCPPoolConfig, and the channel that NewTCPPool makes before it applies the options.
abbrev pub default_pool : Pool
default_pool = record {
  max_conn = 5;
  capacity = 5;
  queue = [];
  is_closed = false;
  closed = [];
  next = 0;
}

-- WithMaxConn
unfoldable pub with_max_conn : ℕ → Pool → Pool
with_max_conn n p = record p { max_conn = n }

-- createNewConnection
unfoldable pub create_new_connection : Bool → Pool → Pool × Result PoolError ℕ
create_new_connection dialed p =
    if dialed then (record p { next = p.next + 1 }, ok p.next) else (p, err tcp_accept)

unfoldable pub close_conn : ℕ → Pool → Pool
close_conn c p = record p { closed = c ∷ p.closed }

-- The receive of Get, once the test of isClosed is passed; the pool may have been closed since.
unfoldable pub take_conn : Bool → Bool → Pool → Pool × Result PoolError ℕ
take_conn dialed healthy p = elim p.queue [
  | [] ↦ if p.is_closed then (p, err pool_closed) else create_new_connection dialed p
  | c ∷ cs ↦
      let taken = record p { queue = cs } in
      if healthy then (taken, ok c) else create_new_connection dialed (close_conn c taken)
]

-- Get with no other call between its two parts.
unfoldable pub get : Bool → Bool → Pool → Pool × Result PoolError ℕ
get dialed healthy p = if p.is_closed then (p, err pool_closed) else take_conn dialed healthy p

-- Put: a closed pool does not close the connection.
unfoldable pub put : ℕ → Pool → Pool
put c p =
    if p.is_closed
    then p
    else if ltb (length p.queue) p.capacity
    then record p { queue = p.queue ++ (c ∷ []) }
    else close_conn c p

-- ClosePool up to the goroutine that drains the channel.
unfoldable pub close_pool : Pool → Pool
close_pool p = record p { is_closed = true }

-- One round of that goroutine.
unfoldable pub drain_one : Pool → Pool
drain_one p = elim p.queue [ [] ↦ p | c ∷ cs ↦ close_conn c (record p { queue = cs }) ]

unfoldable pub close_all : List ℕ → Pool → Pool
close_all [] p = p
close_all (c ∷ cs) p = close_all cs (close_conn c p)

-- ClosePool with the goroutine run to its end.
unfoldable pub close_and_drain : Pool → Pool
close_and_drain p =
    if p.is_closed then p else close_all p.queue (record p { is_closed = true; queue = [] })

-- The goroutines of NewTCPPool, in the order in which their dials end. One that has a connection closes
-- it if the pool is closed, and else sends it to the channel with the lock held: `none` is a send that
-- waits for ever, as nobody receives.
unfoldable pub fill : List Bool → Pool → Option Pool
fill [] p = some p
fill (dialed ∷ ds) p =
    let (p', made) = create_new_connection dialed p in
    let next : Option Pool = elim made [
      | err _ ↦ fill ds p'
      | ok c ↦
          let refused = fill ds (close_conn c p') in
          let sent = fill ds (record p' { queue = p'.queue ++ (c ∷ []) }) in
          if p'.is_closed then refused else if ltb (length p'.queue) p'.capacity then sent else none
    ] in
    next

unfoldable pub all_dialed : List Bool → Bool
all_dialed [] = true
all_dialed (dialed ∷ ds) = dialed && all_dialed ds

unfoldable pub outcomes : ℕ → ℕ → (ℕ → Bool) → List Bool
outcomes zero i dial = []
outcomes (suc n) i dial = dial i ∷ outcomes n (i + 1) dial

-- NewTCPPool: `dial i` tells whether the dial that is the i-th to end succeeds.
unfoldable pub new_tcp_pool : (ℕ → Bool) → Pool → Option (Pool × Result PoolError (Unit {0}))
new_tcp_pool dial p =
    let dials = outcomes p.max_conn 0 dial in
    elim (fill dials p) [
      | none ↦ none
      | some filled ↦
          some
            (if all_dialed dials then (filled, ok tt) else (close_and_drain filled, err tcp_accept))
    ]
