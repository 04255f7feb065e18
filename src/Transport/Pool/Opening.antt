-- ===== src/Transport/Pool/Opening.antt =====
-- What NewTCPPool of internal/transport/tcp_pool.go returns, by the outcomes of its dials.
use my_dfs.Common.{
  ℕ, zero, suc, ◌+◌, ◌≤◌, ◌<◌, ◌≡◌, refl, ◌∙◌, ◌⊎◌, inl, inr, Bool, true, false, Option, none, some,
  List, [], ◌∷◌, ◌++◌, append-nil, append_assoc, arith, ltb, leb, ◌==◌, if◌then◌else◌, ltb→lt,
  Bool-cases, Result, ok, err, length, length-append, occurrences,
}
use my_dfs.Transport.Pool.{
  Pool, PoolError, tcp_accept, create_new_connection, close_conn, close_all, close_and_drain, fill,
  all_dialed, outcomes, new_tcp_pool, with_max_conn, default_pool,
}

unfoldable pub successes : List Bool → ℕ
successes [] = 0
successes (dialed ∷ ds) = let rest = successes ds in if dialed then rest + 1 else rest

-- The numbers of `n` connections that are dialed one after the other.
unfoldable pub numbered : ℕ → ℕ → List ℕ
numbered zero i = []
numbered (suc n) i = i ∷ numbered n (i + 1)

abbrev pub filled_with : ℕ → Pool → Pool
filled_with n p = record p { queue = p.queue ++ numbered n p.next; next = p.next + n }

fill-fits :
    (ds : List Bool) (p : Pool)
    → p.is_closed ≡ false
    → length p.queue + successes ds ≤ p.capacity
    → fill ds p ≡ some (filled_with (successes ds) p)
unfolding fill create_new_connection successes numbered
fill-fits [] p o h = ground (arith, append-nil p.queue)
fill-fits (false ∷ ds) p o h = ground (arith, o, fill-fits ds p)
fill-fits (true ∷ ds) p o h =
    let more : Pool = record p { queue = p.queue ++ (p.next ∷ []); next = p.next + 1 } in
    let long = length-append p.queue (p.next ∷ []) in
    ground (
      arith,
      long,
      fill-fits ds more o (omega (arith, long)),
      append_assoc p.queue (p.next ∷ []) (numbered (successes ds) (p.next + 1)),
    )

fill-blocks :
    (ds : List Bool) (p : Pool)
    → p.is_closed ≡ false
    → length p.queue ≤ p.capacity
    → p.capacity < length p.queue + successes ds
    → fill ds p ≡ none
unfolding fill create_new_connection successes
fill-blocks [] p o h k = absurd (omega arith)
fill-blocks (false ∷ ds) p o h k = ground (arith, o, fill-blocks ds p)
fill-blocks (true ∷ ds) p o h k =
    let more : Pool = record p { queue = p.queue ++ (p.next ∷ []); next = p.next + 1 } in
    ground (arith, length-append p.queue (p.next ∷ []), fill-blocks ds more o)

all_dialed-successes :
    (ds : List Bool) → (successes ds ≤ length ds) × (all_dialed ds ≡ (successes ds == length ds))
unfolding successes all_dialed
all_dialed-successes [] = (omega arith, ground arith)
all_dialed-successes (dialed ∷ ds) = let (a, b) = all_dialed-successes ds in ground (arith, a, b)

length-outcomes : (n i : ℕ) (dial : ℕ → Bool) → length (outcomes n i dial) ≡ n
unfolding outcomes
length-outcomes zero i dial = refl
length-outcomes (suc n) i dial = omega (arith, length-outcomes n (i + 1) dial)

occurrences-numbered :
    (a n i : ℕ)
    → occurrences a (numbered n i) ≡ (if leb i a then if ltb a (i + n) then 1 else 0 else 0)
unfolding numbered
occurrences-numbered a zero i = ground arith
occurrences-numbered a (suc n) i = ground (arith, occurrences-numbered a n (i + 1))

close_all_lem :
    (cs : List ℕ) (p : Pool) (i : ℕ)
    → ((close_all cs p).is_closed ≡ p.is_closed)
      × ((close_all cs p).queue ≡ p.queue)
      × (occurrences i (close_all cs p).closed ≡ occurrences i cs + occurrences i p.closed)
unfolding close_all close_conn
close_all_lem [] p i = (refl, refl, omega arith)
close_all_lem (c ∷ cs) p i =
    let (a, b, d) = close_all_lem cs (close_conn c p) i in (a, b, ground (arith, d))

-- What NewTCPPool leaves where all of its dials succeed.
abbrev pub open_pool : ℕ → Pool
open_pool n = record default_pool { max_conn = n; queue = numbered n 0; next = n }

-- The pool is closed, and so are the first `n` connections, each once.
abbrev pub IsShut : ℕ → Pool → Type 0
IsShut n p =
    (p.is_closed ≡ true)
    × (p.queue ≡ [])
    × ((i : ℕ) → occurrences i p.closed ≡ (if ltb i n then 1 else 0))

-- The result, where `n` of `max_conn` dials succeed.
abbrev pub Opens : ℕ → ℕ → Option (Pool × Result PoolError (Unit {0})) → Type 0
Opens max_conn n r =
    ((5 < n) × (r ≡ none))
    ⊎ (((n ≤ 5) × (n ≡ max_conn) × (r ≡ some (open_pool n, ok tt)))
        ⊎ ((n ≤ 5) × (n < max_conn) × (p : Pool) × (r ≡ some (p, err tcp_accept)) × IsShut n p))

-- Take the outcomes of the dials of NewTCPPool, in any order. If more than five succeed, it waits
-- for ever. If at most five succeed and all did, it returns an open pool that queues them all; if
-- one failed, it returns the error, and the pool is closed, its queue empty and each of its
-- connections closed once.
pub new_tcp_pool-Opens :
    (max_conn : ℕ) (dial : ℕ → Bool)
    → Opens max_conn
        (successes (outcomes max_conn 0 dial))
        (new_tcp_pool dial (with_max_conn max_conn default_pool))
unfolding new_tcp_pool with_max_conn close_and_drain
new_tcp_pool-Opens max_conn dial =
    let dials = outcomes max_conn 0 dial in
    let n = successes dials in
    let p = with_max_conn max_conn default_pool in
    let (few, all) = all_dialed-successes dials in
    let long = length-outcomes max_conn 0 dial in
    let filled = fill-fits dials p refl in
    let drained : Pool =
      close_all (numbered n 0)
        (record (open_pool n) { is_closed = true; queue = []; max_conn = max_conn }) in
    elim (Bool-cases (ltb 5 n)) [
      | inl many ↦
          let big = ltb→lt 5 n many in
          inl (big, ground (arith, fill-blocks dials p refl (omega arith) (omega arith)))
      | inr fits ↦
          let small : n ≤ 5 = ground (arith, fits) in
          elim (Bool-cases (n == max_conn)) [
            | inl every ↦ inr (
                inl (
                  small,
                  ground (arith, every),
                  ground (arith, filled (omega arith), all, long, every),
                ))
            | inr some_failed ↦ inr (
                inr (
                  small,
                  ground (arith, some_failed, few, long),
                  drained,
                  ground (arith, filled (omega arith), all, long, some_failed),
                  (
                    (close_all_lem (numbered n 0) _ 0).0,
                    (close_all_lem (numbered n 0) _ 0).1,
                    λ i.
                        (close_all_lem (numbered n 0) _ i).2
                        ∙ ground (arith, occurrences-numbered i n 0),
                  ),
                ))
          ]
    ]
