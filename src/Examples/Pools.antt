-- ===== src/Examples/Pools.antt =====
-- A connection pool with one connection, and a pool that is asked for too many.
use my_dfs.Common.{ℕ, ◌≡◌, refl, Bool, true, false, ◌⊎◌, [], ◌∷◌, arith}
use my_dfs.Transport.Pool.{
  new_tcp_pool, outcomes, with_max_conn, default_pool, fill, create_new_connection, take_conn, put,
  close_pool, drain_one, close_conn,
}
use my_dfs.Transport.Pool.Accounts.{
  Usage, Step, opened, taken, returned, shut, drained, OnlyDrains, still, stepped, fresh,
  IsAccounted, Reach-IsAccounted,
}
use my_dfs.Transport.Pool.Opening.{Opens, successes, new_tcp_pool-Opens}
use my_dfs.Transport.Health.{perform_health_check}
use my_dfs.Transport.Health.Pings.{server, perform_health_check-handle}
use my_dfs.Examples.Samples.{meta_codec}
use my_dfs.Examples.Servers.{with_a}
use my_dfs.Examples.Requests.{metastore, name_of}

abbrev one_open : Usage
one_open = record {
  pool = record (with_max_conn 1 default_pool) { queue = 0 ∷ []; next = 1 };
  held = [];
  lost = [];
}

abbrev one_held : Usage
one_held = record {
  pool = record (with_max_conn 1 default_pool) { next = 1 };
  held = 0 ∷ [];
  lost = [];
}

was_opened : Step (fresh 1) one_open
unfolding fill create_new_connection with_max_conn
was_opened = opened refl refl refl

was_taken : Step one_open one_held
unfolding take_conn with_max_conn
was_taken = taken true true 0 refl refl refl

was_returned : Step one_held one_open
unfolding put with_max_conn
was_returned = returned 0 [] [] refl refl refl refl

abbrev one_shut : Usage
one_shut = record one_open { pool = record one_open.pool { is_closed = true } }

abbrev none_left : Usage
none_left = record one_open {
  pool = record one_open.pool { queue = []; is_closed = true; closed = 0 ∷ [] };
}

was_shut : Step one_open one_shut
unfolding close_pool with_max_conn
was_shut = shut refl refl refl

was_drained : Step one_shut none_left
unfolding drain_one close_conn with_max_conn
was_drained = drained refl refl refl refl

Reach-IsAccounted_example :
    IsAccounted none_left
    × ((one_shut.pool.is_closed ≡ false) ⊎ OnlyDrains one_shut.pool none_left.pool)
Reach-IsAccounted_example =
    Reach-IsAccounted 1
      (stepped (stepped (stepped (stepped still was_opened) was_taken) was_returned) was_shut)
      (stepped still was_drained)

abbrev always : ℕ → Bool
always i = true

new_tcp_pool-Opens_example :
    Opens 6 (successes (outcomes 6 0 always)) (new_tcp_pool always (with_max_conn 6 default_pool))
new_tcp_pool-Opens_example = new_tcp_pool-Opens 6 always

ping_answered : perform_health_check 12 (server metastore meta_codec name_of [] 100 with_a) ≡ true
ping_answered =
    perform_health_check-handle metastore meta_codec name_of [] 12 100 with_a (omega arith)
      (omega arith)
