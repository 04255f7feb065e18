-- ===== src/Client/Config/Workers.antt =====
-- The pools that NewClient of internal/client/client.go makes.
use my_dfs.Common.{ℕ, ◌≤◌, ◌≡◌, inl, inr, Bool, some, List, arith, ok}
use my_dfs.Workers.Pool.{PoolState, new_pool, Reach}
use my_dfs.Workers.Pool.Bounds.{live, Reach-Counts}
use my_dfs.Transport.Pool.Opening.{open_pool, new_tcp_pool-Opens}
use my_dfs.Client.Config.{
  TransferConfig, ClientConfig, Client, apply_options, default_client, worker_config, new_client,
}

-- In every state that a worker pool of the client can reach, it has at most the configured number of
-- workers.
pub live-worker_config :
    (t : TransferConfig) (s : PoolState)
    → Reach (worker_config t) (new_pool (worker_config t)) s
    → live s ≤ t.workers
unfolding worker_config
live-worker_config t s r =
    let (_, _, _, bounded) = Reach-Counts (worker_config t) r in omega (arith, bounded)

-- If NewClient returns a client, its connection pool is open and queues the configured number of
-- connections, which is at most five.
pub new_client-open :
    (dial : ℕ → Bool) (opts : List (ClientConfig → ClientConfig)) (client : Client)
    → new_client dial opts ≡ some (ok client)
    → (client.config.transport_config.connections ≤ 5)
      × (client.conn_pool ≡ open_pool client.config.transport_config.connections)
unfolding new_client
new_client-open dial opts client made =
    let c = apply_options opts default_client in
    let n = c.transport_config.connections in
    elim (new_tcp_pool-Opens n dial) [
      | inl (many, waits) ↦ absurd (ground (arith, made, waits))
      | inr (inl (few, all, opened)) ↦ ground (arith, made, few, all, opened)
      | inr (inr (few, missing, p, failed, shut)) ↦ absurd (ground (arith, made, failed))
    ]
