-- ===== src/Workers/Config.antt =====
-- poolConfig of internal/wokers/worker_pool.go and its options.
use my_dfs.Common.{ℕ, List, [], ◌∷◌}

pub record PoolConfig : Type 0 where
  pub min_workers : ℕ
  pub max_workers : ℕ
  pub max_retries : ℕ
  pub retry_delay : ℕ
  pub buffer_size : ℕ
  pub shutdown_timeout : ℕ

-- Delays in milliseconds.
abbrev pub default_pool_config : PoolConfig
default_pool_config = record {
  min_workers = 3;
  max_workers = 6;
  max_retries = 3;
  retry_delay = 2000;
  buffer_size = 6;
  shutdown_timeout = 7000;
}

abbrev pub with_min_workers : ℕ → PoolConfig → PoolConfig
with_min_workers n c = record c { min_workers = n }

abbrev pub with_max_workers : ℕ → PoolConfig → PoolConfig
with_max_workers n c = record c { max_workers = n }

abbrev pub with_max_retries : ℕ → PoolConfig → PoolConfig
with_max_retries n c = record c { max_retries = n }

abbrev pub with_retry_delay : ℕ → PoolConfig → PoolConfig
with_retry_delay n c = record c { retry_delay = n }

abbrev pub with_buffer_size : ℕ → PoolConfig → PoolConfig
with_buffer_size n c = record c { buffer_size = n }

abbrev pub with_shutdown_timeout : ℕ → PoolConfig → PoolConfig
with_shutdown_timeout n c = record c { shutdown_timeout = n }

abbrev pub configure : List (PoolConfig → PoolConfig) → PoolConfig → PoolConfig
configure [] c = c
configure (opt ∷ opts) c = configure opts (opt c)
