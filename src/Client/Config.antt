-- ===== src/Client/Config.antt =====
-- The configuration of the client in internal/client/client.go: the options and NewClient. Times are in
-- milliseconds, and counts are not negative; the options for the protocol, the hasher and the encoder
-- replace parameters.
pub mod Workers
use my_dfs.Common.{
  ℕ, zero, suc, ◌+◌, ◌-◌, ◌*◌, ◌/◌, ◌%◌, ◌^◌, ◌≤◌, ◌<◌, min, max, ◌≡◌, refl, sym, ap, ◌∙◌, subst,
  ◌≡⟨◌⟩◌, ◌∎, ◌≢◌, ◌↔◌, ◌⊎◌, inl, inr, Bool, true, false, ◌&&◌, ◌||◌, not, Option, none, some, List,
  [], ◌∷◌, ◌++◌, map, append-nil, append_assoc, arith, ltb, leb, ◌==◌, if◌then◌else◌, ltb→lt,
  lt→ltb, le→ltb, leb→le, le→leb, lt→leb, ==_iff, ==_refl, tests, Bool-cases, Option-cases, Result,
  ok, err, ◌>>=◌, ◌>>◌, or_fail, Result-cases, Codec, length, get_elem?, take, drop, replicate, All,
  length-append, take-append-drop, length-take, length-drop, take_all, drop_all, take-append,
  drop-append, All-append, nil_of_length, occurrences, occurrences-append, get_elem?-append,
  get_elem?-take, get_elem?-drop, get_elem?-some, get_elem?-here, get_elem?-ext, All-imp, All-both,
}
use my_dfs.Workers.Config.{
  PoolConfig, default_pool_config, with_min_workers, with_max_workers, with_max_retries,
  with_retry_delay, with_buffer_size, with_shutdown_timeout, configure,
}
use my_dfs.Workers.Pool.{PoolState, new_pool}
use my_dfs.Transport.Pool.{Pool, PoolError, default_pool, with_max_conn, new_tcp_pool}

-- readConfig and writeConfig.
pub record TransferConfig : Type 0 where
  pub workers : ℕ
  pub timeout : ℕ
  pub max_retries : ℕ
  pub retry_delay : ℕ
  pub shutdown_timeout : ℕ

pub record TransportConfig : Type 0 where
  pub connections : ℕ
  pub dial_timeout : ℕ
  pub health_check_timeout : ℕ
  pub shutdown_timeout : ℕ

pub record ClientConfig : Type 0 where
  pub shutdown_timeout : ℕ
  pub read_config : TransferConfig
  pub write_config : TransferConfig
  pub transport_config : TransportConfig

abbrev pub with_read_worker_count : ℕ → ClientConfig → ClientConfig
with_read_worker_count n c = record c { read_config = record c.read_config { workers = n } }

abbrev pub with_read_timeout : ℕ → ClientConfig → ClientConfig
with_read_timeout n c = record c { read_config = record c.read_config { timeout = n } }

abbrev pub with_read_max_retries : ℕ → ClientConfig → ClientConfig
with_read_max_retries n c = record c { read_config = record c.read_config { max_retries = n } }

abbrev pub with_read_retry_delay : ℕ → ClientConfig → ClientConfig
with_read_retry_delay n c = record c { read_config = record c.read_config { retry_delay = n } }

abbrev pub with_read_shutdown_timeout : ℕ → ClientConfig → ClientConfig
with_read_shutdown_timeout n c = record c {
  read_config = record c.read_config { shutdown_timeout = n };
}

abbrev pub with_write_worker_count : ℕ → ClientConfig → ClientConfig
with_write_worker_count n c = record c { write_config = record c.write_config { workers = n } }

abbrev pub with_write_timeout : ℕ → ClientConfig → ClientConfig
with_write_timeout n c = record c { write_config = record c.write_config { timeout = n } }

abbrev pub with_write_max_retries : ℕ → ClientConfig → ClientConfig
with_write_max_retries n c = record c { write_config = record c.write_config { max_retries = n } }

abbrev pub with_write_retry_delay : ℕ → ClientConfig → ClientConfig
with_write_retry_delay n c = record c { write_config = record c.write_config { retry_delay = n } }

abbrev pub with_write_shutdown_timeout : ℕ → ClientConfig → ClientConfig
with_write_shutdown_timeout n c = record c {
  write_config = record c.write_config { shutdown_timeout = n };
}

abbrev pub with_transport_pool_connection_count : ℕ → ClientConfig → ClientConfig
with_transport_pool_connection_count n c = record c {
  transport_config = record c.transport_config { connections = n };
}

abbrev pub with_transport_health_check_timeout : ℕ → ClientConfig → ClientConfig
with_transport_health_check_timeout n c = record c {
  transport_config = record c.transport_config { health_check_timeout = n };
}

abbrev pub with_transport_dial_timeout : ℕ → ClientConfig → ClientConfig
with_transport_dial_timeout n c = record c {
  transport_config = record c.transport_config { dial_timeout = n };
}

abbrev pub with_transport_shutdown_timeout : ℕ → ClientConfig → ClientConfig
with_transport_shutdown_timeout n c = record c {
  transport_config = record c.transport_config { shutdown_timeout = n };
}

abbrev pub with_timeout_shutdown : ℕ → ClientConfig → ClientConfig
with_timeout_shutdown n c = record c { shutdown_timeout = n }

-- defaultClient
abbrev pub default_client : ClientConfig
default_client = record {
  shutdown_timeout = 10000;
  read_config = record {
    workers = 6;
    timeout = 5000;
    max_retries = 3;
    retry_delay = 2000;
    shutdown_timeout = 5000;
  };
  write_config = record {
    workers = 6;
    timeout = 8000;
    max_retries = 3;
    retry_delay = 2000;
    shutdown_timeout = 5000;
  };
  transport_config = record {
    connections = 5;
    dial_timeout = 3000;
    health_check_timeout = 1000;
    shutdown_timeout = 5000;
  };
}

-- The configuration that NewClient gives to a pool of workers.
unfoldable pub worker_config : TransferConfig → PoolConfig
worker_config t =
    configure
      (with_min_workers (t.workers / 2)
        ∷ with_max_workers t.workers
        ∷ with_buffer_size t.workers
        ∷ with_retry_delay t.retry_delay
        ∷ with_max_retries t.max_retries
        ∷ with_shutdown_timeout t.shutdown_timeout
        ∷ [])
      default_pool_config

pub record Client : Type 0 where
  pub config : ClientConfig
  pub conn_pool : Pool
  pub read_pool : PoolState
  pub write_pool : PoolState

unfoldable pub apply_options : List (ClientConfig → ClientConfig) → ClientConfig → ClientConfig
apply_options [] c = c
apply_options (opt ∷ opts) c = apply_options opts (opt c)

-- NewClient: `dial` are the outcomes of the dials of the connection pool, and `none` is a call that waits
-- for ever.
unfoldable pub new_client :
    (ℕ → Bool) → List (ClientConfig → ClientConfig) → Option (Result PoolError Client)
new_client dial opts =
    let c = apply_options opts default_client in
    elim (new_tcp_pool dial (with_max_conn c.transport_config.connections default_pool)) [
      | none ↦ none
      | some (pool, err e) ↦ some (err e)
      | some (pool, ok _) ↦ some (
          ok (record {
            config = c;
            conn_pool = pool;
            read_pool = new_pool (worker_config c.read_config);
            write_pool = new_pool (worker_config c.write_config);
          }))
    ]
