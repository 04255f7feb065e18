-- ===== src/Transport/Pool/Accounts.antt =====
-- Where the connections of a TCPPool of internal/transport/tcp_pool.go are, while several goroutines
-- use it.
use my_dfs.Common.{
  ℕ, zero, suc, ◌+◌, ◌≤◌, ◌≡◌, refl, sym, ap, ◌∙◌, ◌⊎◌, inl, inr, Bool, true, false, Bool-cases,
  drop, some, List, [], ◌∷◌, ◌++◌, arith, ltb, if◌then◌else◌, ok, err, length, length-append,
  occurrences, occurrences-append,
}
use my_dfs.Transport.Pool.{
  Pool, PoolError, create_new_connection, close_conn, take_conn, put, close_pool, drain_one, fill,
  with_max_conn, default_pool,
}

-- `held` are the connections that Get has handed out, `lost` those that were put into a closed pool.
pub record Usage : Type 0 where
  pub pool : Pool
  pub held : List ℕ
  pub lost : List ℕ

-- One part of a call that the lock, or the channel, makes atomic.
pub data Step (s t : Usage) : Type 0 where
  opened : fill (true ∷ []) s.pool ≡ some t.pool → t.held ≡ s.held → t.lost ≡ s.lost → Step s t
  taken :
      (dialed healthy : Bool) (c : ℕ)
      → take_conn dialed healthy s.pool ≡ (t.pool, ok c)
      → t.held ≡ c ∷ s.held
      → t.lost ≡ s.lost
      → Step s t
  refused :
      (dialed healthy : Bool) (e : PoolError)
      → take_conn dialed healthy s.pool ≡ (t.pool, err e)
      → t.held ≡ s.held
      → t.lost ≡ s.lost
      → Step s t
  returned :
      (c : ℕ) (front back : List ℕ)
      → s.held ≡ front ++ (c ∷ back)
      → t.pool ≡ put c s.pool
      → t.held ≡ front ++ back
      → t.lost ≡ (if s.pool.is_closed then c ∷ s.lost else s.lost)
      → Step s t
  shut : t.pool ≡ close_pool s.pool → t.held ≡ s.held → t.lost ≡ s.lost → Step s t
  drained :
      s.pool.is_closed ≡ true
      → t.pool ≡ drain_one s.pool
      → t.held ≡ s.held
      → t.lost ≡ s.lost
      → Step s t

pub data Reach (s : Usage) : Usage → Type 0 where
  still : Reach s s
  stepped : {before after : Usage} → Reach s before → Step before after → Reach s after

abbrev pub fresh : ℕ → Usage
fresh max_conn = record { pool = with_max_conn max_conn default_pool; held = []; lost = [] }

abbrev pub places : ℕ → Usage → ℕ
places i s =
    occurrences i s.pool.queue
    + occurrences i s.held
    + occurrences i s.pool.closed
    + occurrences i s.lost

pub record IsAccounted (s : Usage) : Type 0 where
  pub once : (i : ℕ) → places i s ≡ (if ltb i s.pool.next then 1 else 0)
  pub bounded : length s.pool.queue ≤ s.pool.capacity

Step-places :
    {s t : Usage} (i : ℕ)
    → Step s t
    → places i s ≡ (if ltb i s.pool.next then 1 else 0)
    → places i t ≡ (if ltb i t.pool.next then 1 else 0)
unfolding take_conn put close_pool drain_one fill create_new_connection close_conn
Step-places {s} {t} i (opened e h l) a =
    ground (arith, occurrences-append i s.pool.queue (s.pool.next ∷ []))
Step-places {s} {t} i (taken dialed healthy c e h l) a = ground arith
Step-places {s} {t} i (refused dialed healthy f e h l) a = ground arith
Step-places {s} {t} i (returned c front back e f h l) a = ground (
  arith,
  occurrences-append i front (c ∷ back),
  occurrences-append i front back,
  occurrences-append i s.pool.queue (c ∷ []),
)
Step-places {s} {t} i (shut e h l) a = ground arith
Step-places {s} {t} i (drained c e h l) a = ground arith

Step-bounded :
    {s t : Usage}
    → Step s t
    → length s.pool.queue ≤ s.pool.capacity
    → length t.pool.queue ≤ t.pool.capacity
unfolding take_conn put close_pool drain_one fill create_new_connection close_conn
Step-bounded {s} {t} (opened e h l) a =
    ground (arith, length-append s.pool.queue (s.pool.next ∷ []))
Step-bounded {s} {t} (taken dialed healthy c e h l) a = ground arith
Step-bounded {s} {t} (refused dialed healthy f e h l) a = ground arith
Step-bounded {s} {t} (returned c front back e f h l) a =
    ground (arith, length-append s.pool.queue (c ∷ []))
Step-bounded {s} {t} (shut e h l) a = ground arith
Step-bounded {s} {t} (drained c e h l) a = ground arith

-- After the pool was closed, connections leave the front of its queue, and none is added.
abbrev pub OnlyDrains : Pool → Pool → Type 0
OnlyDrains p q = (q.is_closed ≡ true) × (k : ℕ) × (q.queue ≡ drop k p.queue)

drop-nil : (k : ℕ) → drop {A = ℕ} k [] ≡ []
drop-nil zero = refl
drop-nil (suc k) = refl

drop-drop : (j k : ℕ) (xs : List ℕ) → drop j (drop k xs) ≡ drop (k + j) xs
drop-drop j zero xs = ap (λ n. drop n xs) (omega arith)
drop-drop j (suc k) [] = drop-nil j ∙ sym (drop-nil (suc k + j))
drop-drop j (suc k) (x ∷ xs) =
    drop-drop j k xs ∙ ap (λ n. drop n (x ∷ xs)) {x = suc (k + j)} {y = suc k + j} (omega arith)

OnlyDrains-then : (p q r : Pool) → OnlyDrains p q → OnlyDrains q r → OnlyDrains p r
OnlyDrains-then p q r (c, k, e) (c', j, e') =
    (c', k + j, e' ∙ ap (drop j) e ∙ drop-drop j k p.queue)

Step-OnlyDrains : {s t : Usage} → Step s t → s.pool.is_closed ≡ true → OnlyDrains s.pool t.pool
unfolding take_conn put close_pool drain_one fill create_new_connection close_conn
Step-OnlyDrains {s} {t} (opened e h l) c = (ground (arith, e, c), 0, ground (arith, e, c))
Step-OnlyDrains {s} {t} (taken dialed healthy i e h l) c =
    (ground (arith, e, c), 1, ground (arith, e, c))
Step-OnlyDrains {s} {t} (refused dialed healthy f e h l) c =
    (ground (arith, e, c), 1, ground (arith, e, c))
Step-OnlyDrains {s} {t} (returned i front back e f h l) c =
    (ground (arith, f, c), 0, ground (arith, f, c))
Step-OnlyDrains {s} {t} (shut e h l) c = (ground (arith, e, c), 0, ground (arith, e, c))
Step-OnlyDrains {s} {t} (drained d e h l) c = (ground (arith, e, c), 1, ground (arith, e, c))

Reach-OnlyDrains : {s t : Usage} → Reach s t → s.pool.is_closed ≡ true → OnlyDrains s.pool t.pool
Reach-OnlyDrains still c = (c, 0, refl)
Reach-OnlyDrains {s} {t} (stepped {before = b} r st) c =
    let before = Reach-OnlyDrains r c in
    OnlyDrains-then s.pool b.pool t.pool before (Step-OnlyDrains st before.0)

Reach-once : (max_conn : ℕ) {s : Usage} → Reach (fresh max_conn) s → IsAccounted s
unfolding with_max_conn
Reach-once max_conn still = record { once = λ i. ground arith; bounded = omega arith }
Reach-once max_conn (stepped r st) =
    let a = Reach-once max_conn r in
    record { once = λ i. Step-places i st (a.once i); bounded = Step-bounded st a.bounded }

Reach-append : {r s t : Usage} → Reach r s → Reach s t → Reach r t
Reach-append first still = first
Reach-append first (stepped later st) = stepped (Reach-append first later) st

-- In every state that a pool of connections can reach, by any interleaving of the parts of Get,
-- Put, ClosePool and its goroutine, and the dials of NewTCPPool, each dialed connection is in just
-- one place: in the queue, handed out, closed, or lost by a Put into a closed pool. The queue never
-- exceeds the channel's capacity. From a closed pool on, connections only leave the queue, from its
-- front, and the pool stays closed.
pub Reach-IsAccounted :
    (max_conn : ℕ) {s t : Usage}
    → Reach (fresh max_conn) s
    → Reach s t
    → IsAccounted t × ((s.pool.is_closed ≡ false) ⊎ OnlyDrains s.pool t.pool)
Reach-IsAccounted max_conn {s} {t} first later = (
  Reach-once max_conn (Reach-append first later),
  elim (Bool-cases s.pool.is_closed) [
    | inl closed ↦ inr (Reach-OnlyDrains later closed)
    | inr still_open ↦ inl still_open
  ],
)
