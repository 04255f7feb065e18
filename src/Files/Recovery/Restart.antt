-- ===== src/Files/Recovery/Restart.antt =====
-- What a restarted metadata server knows: EnableSnapshots of internal/wal/manager.go.
use my_dfs.Common.{
  List, ℕ, ◌^◌, ◌<◌, ◌≡◌, sym, ap, ◌∙◌, none, some, [], ◌∷◌, ◌++◌, arith, ok, Codec, All,
}
use Prim.Native.String.{String}
use my_dfs.Binary.{put_uint64, get_uint64-put}
use my_dfs.Files.Dict.{Dict, lookup}
use my_dfs.Files.Meta.{FileMetadata}
use my_dfs.Files.Store.{FileStore, apply, apply, apply_all, restore, snapshot}
use my_dfs.Files.Replay.{
  Operation, View, put, delete, replay, TakesAll, RecordsAll, HasBytesAll, apply_all-replay,
  replay_overlap, replay_cong,
}
use my_dfs.Files.Restoring.{ShortBytes, restore-snapshot}
use my_dfs.Files.Keys.{IsKeyed, values, snapshot-HasBytesAll, restore-snapshot_store}
use my_dfs.Files.Recovery.{
  remember, apply_read, wal_journal, replay_log, restore_state, restore_wal, enable_snapshots,
}
use my_dfs.Wal.Entry.{Entry}
use my_dfs.Wal.State.{Wal}
use my_dfs.Wal.Read.{read_all_entries}
use my_dfs.Wal.Log.{IsLog, Stored}
use my_dfs.Wal.Log.Reading.{Consecutive, read_all-Stored}

abbrev pub empty_view : View
empty_view key = none

abbrev pub IsPut : Operation → Type 0
IsPut (put meta) = Unit
IsPut (delete name) = ⊥

module _ (entries : Codec Entry) (metas : Codec FileMetadata) where
  IsPut-TakesAll :
      (es : List Entry) (ops : List Operation) (s : FileStore Wal)
      → All IsPut ops
      → TakesAll (wal_journal entries metas) metas es ops s
  IsPut-TakesAll [] [] s h = tt
  IsPut-TakesAll [] (op ∷ ops) s h = tt
  IsPut-TakesAll (e ∷ es) [] s h = tt
  IsPut-TakesAll (e ∷ es) (put meta ∷ ops) s h =
      (tt, IsPut-TakesAll es ops (apply (wal_journal entries metas) metas e s).0 h.1)
  IsPut-TakesAll (e ∷ es) (delete name ∷ ops) s h = absurd h.0

  -- The WAL of a server that starts again: every entry is in files with consecutive numbers.
  pub record IsSettled (w : Wal) (es : List Entry) : Type 0 where
    pub start : ℕ
    pub log : IsLog entries w es
    pub stored : Stored entries w.disk es
    pub fits : w.last_segment_no < 2 ^ 64
    pub consecutive : Consecutive start w.disk

  replay_log-replay :
      (seq_no : ℕ) (s : FileStore Wal) (es : List Entry) (ops : List Operation)
      → read_all_entries entries s.wal ≡ (es, ok tt)
      → All IsPut ops
      → HasBytesAll (wal_journal entries metas) metas s
      → RecordsAll (wal_journal entries metas) metas es ops
      → let (s', outcome) = replay_log entries metas seq_no s in
        (outcome ≡ ok seq_no)
        × ((key : String) → lookup key s'.files ≡ replay ops (λ k. lookup k s.files) key)
  unfolding replay_log apply_read
  replay_log-replay seq_no s es ops read puts all records =
      let (done, view) =
        apply_all-replay (wal_journal entries metas) metas es ops s (IsPut-TakesAll es ops s puts)
          all records in
      let s' = (apply_all (wal_journal entries metas) metas es s).0 in
      let applied : apply_read entries metas seq_no s (es, ok tt) ≡ (s', ok seq_no) =
        ground (arith, done) in
      let whole : replay_log entries metas seq_no s ≡ (s', ok seq_no) =
        ap (apply_read entries metas seq_no s) read ∙ applied in
      (ap (λ r. r.1) whole, λ key. ap (λ r. lookup key r.0.files) whole ∙ view key)

  -- The store of a server that starts, before EnableSnapshots.
  abbrev pub fresh : Wal → FileStore Wal
  fresh w = record { files = []; wal = w }

  module _ (w : Wal) (es : List Entry) (snap : Dict FileMetadata) (stream : List ℕ) (seq_no : ℕ)
      (old shared new : List Operation) where
    -- A server that starts again: its log is settled, and its snapshot file holds a store that had
    -- performed the operations `old` and `shared`; the log that is left records `shared` and `new`.
    pub record Restarts : Type 0 where
      pub settled : IsSettled w es
      pub snapshot_file : w.snapshot ≡ some (put_uint64 seq_no ++ stream)
      pub seq_fits : seq_no < 2 ^ 64
      pub keyed : IsKeyed snap
      pub written : snapshot (wal_journal entries metas) metas (values snap) ≡ ok stream
      pub short : ShortBytes (wal_journal entries metas) metas (values snap)
      pub performed : (key : String) → lookup key snap ≡ replay (old ++ shared) empty_view key
      pub records : RecordsAll (wal_journal entries metas) metas es (shared ++ new)
      pub puts : All IsPut (shared ++ new)

    -- The snapshot is restored, and the log replayed over it.
    restore_state-replay :
        Restarts
        → let (s', outcome) = restore_state entries metas seq_no stream (fresh w) in
          (outcome ≡ ok seq_no)
          × ((key : String) → lookup key s'.files ≡ replay (old ++ (shared ++ new)) empty_view key)
    unfolding restore_state
    restore_state-replay r =
        let s' = (restore (wal_journal entries metas) metas stream (fresh w)).0 in
        let (done, view) =
          restore-snapshot_store (wal_journal entries metas) metas
            (record { files = snap; wal = w }) stream w r.keyed r.written r.short in
        let same =
          (restore-snapshot (wal_journal entries metas) metas (values snap) stream (fresh w)
            r.written r.short).1 in
        let read =
          read_all-Stored entries w es r.settled.start r.settled.log r.settled.stored r.settled.fits
            r.settled.consecutive in
        let (replayed, after) =
          replay_log-replay seq_no s' es (shared ++ new) (ap (read_all_entries entries) same ∙ read)
            r.puts
            (λ key meta found.
              snapshot-HasBytesAll (wal_journal entries metas) metas snap stream key meta r.written
                (sym (view key) ∙ found))
            r.records in
        rw (done, restore_state)
          (
            replayed,
            λ key.
                after key
                ∙ replay_cong (wal_journal entries metas) metas (shared ++ new)
                    (λ k. lookup k s'.files) (replay (old ++ shared) empty_view) key
                    (λ k. view k ∙ r.performed k)
                ∙ replay_overlap old shared new empty_view key,
          )

    -- Take a WAL whose entries all stand in files with consecutive numbers, whose snapshot file
    -- holds, keyed by name and with short records, the store after some additions and deletions,
    -- and whose entries record the additions from some point before the snapshot on. Then
    -- EnableSnapshots on an empty store succeeds, remembers the snapshot's sequence number, and
    -- every lookup answers as after all the operations in their order.
    pub enable_snapshots-replay :
        Restarts
        → let (s', outcome) = enable_snapshots entries metas (fresh w) in
          (outcome ≡ ok tt)
          × (s'.wal.last_snapshot ≡ seq_no)
          × ((key : String) → lookup key s'.files ≡ replay (old ++ (shared ++ new)) empty_view key)
    unfolding enable_snapshots restore_wal remember
    enable_snapshots-replay r =
        let (done, view) = restore_state-replay r in
        let whole : restore_wal entries metas (fresh w)
            ≡ restore_state entries metas seq_no stream (fresh w) =
          ground (arith, r.snapshot_file, get_uint64-put seq_no stream r.seq_fits) in
        let s' = (restore_state entries metas seq_no stream (fresh w)).0 in
        let end = ap (remember entries metas) (whole ∙ ap (λ o. (s', o)) done) in
        (
          ap (λ r. r.1) end,
          ap (λ r. r.0.wal.last_snapshot) end,
          λ key. ap (λ r. lookup key r.0.files) end ∙ view key,
        )
