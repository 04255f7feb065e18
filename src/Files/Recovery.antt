-- ===== src/Files/Recovery.antt =====
-- EnableSnapshots and restore of internal/wal: a metadata server that starts again. The journal of its
-- store is the write-ahead log; an append comes with the flush that AppendEntry waits for.
pub mod Restart
use my_dfs.Common.{
  ℕ, zero, suc, ◌+◌, ◌-◌, ◌*◌, ◌/◌, ◌%◌, ◌^◌, ◌≤◌, ◌<◌, min, max, ◌≡◌, refl, sym, ap, ◌∙◌, subst,
  ◌≡⟨◌⟩◌, ◌∎, ◌≢◌, ◌↔◌, ◌⊎◌, inl, inr, Bool, true, false, ◌&&◌, ◌||◌, not, Option, none, some, List,
  [], ◌∷◌, ◌++◌, map, append-nil, append_assoc, arith, ltb, leb, ◌==◌, if◌then◌else◌, ltb→lt,
  lt→ltb, le→ltb, leb→le, le→leb, lt→leb, ==_iff, ==_refl, tests, Bool-cases, Option-cases, Result,
  ok, err, ◌>>=◌, ◌>>◌, or_fail, Result-cases, Codec, length, get_elem?, take, drop, replicate, All,
  length-append, take-append-drop, length-take, length-drop, take_all, drop_all, take-append,
  drop-append, All-append, nil_of_length,
}
use my_dfs.Binary.{get_uint64}
use my_dfs.Files.Meta.{FileMetadata}
use my_dfs.Files.Store.{Journal, FileStore, apply_all, restore}
use my_dfs.Wal.Entry.{Entry, WalError, no_snapshot_file, length_not_read, apply_failed}
use my_dfs.Wal.State.{Wal}
use my_dfs.Wal.Segments.{flush}
use my_dfs.Wal.Append.{append_entry}
use my_dfs.Wal.Read.{read_all_entries}

module _ (entries : Codec Entry) (metas : Codec FileMetadata) where
  -- AppendEntry, with the next flush of flushBuffer.
  unfoldable pub append_flushed : Wal → List ℕ → Bool → Wal × Bool
  append_flushed w bytes is_delete =
      let (w', outcome) = append_entry entries bytes is_delete w in
      let answer : Wal × Bool = elim outcome [ ok _ ↦ (flush w', true) | err _ ↦ (w', false) ] in
      answer

  abbrev pub wal_journal : Journal Wal
  wal_journal = record { append = append_flushed }

  -- What restore does with the result of ReadAllEntries: the entries are applied in order.
  unfoldable pub apply_read :
      ℕ
      → FileStore Wal
      → List Entry × Result WalError (Unit {0})
      → FileStore Wal × Result WalError ℕ
  apply_read seq_no s (es, err e) = (s, err e)
  apply_read seq_no s (es, ok _) =
      let (s', applied) = apply_all wal_journal metas es s in
      elim applied [ ok _ ↦ (s', ok seq_no) | err _ ↦ (s', err apply_failed) ]

  -- The replay of the log in restore.
  unfoldable pub replay_log : ℕ → FileStore Wal → FileStore Wal × Result WalError ℕ
  replay_log seq_no s = apply_read seq_no s (read_all_entries entries s.wal)

  -- restore, from the bytes of the snapshot file behind the sequence number on.
  unfoldable pub restore_state : ℕ → List ℕ → FileStore Wal → FileStore Wal × Result WalError ℕ
  restore_state seq_no stream s =
      let (s', restored) = restore wal_journal metas stream s in
      elim restored [ ok _ ↦ replay_log seq_no s' | err _ ↦ (s', err apply_failed) ]

  -- restore
  unfoldable pub restore_wal : FileStore Wal → FileStore Wal × Result WalError ℕ
  restore_wal s = elim s.wal.snapshot [
    | none ↦ (s, err no_snapshot_file)
    | some file ↦ elim (get_uint64 file) [
      | none ↦ (s, err length_not_read)
      | some (seq_no, stream) ↦ restore_state seq_no stream s
    ]
  ]

  abbrev with_last_snapshot : ℕ → FileStore Wal → FileStore Wal
  with_last_snapshot seq_no s = record s { wal = record s.wal { last_snapshot = seq_no } }

  -- What EnableSnapshots does with the result of restore: where there is no snapshot file, nothing was
  -- replayed, and no error is returned.
  unfoldable pub remember :
      FileStore Wal × Result WalError ℕ → FileStore Wal × Result WalError (Unit {0})
  remember (s, ok seq_no) = (with_last_snapshot seq_no s, ok tt)
  remember (s, err no_snapshot_file) = (with_last_snapshot 0 s, ok tt)
  remember (s, err e) = (s, err e)

  -- EnableSnapshots
  unfoldable pub enable_snapshots : FileStore Wal → FileStore Wal × Result WalError (Unit {0})
  enable_snapshots s = remember (restore_wal s)
