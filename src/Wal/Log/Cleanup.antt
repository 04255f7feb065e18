-- ===== src/Wal/Log/Cleanup.antt =====
-- The log during takeSnapshot and its cleanup, of internal/wal/snapshot.go.
use my_dfs.Common.{
  ℕ, ◌≤◌, ◌≡◌, refl, sym, ap, ◌∙◌, subst, inl, inr, true, false, Option, none, some, List, [], ◌∷◌,
  ◌++◌, arith, ltb, Bool-cases, err, Result-cases, Codec,
}
use my_dfs.Binary.{put_uint64}
use my_dfs.Wal.Entry.{Entry, snapshot_failed}
use my_dfs.Wal.Disk.{list_log_files}
use my_dfs.Wal.State.{Wal}
use my_dfs.Wal.Segments.{remove_log_file}
use my_dfs.Wal.Snapshot.{overwrite, write_snapshot, clean_up, perform_cleanup, finish_snapshot}
use my_dfs.Wal.Log.{Thins, IsLog}
use my_dfs.Wal.Log.Thinning.{Thins-trans}
use my_dfs.Wal.Log.Removal.{Keeps, Keeps-refl, remove_log_file-Keeps}

module _ (codec : Codec Entry) where
  Keeps-trans :
      (w v u : Wal) (es : List Entry)
      → Keeps codec w es v
      → ((es' : List Entry) → IsLog codec v es' → Keeps codec v es' u)
      → Keeps codec w es u
  Keeps-trans w v u es (es', l, t, e) next =
      let (es'', l', t', e') = next es' l in
      let same : v.last_snapshot ≡ w.last_snapshot = ap (λ (x : Wal). x.last_snapshot) e in
      (
        es'',
        l',
        Thins-trans w.last_snapshot t (subst (λ b. Thins b es' es'') same t'),
        e' ∙ ap (λ (x : Wal). record x { disk = u.disk }) e,
      )

  clean_up-Keeps :
      (seg_no : ℕ) (ns : List ℕ) (w : Wal) (es : List Entry)
      → IsLog codec w es
      → seg_no ≤ w.last_segment_no
      → Keeps codec w es (clean_up codec seg_no ns w).0
  unfolding clean_up
  clean_up-Keeps seg_no [] w es l h = Keeps-refl codec w es l
  clean_up-Keeps seg_no (n ∷ ns) w es l h =
      let v = (remove_log_file codec n w).0 in
      elim (Bool-cases (ltb n seg_no)) [
        | inr newer ↦ rw newer (clean_up-Keeps seg_no ns w es l h)
        | inl older ↦
            let kept = remove_log_file-Keeps codec n w es l (ground arith) in
            elim (Result-cases (remove_log_file codec n w).1) [
              | inr (failure, failed) ↦ rw (older, failed) kept
              | inl (_, done) ↦
                  rw (older, done)
                    (Keeps-trans w v (clean_up codec seg_no ns v).0 es kept λ es' l'.
                      clean_up-Keeps seg_no ns v es' l' (
                        subst (λ k. seg_no ≤ k) (sym (ap (λ (x : Wal). x.last_segment_no) kept.3))
                          h))
            ]
      ]

  -- The log does not depend on the snapshot files.
  snapshotted :
      (w : Wal) (es : List Entry) (file tmp : Option (List ℕ)) (seq_no : ℕ)
      → IsLog codec w es
      → IsLog codec (record w { snapshot = file; snapshot_tmp = tmp; last_snapshot = seq_no }) es
  snapshotted w es file tmp seq_no l = record {
    older = l.older;
    current = l.current;
    buffer = l.buffer;
    old_entries = l.old_entries;
    current_entries = l.current_entries;
    disk_eq = l.disk_eq;
    rising = l.rising;
    segment_eq = l.segment_eq;
    last_eq = l.last_eq;
    writer_eq = l.writer_eq;
    entries_eq = l.entries_eq;
    old_stored = l.old_stored;
    current_stored = l.current_stored;
    ascends = l.ascends;
    at_most = l.at_most;
  }

  -- Take a WAL that holds a list of entries, and the counters that takeSnapshot read, the segment
  -- number being at most the current one. If the state is written, the snapshot file is replaced,
  -- the last snapshot is set, also where the cleanup fails, and the log loses only entries up to
  -- the snapshot's sequence number. If the writing fails, the error is returned, and the snapshot
  -- file, the last snapshot and the log stay as they were.
  pub finish_snapshot-IsLog :
      (seq_no seg_no : ℕ) (state : List ℕ) (w : Wal) (es : List Entry)
      → IsLog codec w es
      → seg_no ≤ w.last_segment_no
      → (let w' = (finish_snapshot codec seq_no seg_no (state, true) w).0 in
          (es' : List Entry) × IsLog codec w' es'
          × Thins seq_no es es'
          × (w'.last_snapshot ≡ seq_no)
          × (w'.snapshot ≡ some (overwrite (put_uint64 seq_no ++ state) w.snapshot_tmp)))
        × (let (w', outcome) = finish_snapshot codec seq_no seg_no (state, false) w in
            (outcome ≡ err snapshot_failed)
            × IsLog codec w' es
            × (w'.last_snapshot ≡ w.last_snapshot)
            × (w'.snapshot ≡ w.snapshot))
  unfolding finish_snapshot write_snapshot perform_cleanup
  finish_snapshot-IsLog seq_no seg_no state w es l h =
      let file = some (overwrite (put_uint64 seq_no ++ state) w.snapshot_tmp) in
      let v = record w { snapshot = file; snapshot_tmp = none; last_snapshot = seq_no } in
      let (es', l', t, e) =
        clean_up-Keeps seg_no (list_log_files v.disk) v es (snapshotted w es file none seq_no l)
          h in
      (
        (es', l', t, ap (λ (x : Wal). x.last_snapshot) e, ap (λ (x : Wal). x.snapshot) e),
        (refl, snapshotted w es w.snapshot file w.last_snapshot l, refl, refl),
      )
