-- ===== src/Wal/Log/Removal.antt =====
-- The log during removeLogFile of internal/wal/manager.go.
use my_dfs.Common.{
  ℕ, ◌≤◌, ◌<◌, ◌≡◌, refl, sym, ap, ◌∙◌, subst, inl, inr, some, List, [], ◌∷◌, ◌++◌, arith, ltb,
  Bool-cases, Option-cases, ok, Result-cases, Codec,
}
use my_dfs.Wal.Entry.{Entry}
use my_dfs.Wal.Entry.Framing.{Encodes, last_of, find_last_record-Encodes}
use my_dfs.Wal.Disk.{Disk, SegmentFile, find_file, remove_file}
use my_dfs.Wal.State.{Wal}
use my_dfs.Wal.Segments.{
  last_sequence, find_last_sequence_number, remove_if_snapshotted, remove_log_file,
}
use my_dfs.Wal.Log.{Ascends, AtMost, Thins, IsLog}
use my_dfs.Wal.Log.Thinning.{
  Thins-refl, Thins-append_right, Thins-Ascends, Thins-AtMost, Ascends-last, Ascends-append_left,
}
use my_dfs.Wal.Log.Files.{
  find_file-append_lt, remove_file-append_lt, remove_file-Rising, remove_file-Stored,
}

pub AtMost-mono : (low high : ℕ) (es : List Entry) → low ≤ high → AtMost low es → AtMost high es
AtMost-mono low high [] h a = tt
AtMost-mono low high (e ∷ es) h a = (omega (arith, a.0), AtMost-mono low high es h a.1)

module _ (codec : Codec Entry) where
  -- The last sequence number of a file bounds those of its entries.
  last_sequence-AtMost :
      (disk : Disk) (f : SegmentFile) (seq_no low : ℕ) (es : List Entry)
      → find_last_sequence_number codec disk f ≡ ok seq_no
      → Ascends low es
      → Encodes codec f.bytes es
      → AtMost seq_no es
  unfolding find_last_sequence_number last_sequence
  last_sequence-AtMost disk f seq_no low [] found a enc = tt
  last_sequence-AtMost disk f seq_no low (e ∷ es) found a enc =
      let last : (last_of e es).log_sequence_no ≡ seq_no =
        ground (arith, find_last_record-Encodes codec f.bytes e es enc) in
      subst (λ n. AtMost n (e ∷ es)) last (Ascends-last low e es a)

  -- What a method that only removes files leaves: the log without entries of the snapshot.
  abbrev pub Keeps : Wal → List Entry → Wal → Type 0
  Keeps w es w' =
      (es' : List Entry) × IsLog codec w' es'
      × Thins w.last_snapshot es es'
      × (w' ≡ record w { disk = w'.disk })

  pub Keeps-refl : (w : Wal) (es : List Entry) → IsLog codec w es → Keeps w es w
  Keeps-refl w es l = (es, l, Thins-refl w.last_snapshot es, refl)

  remove_file-Keeps :
      (n seq_no : ℕ) (w : Wal) (es : List Entry) (f : SegmentFile)
      → IsLog codec w es
      → n < w.last_segment_no
      → find_file n w.disk ≡ some f
      → find_last_sequence_number codec w.disk f ≡ ok seq_no
      → seq_no ≤ w.last_snapshot
      → Keeps w es (record w { disk = remove_file n w.disk })
  remove_file-Keeps n seq_no w es f l below found last old =
      let (old', stored, thin) =
        remove_file-Stored codec n w.last_snapshot 0 0 l.older l.current.number l.old_entries f
          l.rising l.old_stored
          (Ascends-append_left 0 l.old_entries l.current_entries
            (subst (Ascends 0) l.entries_eq l.ascends))
          (sym (find_file-append_lt n l.older l.current lt)
            ∙ (ap (find_file n) (sym l.disk_eq) ∙ found))
          (λ lo xs a enc.
            AtMost-mono seq_no w.last_snapshot xs old
              (last_sequence-AtMost w.disk f seq_no lo xs last a enc)) in
      let whole : Thins w.last_snapshot es (old' ++ l.current_entries) =
        rw l.entries_eq (Thins-append_right w.last_snapshot l.current_entries thin) in
      (
        old' ++ l.current_entries,
        record {
          older = remove_file n l.older;
          current = l.current;
          buffer = l.buffer;
          old_entries = old';
          current_entries = l.current_entries;
          disk_eq = ap (remove_file n) l.disk_eq ∙ remove_file-append_lt n l.older l.current lt;
          rising = remove_file-Rising n 0 l.older l.current.number l.rising;
          segment_eq = l.segment_eq;
          last_eq = l.last_eq;
          writer_eq = l.writer_eq;
          entries_eq = refl;
          old_stored = stored;
          current_stored = l.current_stored;
          ascends = Thins-Ascends w.last_snapshot 0 whole l.ascends;
          at_most = Thins-AtMost w.last_snapshot w.last_sequence_no whole l.at_most;
        },
        whole,
        refl,
      )
    where
      lt : n < l.current.number
      lt = subst (λ k. n < k) l.last_eq below

  pub remove_log_file-Keeps :
      (n : ℕ) (w : Wal) (es : List Entry)
      → IsLog codec w es
      → n < w.last_segment_no
      → Keeps w es (remove_log_file codec n w).0
  unfolding remove_log_file remove_if_snapshotted
  remove_log_file-Keeps n w es l below = elim (Option-cases (find_file n w.disk)) [
    | inl missing ↦ rw (missing, remove_log_file) (Keeps-refl w es l)
    | inr (f, found) ↦ elim (Result-cases (find_last_sequence_number codec w.disk f)) [
      | inr (e, failed) ↦ rw (found, remove_log_file, failed) (Keeps-refl w es l)
      | inl (seq_no, last) ↦ elim (Bool-cases (ltb w.last_snapshot seq_no)) [
        | inl newer ↦ rw (found, remove_log_file, last, newer) (Keeps-refl w es l)
        | inr old ↦
            rw (found, remove_log_file, last, old)
              (remove_file-Keeps n seq_no w es f l below found last (ground arith))
      ]
    ]
  ]
