-- ===== src/Wal/Log/Rotation.antt =====
-- The log during addNewLogFile of internal/wal/manager.go.
use my_dfs.Common.{
  List, ℕ, ◌+◌, ◌-◌, ◌%◌, ◌^◌, ◌≤◌, ◌<◌, ◌≡◌, refl, sym, ap, ◌∙◌, subst, inl, inr, Bool, true,
  false, some, [], ◌∷◌, ◌++◌, append-nil, arith, leb, if◌then◌else◌, leb→le, Bool-cases,
  Result-cases, Codec, length, length-append,
}
use my_dfs.Wal.Entry.{Entry}
use my_dfs.Wal.Disk.{
  SegmentFile, update_file, append_bytes, sync_file, create_file, count_log_files, new_file,
}
use my_dfs.Wal.State.{Wal}
use my_dfs.Wal.Segments.{
  flush_writer, flush, open_segment, remove_last_log_file, make_room, add_new_log_file,
}
use my_dfs.Wal.Log.{Thins, Rising, Stored, IsLog}
use my_dfs.Wal.Log.Thinning.{Thins-trans, Thins-refl}
use my_dfs.Wal.Log.Files.{
  update_file-last, update_file-before_last, Rising-lt, Rising-snoc, find_file-absent,
  Stored-append,
}
use my_dfs.Wal.Log.Removal.{Keeps, Keeps-refl, remove_log_file-Keeps}

module _ (codec : Codec Entry) where
  -- The number that removeLastLogFile computes lies below the current segment's.
  oldest-lt :
      (w : Wal) (es : List Entry)
      → IsLog codec w es
      → 2 ≤ w.max_segments
      → w.last_segment_no < 2 ^ 64
      → w.max_segments ≤ length w.disk
      → (w.last_segment_no + 2 ^ 64 - w.max_segments + 1) % 2 ^ 64 < w.last_segment_no
  oldest-lt w es l two fits full = omega (
    arith,
    full,
    ap length l.disk_eq,
    length-append l.older (l.current ∷ []),
    Rising-lt 0 l.older l.current.number l.rising,
    l.last_eq,
    two,
    fits,
  )

  -- removeLastLogFile never picks the current segment, if there may be two.
  make_room-Keeps :
      (w : Wal) (es : List Entry)
      → IsLog codec w es
      → 2 ≤ w.max_segments
      → w.last_segment_no < 2 ^ 64
      → Keeps codec w es (make_room codec w).0
  unfolding make_room remove_last_log_file count_log_files
  make_room-Keeps w es l two fits = elim (Bool-cases (leb w.max_segments (length w.disk))) [
    | inr room ↦ rw room (Keeps-refl codec w es l)
    | inl full ↦
        rw full (remove_log_file-Keeps codec _ w es l (oldest-lt w es l two fits (leb→le _ _ full)))
  ]

  -- What addNewLogFile's second half makes of a WAL, in one piece.
  opened : (w : Wal) (es : List Entry) → IsLog codec w es → Wal
  opened w es l = record w {
    last_segment_no = w.last_segment_no + 1;
    segment = w.last_segment_no + 1;
    cur_segment_size = 0;
    flush_done = w.flush_done + 1;
    writer = some (record { target = w.last_segment_no + 1; buffer = [] });
    disk =
        (l.older ++ append_bytes l.buffer l.current ∷ []) ++ new_file (w.last_segment_no + 1) ∷ [];
  }

  created :
      (w : Wal) (es : List Entry) (l : IsLog codec w es)
      → create_file (w.last_segment_no + 1) w.disk
        ≡ (l.older ++ l.current ∷ []) ++ new_file (w.last_segment_no + 1) ∷ []
  unfolding create_file
  created w es l =
      let rises =
        Rising-snoc 0 l.older l.current (w.last_segment_no + 1) l.rising
          (omega (arith, l.last_eq)) in
      let absent =
        find_file-absent (w.last_segment_no + 1) 0 (l.older ++ l.current ∷ [])
          (w.last_segment_no + 1) rises (omega arith) in
      rw (l.disk_eq, absent, create_file)
        (ap (λ d. d ++ new_file (w.last_segment_no + 1) ∷ []) l.disk_eq)

  flushed_disk :
      (sync : Bool) (older : List SegmentFile) (current : SegmentFile) (buffer : List ℕ)
      (number : ℕ)
      → Rising 0 older current.number
      → current.number < number
      → let written =
          update_file current.number
            (append_bytes buffer)
            ((older ++ current ∷ []) ++ new_file number ∷ []) in
        (if sync then update_file number sync_file written else written)
        ≡ (older ++ append_bytes buffer current ∷ []) ++ new_file number ∷ []
  unfolding append_bytes sync_file
  flushed_disk false older current buffer number r h =
      update_file-before_last (append_bytes buffer) older current (new_file number) r h
  flushed_disk true older current buffer number r h =
      rw (update_file-before_last (append_bytes buffer) older current (new_file number) r h) (
        update_file-last sync_file (older ++ append_bytes buffer current ∷ []) (new_file number)
          (Rising-snoc 0 older (append_bytes buffer current) number r h))

  open_segment-opened :
      (w : Wal) (es : List Entry) (l : IsLog codec w es)
      → w.last_segment_no + 1 < 2 ^ 64
      → open_segment w ≡ opened w es l
  unfolding open_segment flush flush_writer opened
  open_segment-opened w es l fits =
      let wraps : (w.last_segment_no + 1) % 2 ^ 64 ≡ w.last_segment_no + 1 = omega arith in
      ground (
        arith,
        wraps,
        created w es l,
        l.writer_eq,
        flushed_disk w.enable_fs_sync l.older l.current l.buffer (w.last_segment_no + 1) l.rising
            (omega (arith, l.last_eq)),
      )

  -- The entries stay, less some of the snapshot, and at most `n` segments have been begun.
  abbrev pub Follows : ℕ → Wal → List Entry → Wal → Type 0
  Follows n w es w' =
      (es' : List Entry) × IsLog codec w' es'
      × Thins w.last_snapshot es es'
      × (w'.last_snapshot ≡ w.last_snapshot)
      × (w'.max_segments ≡ w.max_segments)
      × (w'.last_sequence_no ≡ w.last_sequence_no)
      × (w'.last_segment_no ≤ w.last_segment_no + n)

  pub Follows-refl : (n : ℕ) (w : Wal) (es : List Entry) → IsLog codec w es → Follows n w es w
  Follows-refl n w es l = (es, l, Thins-refl w.last_snapshot es, refl, refl, refl, omega arith)

  pub Follows-trans :
      (m n : ℕ) (w v u : Wal) (es : List Entry)
      → Follows m w es v
      → ((es' : List Entry) → IsLog codec v es' → Follows n v es' u)
      → Follows (m + n) w es u
  Follows-trans m n w v u es (es', l, t, same, s1, s2, s3) next =
      let (es'', l', t', same', s1', s2', s3') = next es' l in
      (
        es'',
        l',
        Thins-trans w.last_snapshot t (subst (λ b. Thins b es' es'') same t'),
        same' ∙ same,
        s1' ∙ s1,
        s2' ∙ s2,
        omega arith,
      )

  Keeps-Follows :
      (n : ℕ) (w : Wal) (es : List Entry) (w' : Wal) → Keeps codec w es w' → Follows n w es w'
  Keeps-Follows n w es w' (es', l, t, e) =
      (es', l, t, ground arith, ground arith, ground arith, ground arith)

  opened-IsLog : (w : Wal) (es : List Entry) (l : IsLog codec w es) → IsLog codec (opened w es l) es
  unfolding opened append_bytes
  opened-IsLog w es l = record {
    older = l.older ++ append_bytes l.buffer l.current ∷ [];
    current = new_file (w.last_segment_no + 1);
    buffer = [];
    old_entries = es;
    current_entries = [];
    disk_eq = refl;
    rising =
        Rising-snoc 0 l.older (append_bytes l.buffer l.current) (w.last_segment_no + 1) l.rising
          (omega (arith, l.last_eq));
    segment_eq = refl;
    last_eq = refl;
    writer_eq = refl;
    entries_eq = sym (append-nil es);
    old_stored =
        subst (Stored codec (l.older ++ append_bytes l.buffer l.current ∷ [])) (sym l.entries_eq) (
          Stored-append codec l.older (append_bytes l.buffer l.current ∷ []) l.old_entries
            l.current_entries l.old_stored
            (l.current_entries, [], sym (append-nil l.current_entries), l.current_stored, refl));
    current_stored = refl;
    ascends = l.ascends;
    at_most = l.at_most;
  }

  open_segment-Follows :
      (w : Wal) (es : List Entry)
      → IsLog codec w es
      → w.last_segment_no + 1 < 2 ^ 64
      → Follows 1 w es (open_segment w)
  open_segment-Follows w es l fits = rw (open_segment-opened w es l fits) (
    es,
    opened-IsLog w es l,
    Thins-refl w.last_snapshot es,
    unfold opened in refl,
    unfold opened in refl,
    unfold opened in refl,
    unfold opened in omega arith,
  )

  -- If a WAL holds a list of entries, may have two segments, and its segment number is not about to
  -- wrap, then after addNewLogFile, whether it fails or not, it holds the list without some entries
  -- up to the last snapshot; the last snapshot, the bound on segments and the sequence number stay,
  -- and the segment number grows by one at most.
  pub add_new_log_file-Follows :
      (w : Wal) (es : List Entry)
      → IsLog codec w es
      → 2 ≤ w.max_segments
      → w.last_segment_no + 1 < 2 ^ 64
      → Follows 1 w es (add_new_log_file codec w).0
  unfolding add_new_log_file
  add_new_log_file-Follows w es l two fits =
      let v = (make_room codec w).0 in
      let (es', l', t, e) = make_room-Keeps w es l two (omega arith) in
      elim (Result-cases (make_room codec w).1) [
        | inr (failure, failed) ↦
            rw failed (Keeps-Follows 1 w es (make_room codec w).0 (es', l', t, e))
        | inl (_, done) ↦ rw done (
            Follows-trans 0 1 w v (open_segment v) es (Keeps-Follows 0 w es v (es', l', t, e))
              λ fs k. open_segment-Follows v fs k (ground arith))
      ]
