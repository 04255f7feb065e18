-- ===== src/Wal/Log/Reading.antt =====
-- The log after a flush, as ReadAllEntries of internal/wal/read.go meets it.
use my_dfs.Common.{
  List, ℕ, ◌+◌, ◌-◌, ◌%◌, ◌^◌, ◌≤◌, ◌<◌, ◌≡◌, refl, sym, ap, ◌∙◌, subst, inl, inr, some, [], ◌∷◌,
  ◌++◌, append-nil, arith, Bool-cases, ok, Codec, length, All, length-append,
}
use my_dfs.Wal.Entry.{Entry}
use my_dfs.Wal.Entry.Framing.{Encodes, up_to, read_all-Encodes}
use my_dfs.Wal.Disk.{Disk, SegmentFile, find_file, append_bytes, sync_file, count_log_files}
use my_dfs.Wal.State.{Wal}
use my_dfs.Wal.Segments.{flush_writer, flush}
use my_dfs.Wal.Read.{read_segments, read_all_entries}
use my_dfs.Wal.Log.{Ascends, AtMost, Rising, Stored, IsLog}
use my_dfs.Wal.Log.Thinning.{Ascends-append_left, Ascends-append_right}
use mathlib.Core.Path.{subst₂}
use my_dfs.Wal.Log.Files.{Rising-lt, Rising-snoc, update_file-last, Stored-append}

-- The files bear the numbers from `start` on.
abbrev pub Consecutive : ℕ → List SegmentFile → Type 0
Consecutive start [] = Unit
Consecutive start (f ∷ fs) = (f.number ≡ start) × Consecutive (start + 1) fs

up_to-last :
    (low seq_no : ℕ) (es : List Entry) → Ascends low es → AtMost seq_no es → up_to seq_no es ≡ es
unfolding up_to
up_to-last low seq_no [] a b = refl
up_to-last low seq_no (e ∷ []) a b = ground arith
up_to-last low seq_no (e ∷ f ∷ es) a b =
    ground (arith, up_to-last e.log_sequence_no seq_no (f ∷ es) a.1 b.1, a.1.0, b.1.0)

AtMost-append_left : (high : ℕ) (es fs : List Entry) → AtMost high (es ++ fs) → AtMost high es
AtMost-append_left high [] fs a = tt
AtMost-append_left high (e ∷ es) fs a = (a.0, AtMost-append_left high es fs a.1)

AtMost-append_right : (high : ℕ) (es fs : List Entry) → AtMost high (es ++ fs) → AtMost high fs
AtMost-append_right high [] fs a = a
AtMost-append_right high (e ∷ es) fs a = AtMost-append_right high es fs a.1

-- Each of these files is found under its number.
abbrev Found : Disk → List SegmentFile → Type 0
Found disk = All (λ f. find_file f.number disk ≡ some f)

Found-cons :
    (f : SegmentFile) (disk fs : List SegmentFile) (low high : ℕ)
    → f.number ≤ low
    → Rising low fs high
    → Found disk fs
    → Found (f ∷ disk) fs
unfolding find_file
Found-cons f disk [] low high h r found = tt
Found-cons f disk (g ∷ fs) low high h r found = (
  ground (arith, r.0, found.0),
  Found-cons f disk fs g.number high (omega (arith, r.0)) r.1 found.1,
)

Rising-Found : (low : ℕ) (fs : List SegmentFile) (high : ℕ) → Rising low fs high → Found fs fs
unfolding find_file
Rising-Found low [] high r = tt
Rising-Found low (f ∷ fs) high r = (
  ground arith,
  Found-cons f fs fs f.number high (omega arith) r.1 (Rising-Found f.number fs high r.1),
)

module _ (codec : Codec Entry) where
  read_segments-Stored :
      (start seq_no low : ℕ) (disk : Disk) (fs : List SegmentFile) (es : List Entry)
      → Consecutive start fs
      → Found disk fs
      → Stored codec fs es
      → Ascends low es
      → AtMost seq_no es
      → read_segments codec (length fs) start seq_no disk ≡ (es, ok tt)
  unfolding read_segments
  read_segments-Stored start seq_no low disk [] es c found s a b = ground arith
  read_segments-Stored start seq_no low disk (f ∷ fs) es c found (front, back, e, enc, s) a b =
      let rises : Ascends low (front ++ back) = subst (Ascends low) e a in
      let within : AtMost seq_no (front ++ back) = subst (AtMost seq_no) e b in
      ground (
        arith,
        e,
        ap (λ n. find_file n disk) (sym c.0) ∙ found.0,
        read_all-Encodes codec f.bytes front seq_no enc,
        up_to-last low seq_no front (Ascends-append_left low front back rises)
            (AtMost-append_left seq_no front back within),
        read_segments-Stored (start + 1) seq_no low disk fs back c.1 found.1 s
            (Ascends-append_right low front back rises)
            (AtMost-append_right seq_no front back within),
      )

  -- Flushing puts the buffer into the current file.
  record Flushed (w : Wal) (es : List Entry) (l : IsLog codec w es) : Type 0 where
    last : SegmentFile
    number_eq : last.number ≡ l.current.number
    bytes_eq : last.bytes ≡ l.current.bytes ++ l.buffer
    flush_eq : flush w ≡ record w {
      disk = l.older ++ last ∷ [];
      writer = some (record { target = l.current.number; buffer = [] });
      flush_done = w.flush_done + 1;
    }

  flush-Flushed : (w : Wal) (es : List Entry) (l : IsLog codec w es) → Flushed w es l
  unfolding flush flush_writer append_bytes sync_file
  flush-Flushed w es l = elim (Bool-cases w.enable_fs_sync) [
    | inl syncs ↦ record {
      last = sync_file (append_bytes l.buffer l.current);
      number_eq = refl;
      bytes_eq = refl;
      flush_eq = ground (
        arith,
        l.writer_eq,
        l.disk_eq,
        l.segment_eq,
        update_file-last (append_bytes l.buffer) l.older l.current l.rising,
        update_file-last sync_file l.older (append_bytes l.buffer l.current) l.rising,
      );
    }
    | inr plain ↦ record {
      last = append_bytes l.buffer l.current;
      number_eq = refl;
      bytes_eq = refl;
      flush_eq = ground (
        arith,
        l.writer_eq,
        l.disk_eq,
        update_file-last (append_bytes l.buffer) l.older l.current l.rising,
      );
    }
  ]

  Flushed-IsLog :
      (w v : Wal) (es : List Entry) (l : IsLog codec w es) (f : Flushed w es l)
      → v ≡ record w {
        disk = l.older ++ f.last ∷ [];
        writer = some (record { target = l.current.number; buffer = [] });
        flush_done = w.flush_done + 1;
      }
      → IsLog codec v es
  Flushed-IsLog w v es l f e =
      subst (λ u. IsLog codec u es) (sym e)
        (record {
          older = l.older;
          current = f.last;
          buffer = [];
          old_entries = l.old_entries;
          current_entries = l.current_entries;
          disk_eq = refl;
          rising = subst (Rising 0 l.older) (sym f.number_eq) l.rising;
          segment_eq = l.segment_eq ∙ sym f.number_eq;
          last_eq = l.last_eq ∙ sym f.number_eq;
          writer_eq = ap (λ n. some (record { target = n; buffer = [] })) (sym f.number_eq);
          entries_eq = l.entries_eq;
          old_stored = l.old_stored;
          current_stored = rw (append-nil f.last.bytes, f.bytes_eq) l.current_stored;
          ascends = l.ascends;
          at_most = l.at_most;
        })

  -- With an empty buffer the files alone hold the log.
  settled-Stored :
      (w : Wal) (es : List Entry) (target : ℕ)
      → IsLog codec w es
      → w.writer ≡ some (record { target = target; buffer = [] })
      → Stored codec w.disk es
  settled-Stored w es target l e =
      let empty : l.buffer ≡ [] = cc (e, l.writer_eq) in
      let bytes : l.current.bytes ++ l.buffer ≡ l.current.bytes =
        ap (◌++◌ l.current.bytes) empty ∙ append-nil l.current.bytes in
      subst₂ (Stored codec) (sym l.disk_eq) (sym l.entries_eq) (
        Stored-append codec l.older (l.current ∷ []) l.old_entries l.current_entries l.old_stored (
          l.current_entries,
          [],
          sym (append-nil l.current_entries),
          subst (λ b. Encodes codec b l.current_entries) bytes l.current_stored,
          refl,
        ))

  -- If a WAL holds a list of entries, a flush keeps it so, the files alone hold every entry of the
  -- list afterwards, and the channel that the callers of AppendEntry wait on is the next one.
  pub flush-Stored :
      (w : Wal) (es : List Entry)
      → IsLog codec w es
      → IsLog codec (flush w) es
        × Stored codec (flush w).disk es
        × ((flush w).flush_done ≡ w.flush_done + 1)
  flush-Stored w es l =
      let f = flush-Flushed w es l in
      let e = f.flush_eq in
      let kept = Flushed-IsLog w (flush w) es l f e in
      (
        kept,
        settled-Stored (flush w) es l.current.number kept (ap (λ (v : Wal). v.writer) e),
        ap (λ (v : Wal). v.flush_done) e,
      )

  Consecutive-last :
      (start : ℕ) (fs : List SegmentFile) (f : SegmentFile)
      → Consecutive start (fs ++ f ∷ [])
      → f.number ≡ start + length fs
  Consecutive-last start [] f c = omega (arith, c.0)
  Consecutive-last start (g ∷ fs) f c = omega (arith, Consecutive-last (start + 1) fs f c.1)

  pub read_all-Stored :
      (w : Wal) (es : List Entry) (start : ℕ)
      → IsLog codec w es
      → Stored codec w.disk es
      → w.last_segment_no < 2 ^ 64
      → Consecutive start w.disk
      → read_all_entries codec w ≡ (es, ok tt)
  unfolding read_all_entries count_log_files
  read_all-Stored w es start l s fits c =
      let ends = Consecutive-last start l.older l.current (subst (Consecutive start) l.disk_eq c) in
      let rises : Rising 0 w.disk (l.current.number + 1) =
        subst (λ d. Rising 0 d (l.current.number + 1)) (sym l.disk_eq)
          (Rising-snoc 0 l.older l.current (l.current.number + 1) l.rising (omega arith)) in
      let count : length w.disk ≡ length l.older + 1 =
        ap length l.disk_eq ∙ length-append l.older (l.current ∷ []) ∙ omega arith in
      let first : (w.last_segment_no + 2 ^ 64 - length w.disk + 1) % 2 ^ 64 ≡ start =
        omega
          (arith, ends, count, l.last_eq, fits, Rising-lt 0 l.older l.current.number l.rising) in
      ground (
        arith,
        count,
        first,
        read_segments-Stored start w.last_sequence_no 0 w.disk w.disk es c
            (Rising-Found 0 w.disk (l.current.number + 1) rises) s l.ascends l.at_most,
      )

  -- If a WAL holds a list of entries, its segment numbers are below 2^64, and the segment files
  -- that are left have consecutive numbers, then ReadAllEntries after a flush returns just these
  -- entries, in order, and no error.
  pub read_all-flush :
      (w : Wal) (es : List Entry) (start : ℕ)
      → IsLog codec w es
      → w.last_segment_no < 2 ^ 64
      → Consecutive start (flush w).disk
      → read_all_entries codec (flush w) ≡ (es, ok tt)
  read_all-flush w es start l fits c =
      let (kept, s, _) = flush-Stored w es l in
      let same : (flush w).last_segment_no ≡ w.last_segment_no =
        ap (λ (v : Wal). v.last_segment_no) (flush-Flushed w es l).flush_eq in
      read_all-Stored (flush w) es start kept s (omega (arith, same)) c
