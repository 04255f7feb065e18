-- ===== src/Wal/Log/Opening.antt =====
-- The log of a WAL that InitWAL of internal/wal/manager.go opens on a directory with segments.
use my_dfs.Common.{
  ℕ, ◌+◌, ◌≡◌, refl, ap, ◌∙◌, subst, some, List, [], ◌∷◌, ◌++◌, append-nil, arith, ok, Codec,
  length, length-append,
}
use my_dfs.Wal.Entry.{Entry}
use my_dfs.Wal.Entry.Framing.{Encodes, last_of, find_last_record-Encodes}
use my_dfs.Wal.Disk.{Disk, SegmentFile, find_file, count_log_files, find_last_segment_number}
use my_dfs.Wal.State.{Wal}
use my_dfs.Wal.Segments.{find_last_sequence_number, last_sequence}
use my_dfs.Wal.Read.{reopen, init_wal}
use my_dfs.Wal.Log.{Ascends, AtMost, Rising, Stored, IsLog}
use my_dfs.Wal.Log.Thinning.{Ascends-last}
use my_dfs.Wal.Log.Files.{Rising-lt}

last_of-append :
    (o : Entry) (os : List Entry) (e : Entry) (es : List Entry)
    → last_of o (os ++ (e ∷ es)) ≡ last_of e es
unfolding last_of
last_of-append o [] e es = refl
last_of-append o (p ∷ os) e es = last_of-append p os e es

AtMost-last :
    (low : ℕ) (old : List Entry) (e : Entry) (es : List Entry)
    → Ascends low (old ++ (e ∷ es))
    → AtMost (last_of e es).log_sequence_no (old ++ (e ∷ es))
AtMost-last low [] e es a = Ascends-last low e es a
AtMost-last low (o ∷ os) e es a =
    subst (λ (l : Entry). AtMost l.log_sequence_no (o ∷ (os ++ (e ∷ es))))
      (last_of-append o os e es) (Ascends-last low o (os ++ (e ∷ es)) a)

find_last-Rising :
    (low : ℕ) (fs : List SegmentFile) (f : SegmentFile)
    → Rising low fs f.number
    → find_last_segment_number (fs ++ (f ∷ [])) ≡ f.number
unfolding find_last_segment_number
find_last-Rising low [] f r = omega arith
find_last-Rising low (g ∷ fs) f r =
    omega (arith, find_last-Rising g.number fs f r.1, Rising-lt g.number fs f.number r.1)

find_file-last :
    (low : ℕ) (fs : List SegmentFile) (f : SegmentFile)
    → Rising low fs f.number
    → find_file f.number (fs ++ (f ∷ [])) ≡ some f
unfolding find_file
find_file-last low [] f r = ground arith
find_file-last low (g ∷ fs) f r =
    ground (arith, find_file-last g.number fs f r.1, Rising-lt g.number fs f.number r.1)

module _ (codec : Codec Entry) where
  find_last_sequence_number-Encodes :
      (disk : Disk) (f : SegmentFile) (e : Entry) (es : List Entry)
      → Encodes codec f.bytes (e ∷ es)
      → find_last_sequence_number codec disk f ≡ ok (last_of e es).log_sequence_no
  unfolding find_last_sequence_number last_sequence
  find_last_sequence_number-Encodes disk f e es enc =
      ground (arith, find_last_record-Encodes codec f.bytes e es enc)

  abbrev opened : Wal → SegmentFile → ℕ → Wal
  opened w f seq_no = record w {
    last_segment_no = f.number;
    cur_segment_size = length f.bytes;
    segment = f.number;
    writer = some (record { target = f.number; buffer = [] });
    last_sequence_no = seq_no;
  }

  init_wal-opened :
      (w : Wal) (older : List SegmentFile) (current : SegmentFile) (e : Entry) (es : List Entry)
      → w.disk ≡ older ++ (current ∷ [])
      → Rising 0 older current.number
      → Encodes codec current.bytes (e ∷ es)
      → init_wal codec w ≡ (opened w current (last_of e es).log_sequence_no, ok tt)
  unfolding init_wal reopen count_log_files
  init_wal-opened w older current e es disk r enc =
      let found : find_file (find_last_segment_number w.disk) w.disk ≡ some current =
        rw disk (rw (find_last-Rising 0 older current r) (find_file-last 0 older current r)) in
      let some_files : length w.disk ≡ length older + 1 =
        ap length disk ∙ length-append older (current ∷ []) in
      ground (arith, found, some_files, find_last_sequence_number-Encodes w.disk current e es enc)

  -- Take a directory of segments with rising numbers that hold the frames of entries with rising
  -- sequence numbers, the last segment at least one. Then InitWAL succeeds, changes no file, and
  -- the WAL holds just these entries and continues from the last one's sequence number.
  pub init_wal-IsLog :
      (w : Wal) (older : List SegmentFile) (current : SegmentFile) (old : List Entry) (e : Entry)
      (es : List Entry)
      → w.disk ≡ older ++ (current ∷ [])
      → Rising 0 older current.number
      → Stored codec older old
      → Encodes codec current.bytes (e ∷ es)
      → Ascends 0 (old ++ (e ∷ es))
      → let (w', outcome) = init_wal codec w in
        (outcome ≡ ok tt)
        × IsLog codec w' (old ++ (e ∷ es))
        × (w'.last_sequence_no ≡ (last_of e es).log_sequence_no)
        × (w'.disk ≡ w.disk)
  init_wal-IsLog w older current old e es disk r stored enc a =
      rw (init_wal-opened w older current e es disk r enc) (
        refl,
        record {
          older = older;
          current = current;
          buffer = [];
          old_entries = old;
          current_entries = e ∷ es;
          disk_eq = disk;
          rising = r;
          segment_eq = refl;
          last_eq = refl;
          writer_eq = refl;
          entries_eq = refl;
          old_stored = stored;
          current_stored = rw (append-nil current.bytes) enc;
          ascends = a;
          at_most = AtMost-last 0 old e es a;
        },
        refl,
        refl,
      )
