-- ===== src/Examples/Servers.antt =====
-- The metadata store of internal/files, and a server that starts again, on the files of the samples.
use my_dfs.Common.{
  ℕ, ◌+◌, ◌≡◌, refl, sym, subst, true, false, some, List, [], ◌∷◌, ◌++◌, append-nil, arith, ok,
}
use Prim.Native.String.{String}
use my_dfs.Binary.{put_uint64, put_uint32}
use my_dfs.Files.Dict.{lookup, insert, remove}
use my_dfs.Files.Store.{
  Journal, FileStore, apply, add_marshalled, add_file_metadata, delete_file_metadata, apply_all,
  restore, snapshot,
}
use my_dfs.Files.Replay.{put, delete, perform, replay, TakesAll, apply_all-replay}
use my_dfs.Files.Restoring.{ShortBytes, restore-snapshot}
use my_dfs.Files.Failures.{Answers, add_file_metadata-Answers, delete_file_metadata-Answers}
use my_dfs.Files.Keys.{IsKeyed, store-IsKeyed, restore-snapshot_store, snapshot-HasBytesAll}
use my_dfs.Files.Recovery.{enable_snapshots, append_flushed, wal_journal}
use my_dfs.Files.Recovery.Restart.{IsSettled, Restarts, fresh, empty_view, enable_snapshots-replay}
use my_dfs.Wal.Entry.{Entry, frame, get_is_delete}
use my_dfs.Wal.Append.{new_entry, append_entry, append_numbered, take_sequence_no, add_if}
use my_dfs.Wal.State.{Wal}
use my_dfs.Examples.Samples.{
  entry_codec, marshal_entry, meta_codec, marshal_meta, unmarshal_meta, entry_a, entry_b, body_a,
  body_b, bytes_a, bytes_b, file_a, file_b, running, running-IsLog, two_frames,
}

-- A journal that counts what is appended.
abbrev pub counter : Journal ℕ
counter = record { append = λ n bytes is_delete. (n + 1, true) }

abbrev pub with_a : FileStore ℕ
with_a = record { files = ("a", file_a) ∷ []; wal = 0 }

with_a-IsKeyed : IsKeyed with_a.files
unfolding lookup
with_a-IsKeyed = (refl, refl, tt)

store-IsKeyed_example :
    IsKeyed (add_file_metadata counter meta_codec file_b true with_a).0.files
    × IsKeyed (delete_file_metadata counter meta_codec "a" with_a).0.files
store-IsKeyed_example = store-IsKeyed counter meta_codec file_b true "a" with_a with_a-IsKeyed

abbrev stream_a : List ℕ
unfolding put_uint32
stream_a = put_uint32 2 ++ bytes_a

written_a :
    {L : Type 0} (journal : Journal L) → snapshot journal meta_codec (file_a ∷ []) ≡ ok stream_a
unfolding snapshot marshal_meta put_uint32
written_a journal = refl

short_a : {L : Type 0} (journal : Journal L) → ShortBytes journal meta_codec (file_a ∷ [])
unfolding marshal_meta
short_a journal = (λ bytes h. ground (arith, h), tt)

abbrev delete_a : Entry
delete_a = new_entry bytes_a true 3

-- The files of `with_a` over the log of the samples.
abbrev pub logged_a : FileStore Wal
logged_a = record { files = ("a", file_a) ∷ []; wal = running }

abbrev pub walled : Journal Wal
walled = wal_journal entry_codec meta_codec

running-takes : (walled.append running bytes_a true).1 ≡ true
unfolding append_flushed append_entry append_numbered take_sequence_no add_if marshal_entry
running-takes = refl

logged-TakesAll :
    TakesAll walled meta_codec (entry_b ∷ delete_a ∷ []) (put file_b ∷ delete "a" ∷ []) logged_a
unfolding apply unmarshal_meta marshal_meta get_is_delete add_file_metadata add_marshalled lookup
    insert remove
logged-TakesAll = (
  tt,
  (
    λ meta bytes found e.
        let kept : file_a ≡ meta = ground (arith, found) in
        let encoded : marshal_meta file_a ≡ some bytes =
          subst (λ m. marshal_meta m ≡ some bytes) (sym kept) e in
        subst (λ b. (walled.append running b true).1 ≡ true) (ground (arith, encoded))
          running-takes,
    tt,
  ),
)

apply_all-replay_example :
    let (s', outcome) = apply_all walled meta_codec (entry_b ∷ delete_a ∷ []) logged_a in
    (outcome ≡ ok tt)
    × ((key : String)
        → lookup key s'.files
          ≡ replay (put file_b ∷ delete "a" ∷ []) (λ k. lookup k logged_a.files) key)
unfolding unmarshal_meta marshal_meta get_is_delete
apply_all-replay_example =
    apply_all-replay walled meta_codec (entry_b ∷ delete_a ∷ []) (put file_b ∷ delete "a" ∷ [])
      logged_a logged-TakesAll
      (λ key meta found.
        snapshot-HasBytesAll walled meta_codec logged_a.files stream_a key meta (written_a walled)
          found)
      ((refl, refl, (bytes_b, refl)), ((file_a, refl, refl, refl), tt))

restore-snapshot_example :
    let (s', outcome) = restore counter meta_codec stream_a with_a in
    (outcome ≡ ok tt)
    × (s'.wal ≡ 0)
    × ((key : String)
        → lookup key s'.files ≡ replay (put file_a ∷ []) (λ k. lookup k with_a.files) key)
restore-snapshot_example =
    restore-snapshot counter meta_codec (file_a ∷ []) stream_a with_a (written_a counter)
      (short_a counter)

restore-snapshot_store_example :
    let (s', outcome) = restore counter meta_codec stream_a (record { files = []; wal = 7 }) in
    (outcome ≡ ok tt) × ((key : String) → lookup key s'.files ≡ lookup key with_a.files)
restore-snapshot_store_example =
    restore-snapshot_store counter meta_codec with_a stream_a 7 with_a-IsKeyed (written_a counter)
      (short_a counter)

-- Both entries are in the file; a snapshot was taken between them.
abbrev restarted : Wal
restarted = record running {
  disk = record { number = 1; bytes = frame body_a ++ frame body_b; synced = 18 } ∷ [];
  writer = some (record { target = 1; buffer = [] });
  snapshot = some (put_uint64 1 ++ stream_a);
}

restarted-IsSettled : IsSettled entry_codec meta_codec restarted (entry_a ∷ entry_b ∷ [])
restarted-IsSettled = record {
  start = 1;
  log = record {
    older = [];
    current = record { number = 1; bytes = frame body_a ++ frame body_b; synced = 18 };
    buffer = [];
    old_entries = [];
    current_entries = entry_a ∷ entry_b ∷ [];
    disk_eq = refl;
    rising = omega arith;
    segment_eq = refl;
    last_eq = refl;
    writer_eq = refl;
    entries_eq = refl;
    old_stored = refl;
    current_stored = rw (append-nil (frame body_a ++ frame body_b)) two_frames;
    ascends = running-IsLog.ascends;
    at_most = running-IsLog.at_most;
  };
  stored = (entry_a ∷ entry_b ∷ [], [], refl, two_frames, refl);
  fits = omega arith;
  consecutive = (refl, tt);
}

restarted-Restarts :
    Restarts entry_codec meta_codec restarted
      (entry_a ∷ entry_b ∷ [])
      with_a.files
      stream_a
      1
      []
      (put file_a ∷ [])
      (put file_b ∷ [])
unfolding replay perform lookup unmarshal_meta marshal_meta get_is_delete
restarted-Restarts = record {
  settled = restarted-IsSettled;
  snapshot_file = refl;
  seq_fits = omega arith;
  keyed = with_a-IsKeyed;
  written = written_a (wal_journal entry_codec meta_codec);
  short = short_a (wal_journal entry_codec meta_codec);
  performed = λ key. refl;
  records = ((refl, refl, (bytes_a, refl)), ((refl, refl, (bytes_b, refl)), tt));
  puts = (tt, (tt, tt));
}

enable_snapshots-replay_example :
    let (s', outcome) =
      enable_snapshots entry_codec meta_codec (fresh entry_codec meta_codec restarted) in
    (outcome ≡ ok tt)
    × (s'.wal.last_snapshot ≡ 1)
    × ((key : String) → lookup key s'.files ≡ replay (put file_a ∷ put file_b ∷ []) empty_view key)
enable_snapshots-replay_example =
    enable_snapshots-replay entry_codec meta_codec restarted (entry_a ∷ entry_b ∷ []) with_a.files
      stream_a 1 [] (put file_a ∷ []) (put file_b ∷ []) restarted-Restarts

-- A journal that refuses every record.
abbrev refusing : Journal ℕ
refusing = record { append = λ n bytes is_delete. (n, false) }

add_file_metadata-Answers_example :
    let (s', outcome) = add_file_metadata refusing meta_codec file_b true with_a in
    (outcome ≡ ok tt)
    × (s'.wal ≡ 0)
    × ((key : String) → lookup key s'.files ≡ lookup key with_a.files)
unfolding marshal_meta
add_file_metadata-Answers_example =
    add_file_metadata-Answers refusing meta_codec file_b bytes_b with_a refl

delete_file_metadata-Answers_example :
    let (s', outcome) = delete_file_metadata counter meta_codec "a" with_a in
    Answers counter meta_codec (delete "a") with_a 1 true s' outcome
unfolding marshal_meta lookup
delete_file_metadata-Answers_example =
    delete_file_metadata-Answers counter meta_codec "a" file_a bytes_a with_a refl refl
