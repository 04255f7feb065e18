-- ===== src/Files/Restoring.antt =====
-- Snapshot and Restore of internal/files/file_store.go are inverse, up to the order of the map.
use my_dfs.Common.{
  All, ℕ, zero, suc, ◌%◌, ◌^◌, ◌≤◌, ◌<◌, ◌≡◌, refl, ◌∙◌, inl, inr, false, some, List, [], ◌∷◌, ◌++◌,
  map, arith, Option-cases, ok, Result-cases, Codec, length, length-append, take-append,
  drop-append,
}
use Prim.Native.String.{String}
use my_dfs.Binary.{put_uint32, uint32_of-put}
use my_dfs.Files.Dict.{lookup, insert, lookup-insert}
use my_dfs.Files.Meta.{FileMetadata}
use my_dfs.Files.Store.{
  Journal, FileStore, add_marshalled, add_file_metadata, snapshot, restore_body, restore_loop,
  restore,
}
use my_dfs.Files.Replay.{replay, perform, put, replay_cong}
use my_dfs.Wal.Entry.{read_length}

module _ {L : Type 0} (journal : Journal L) (codec : Codec FileMetadata) where
  open codec use {marshal, unmarshal-marshal}

  -- The serialisation of each of these is short enough for its length prefix.
  abbrev pub ShortBytes : List FileMetadata → Type 0
  ShortBytes = All (λ meta. (bytes : List ℕ) → marshal meta ≡ some bytes → length bytes < 2 ^ 32)

  add-replay :
      (meta : FileMetadata) (bytes : List ℕ) (s : FileStore L)
      → marshal meta ≡ some bytes
      → add_file_metadata journal codec meta false s
        ≡ (record s { files = insert meta.name meta s.files }, ok tt)
  unfolding add_file_metadata add_marshalled
  add-replay meta bytes s e = rw (e, add_file_metadata) refl

  restore_step :
      (fuel : ℕ) (meta : FileMetadata) (bytes tail : List ℕ) (s : FileStore L)
      → marshal meta ≡ some bytes
      → length bytes < 2 ^ 32
      → restore_loop journal codec
          (suc fuel)
          (put_uint32 (length bytes % 2 ^ 32) ++ (bytes ++ tail))
          s
        ≡ restore_loop journal codec fuel tail (record s { files = insert meta.name meta s.files })
  unfolding restore_loop restore_body read_length put_uint32
  restore_step fuel meta bytes tail s e fits = ground (
    arith,
    uint32_of-put (length bytes % 2 ^ 32),
    length-append bytes tail,
    take-append bytes tail,
    drop-append bytes tail,
    unmarshal-marshal meta bytes e,
    add-replay meta bytes s e,
  )

  length-snapshot :
      (metas : List FileMetadata) (stream : List ℕ)
      → snapshot journal codec metas ≡ ok stream
      → length metas ≤ length stream
  unfolding snapshot put_uint32
  length-snapshot [] stream e = omega arith
  length-snapshot (meta ∷ metas) stream e = elim (Option-cases (marshal meta)) [
    | inl failed ↦ absurd (ground (arith, e))
    | inr (bytes, found) ↦ elim (Result-cases (snapshot journal codec metas)) [
      | inr (failure, failed) ↦ absurd (ground (arith, e))
      | inl (tail, written) ↦
          ground (arith, e, length-snapshot metas tail written, length-append bytes tail)
    ]
  ]

  restore_loop-snapshot :
      (fuel : ℕ) (metas : List FileMetadata) (stream : List ℕ) (s : FileStore L)
      → snapshot journal codec metas ≡ ok stream
      → ShortBytes metas
      → length metas < fuel
      → let (s', outcome) = restore_loop journal codec fuel stream s in
        (outcome ≡ ok tt)
        × (s'.wal ≡ s.wal)
        × ((key : String)
            → lookup key s'.files ≡ replay (map put metas) (λ k. lookup k s.files) key)
  unfolding snapshot replay
  restore_loop-snapshot zero metas stream s e short enough = absurd (omega arith)
  restore_loop-snapshot (suc fuel) [] stream s e short enough =
      rw (← stream_eq) (unfold restore_loop read_length in (refl, refl, λ key. refl))
    where
      stream_eq : [] ≡ stream
      stream_eq = ground (arith, e)
  restore_loop-snapshot (suc fuel) (meta ∷ metas) stream s e short enough =
      elim (Option-cases (marshal meta)) [
        | inl failed ↦ absurd (ground (arith, e))
        | inr (bytes, found) ↦ elim (Result-cases (snapshot journal codec metas)) [
          | inr (failure, failed) ↦ absurd (ground (arith, e))
          | inl (tail, written) ↦
              let stream_eq : stream ≡ put_uint32 (length bytes % 2 ^ 32) ++ (bytes ++ tail) =
                ground (arith, e) in
              let step = restore_step fuel meta bytes tail s found (short.0 bytes found) in
              let (done, same, view) =
                restore_loop-snapshot fuel metas tail
                  (record s { files = insert meta.name meta s.files }) written short.1
                  (omega arith) in
              rw (stream_eq, step)
                (
                  done,
                  same,
                  λ key.
                      view key
                      ∙ replay_cong journal codec (map put metas)
                          (λ k. lookup k (insert meta.name meta s.files))
                          (perform (put meta) (λ k. lookup k s.files)) key
                          (λ k. unfold perform in lookup-insert meta.name k meta s.files),
                )
        ]
      ]

  -- If the snapshot of a list of metadata can be written, and no record of it has 2^32 bytes, then
  -- Restore of it into any store succeeds and keeps the log, and every lookup answers as after
  -- adding the listed files in order.
  pub restore-snapshot :
      (metas : List FileMetadata) (stream : List ℕ) (s : FileStore L)
      → snapshot journal codec metas ≡ ok stream
      → ShortBytes metas
      → let (s', outcome) = restore journal codec stream s in
        (outcome ≡ ok tt)
        × (s'.wal ≡ s.wal)
        × ((key : String)
            → lookup key s'.files ≡ replay (map put metas) (λ k. lookup k s.files) key)
  unfolding restore
  restore-snapshot metas stream s e short =
      restore_loop-snapshot (suc (length stream)) metas stream s e short
        (omega (arith, length-snapshot metas stream e))
