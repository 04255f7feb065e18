-- ===== src/Wal/Log/Torn.antt =====
-- InitWAL of internal/wal/manager.go on a log whose last record was written in part.
use my_dfs.Common.{
  ℕ, zero, suc, ◌+◌, ◌%◌, ◌^◌, ◌≤◌, ◌<◌, ◌≡◌, refl, sym, ap, ◌∙◌, subst, ◌⊎◌, inl, inr, some, List,
  [], ◌∷◌, ◌++◌, append_assoc, arith, Result, ok, err, Codec, length, take, length-append,
  length-take, length-drop, drop_all, drop-append,
}
use my_dfs.Binary.{put_uint32, uint32_of-put}
use my_dfs.Wal.Entry.{
  Entry, WalError, length_not_read, body_not_read, frame, read_length, last_record_at, find_last,
  find_last_record,
}
use my_dfs.Wal.Entry.Framing.{Encodes, find_last_step, length-frame, length-Encodes}
use my_dfs.Wal.Disk.{count_log_files, find_last_segment_number, SegmentFile, find_file}
use my_dfs.Wal.State.{Wal}
use my_dfs.Wal.Segments.{last_sequence, find_last_sequence_number}
use my_dfs.Wal.Read.{reopen, init_wal}

-- The call fails as it reads the length or the body of a record.
abbrev pub IsUnread : {A : Type 0} → Result WalError A → Type 0
IsUnread r = (r ≡ err length_not_read) ⊎ (r ≡ err body_not_read)

-- A part of the frame ends within its length or within its body.
take-frame :
    (k : ℕ) (body : List ℕ)
    → 0 < k
    → length body < 2 ^ 32
    → (read_length (take k (frame body)) ≡ err length_not_read)
      ⊎ ((4 ≤ k) × (part : List ℕ) × (read_length (take k (frame body)) ≡ ok (length body, part)))
unfolding read_length frame put_uint32
take-frame zero body pos fits = absurd (omega arith)
take-frame (suc zero) body pos fits = inl refl
take-frame (suc (suc zero)) body pos fits = inl refl
take-frame (suc (suc (suc zero))) body pos fits = inl refl
take-frame (suc (suc (suc (suc k)))) body pos fits = inr (
  omega arith,
  take k body,
  ap (λ n. ok (n, take k body)) (uint32_of-put (length body % 2 ^ 32) (omega arith) ∙ omega arith),
)

module _ (codec : Codec Entry) where
  find_last-torn :
      (fuel : ℕ) (read body : List ℕ) (k prev : ℕ)
      → 0 < k
      → k < 4 + length body
      → length body < 2 ^ 32
      → IsUnread (find_last codec (suc (suc fuel)) (read ++ take k (frame body)) (length read) prev)
  unfolding find_last last_record_at read_length
  find_last-torn fuel read body k prev pos part fits =
      let torn = take k (frame body) in
      let file = read ++ torn in
      let here = drop-append read torn in
      let size = length-append read torn in
      let cut = length-take k (frame body) in
      let whole = length-frame codec body in
      elim (take-frame k body pos fits) [
        | inl short ↦ inl (ground (arith, here, short))
        | inr (long, left, read_it) ↦ inr (
            ground (
              arith,
              here,
              read_it,
              drop_all (length read + 4 + length body) file (omega (arith, size, cut, whole)),
              length-drop (length read + 4) file,
              size,
              cut,
              whole,
            ))
      ]

  -- The loop of findLastRecord before the frames of whole entries and a part of one more.
  find_last-Encodes_torn :
      (fuel : ℕ) (read rest body : List ℕ) (es : List Entry) (k prev : ℕ)
      → Encodes codec rest es
      → length es + 1 < fuel
      → 0 < k
      → k < 4 + length body
      → length body < 2 ^ 32
      → IsUnread (find_last codec fuel (read ++ (rest ++ take k (frame body))) (length read) prev)
  find_last-Encodes_torn zero read rest body es k prev h enough pos part fits = absurd (omega arith)
  find_last-Encodes_torn (suc zero) read rest body es k prev h enough pos part fits =
      absurd (omega arith)
  find_last-Encodes_torn (suc (suc fuel)) read rest body [] k prev h enough pos part fits =
      rw h (find_last-torn fuel read body k prev pos part fits)
  find_last-Encodes_torn (suc (suc fuel)) read rest body (e ∷ es) k prev (next, rest', good, eq, h)
        enough pos part fits =
      let torn = take k (frame body) in
      let file = read ++ (rest ++ torn) in
      let there : rest ++ torn ≡ frame next ++ (rest' ++ torn) =
        ap (λ xs. xs ++ torn) eq ∙ append_assoc (frame next) rest' torn in
      let step =
        find_last_step codec (suc fuel) file next (rest' ++ torn) (length read) prev good.1
          (drop-append read (rest ++ torn) ∙ there) in
      let moved : (read ++ frame next) ++ (rest' ++ torn) ≡ file =
        append_assoc read (frame next) (rest' ++ torn) ∙ ap (λ xs. read ++ xs) (sym there) in
      let at : length (read ++ frame next) ≡ length read + 4 + length next =
        omega (arith, length-append read (frame next), length-frame codec next) in
      subst IsUnread
        (ap (λ (p : List ℕ × ℕ). find_last codec (suc fuel) p.0 p.1 (length next))
            (ground (arith, moved, at))
          ∙ sym step)
        (find_last-Encodes_torn (suc fuel) (read ++ frame next) rest' body es k (length next) h
          (omega arith) pos part fits)

  -- If the last segment of a directory holds the frames of whole entries that verify, each of less
  -- than 2^32 bytes, and behind them a part of one more frame, which is neither empty nor whole,
  -- then InitWAL returns an error: the length or the body of a record could not be read.
  pub init_wal-IsUnread :
      (w : Wal) (f : SegmentFile) (front body : List ℕ) (es : List Entry) (k : ℕ)
      → 0 < count_log_files w.disk
      → find_file (find_last_segment_number w.disk) w.disk ≡ some f
      → Encodes codec front es
      → f.bytes ≡ front ++ take k (frame body)
      → 0 < k
      → k < 4 + length body
      → length body < 2 ^ 32
      → IsUnread (init_wal codec w).1
  unfolding init_wal reopen find_last_sequence_number last_sequence find_last_record
  init_wal-IsUnread w f front body es k some_files last h torn pos part fits =
      let size = length-append front (take k (frame body)) in
      let cut = length-take k (frame body) in
      let unread =
        find_last-Encodes_torn (suc (length f.bytes)) [] front body es k 0 h
          (omega (
            arith,
            ap length torn,
            size,
            cut,
            length-frame codec body,
            length-Encodes codec front es h,
          ))
          pos part fits in
      elim (subst (λ bytes. IsUnread (find_last codec (suc (length f.bytes)) bytes 0 0)) (sym torn)
        unread) [
          | inl failed ↦ inl (ground (arith, some_files, last, failed))
          | inr failed ↦ inr (ground (arith, some_files, last, failed))
        ]
