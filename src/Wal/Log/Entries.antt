-- ===== src/Wal/Log/Entries.antt =====
-- The log during appendEntry of internal/wal/write.go.
use my_dfs.Common.{
  List, ℕ, ◌+◌, ◌%◌, ◌^◌, ◌≤◌, ◌<◌, ◌≡◌, refl, sym, ap, ◌∙◌, subst, ◌≡⟨◌⟩◌, ◌∎, ◌⊎◌, inl, inr, Bool,
  true, false, some, [], ◌∷◌, ◌++◌, append_assoc, arith, leb, Option-cases, Result, ok, err,
  Result-cases, Codec, length, All-append,
}
use my_dfs.Binary.{put_uint32}
use my_dfs.Wal.Entry.{Entry, WalError, frame}
use my_dfs.Wal.Entry.Framing.{IsBody, Encodes-append, Encodes-one}
use my_dfs.Wal.Disk.{SegmentFile, append_bytes}
use my_dfs.Wal.Buffer.{buffered_write, buffered_write_lem}
use my_dfs.Wal.State.{Wal}
use my_dfs.Wal.Append.{
  write_bytes, write_entry, new_entry, take_sequence_no, add_if, append_numbered, append_entry,
}
use my_dfs.Wal.Log.{AtMost, Thins, Rising, IsLog}
use my_dfs.Wal.Entry.{not_marshalled}
use my_dfs.Wal.Log.Thinning.{Thins-refl, Thins-trans, Thins-AtMost, Ascends-snoc}
use my_dfs.Wal.Log.Files.{update_file-last}
use my_dfs.Wal.Log.Removal.{AtMost-mono}
use my_dfs.Wal.Log.Rotation.{Follows, Follows-refl, add_new_log_file-Follows}

-- One write, to the last file of the directory.
write_bytes-last :
    (bytes buffer : List ℕ) (older : List SegmentFile) (current : SegmentFile) (w : Wal)
    → Rising 0 older current.number
    → w.disk ≡ older ++ current ∷ []
    → w.writer ≡ some (record { target = current.number; buffer = buffer })
    → write_bytes bytes w ≡ record w {
      disk = older ++ append_bytes (buffered_write buffer bytes).0 current ∷ [];
      writer = some (record { target = current.number; buffer = (buffered_write buffer bytes).1 });
    }
unfolding write_bytes
write_bytes-last bytes buffer older current w r d k =
    ground (arith, update_file-last (append_bytes (buffered_write buffer bytes).0) older current r)

regroup :
    (held out1 kept1 out2 kept2 buffer header body : List ℕ)
    → out1 ++ kept1 ≡ buffer ++ header
    → out2 ++ kept2 ≡ kept1 ++ body
    → ((held ++ out1) ++ out2) ++ kept2 ≡ (held ++ buffer) ++ (header ++ body)
regroup held out1 kept1 out2 kept2 buffer header body p q =
    ((held ++ out1) ++ out2) ++ kept2
    ≡⟨ append_assoc (held ++ out1) out2 kept2 ⟩ (held ++ out1) ++ (out2 ++ kept2)
    ≡⟨ ap (◌++◌ (held ++ out1)) q ⟩ (held ++ out1) ++ (kept1 ++ body)
    ≡⟨ (simp append_assoc) ⟩ held ++ ((out1 ++ kept1) ++ body)
    ≡⟨ ap (λ x. held ++ (x ++ body)) p ⟩ held ++ ((buffer ++ header) ++ body)
    ≡⟨ (simp append_assoc) ⟩ (held ++ buffer) ++ (header ++ body) ∎

module _ (codec : Codec Entry) where
  module _ (w : Wal) (es : List Entry) (e : Entry) (body : List ℕ) (high : ℕ) (l : IsLog codec w es)
      (good : IsBody codec e body) (below : AtMost high es) (newer : high < e.log_sequence_no)
      (fits : e.log_sequence_no ≤ w.last_sequence_no) where
    header : List ℕ
    header = put_uint32 (length body % 2 ^ 32)

    first : List ℕ × List ℕ
    first = buffered_write l.buffer header

    second : List ℕ × List ℕ
    unfolding first
    second = buffered_write first.1 body

    grown : SegmentFile
    unfolding second
    grown = append_bytes second.0 (append_bytes first.0 l.current)

    -- What the two writes of an entry make of a WAL, in one piece.
    written : Wal
    unfolding grown
    written = record w {
      disk = l.older ++ grown ∷ [];
      writer = some (record { target = l.current.number; buffer = second.1 });
      cur_segment_size = w.cur_segment_size + (length body + 4);
    }

    write_entry-written : write_entry body w ≡ written
    unfolding write_entry written header append_bytes
    write_entry-written =
        let (older, current) : List SegmentFile × SegmentFile = (l.older, l.current) in
        let header_written =
          write_bytes-last header l.buffer older current w l.rising l.disk_eq l.writer_eq in
        let body_written =
          write_bytes-last body first.1 older (append_bytes first.0 current) _ l.rising refl refl in
        ap (λ (v : Wal). record v { cur_segment_size = v.cur_segment_size + (length body + 4) })
          (ap (write_bytes body) header_written ∙ body_written)

    grown_bytes : grown.bytes ++ second.1 ≡ (l.current.bytes ++ l.buffer) ++ frame body
    unfolding grown append_bytes header frame
    grown_bytes =
        regroup l.current.bytes first.0 first.1 second.0 second.1 l.buffer header body
          (buffered_write_lem l.buffer header) (buffered_write_lem first.1 body)

    written-IsLog : IsLog codec written (es ++ e ∷ [])
    unfolding written append_bytes
    written-IsLog = record {
      older = l.older;
      current = grown;
      buffer = second.1;
      old_entries = l.old_entries;
      current_entries = l.current_entries ++ e ∷ [];
      disk_eq = refl;
      rising = l.rising;
      segment_eq = l.segment_eq;
      last_eq = l.last_eq;
      writer_eq = refl;
      entries_eq = rw l.entries_eq (append_assoc l.old_entries l.current_entries (e ∷ []));
      old_stored = l.old_stored;
      current_stored = rw grown_bytes (
          Encodes-append codec (l.current.bytes ++ l.buffer) (frame body) l.current_entries (e ∷ [])
            l.current_stored (Encodes-one codec e body good));
      ascends = Ascends-snoc 0 high es e l.ascends below (omega arith) newer;
      at_most =
          All-append (λ d. d.log_sequence_no ≤ w.last_sequence_no) es (e ∷ []) l.at_most (fits, tt);
    }

    pub write_entry-IsLog : IsLog codec (write_entry body w) (es ++ e ∷ [])
    write_entry-IsLog =
        subst (λ v. IsLog codec v (es ++ e ∷ [])) (sym write_entry-written) written-IsLog

    pub last_sequence_no-write_entry : (write_entry body w).last_sequence_no ≡ w.last_sequence_no
    last_sequence_no-write_entry =
        ap (λ (v : Wal). v.last_sequence_no) write_entry-written ∙ unfold written in refl

  -- A test of appendEntry, and the rotation where it succeeds.
  add_if-Follows :
      (full : Bool) (w : Wal) (es : List Entry)
      → IsLog codec w es
      → 2 ≤ w.max_segments
      → w.last_segment_no + 1 < 2 ^ 64
      → Follows codec 1 w es (add_if codec full w).0
  unfolding add_if
  add_if-Follows true w es l two fits = add_new_log_file-Follows codec w es l two fits
  add_if-Follows false w es l two fits = Follows-refl codec 1 w es l

  -- The entry that was appended stands behind the others, of which only some that the snapshot has
  -- are gone; or the call failed, and no other is gone.
  abbrev pub Appends : ℕ → Entry → List Entry → Wal × Result WalError (Unit {0}) → Type 0
  Appends bound e es (w', outcome) =
      (es' : List Entry) × Thins bound es es'
      × (((outcome ≡ ok tt)
            × IsLog codec w' (es' ++ e ∷ [])
            × (w'.last_sequence_no ≡ e.log_sequence_no))
          ⊎ ((failure : WalError) × (outcome ≡ err failure) × IsLog codec w' es'))

  -- The premise of appendEntry: there may be two segments, and neither counter is about to wrap.
  pub record HasRoom (w : Wal) : Type 0 where
    pub two_segments : 2 ≤ w.max_segments
    pub segment_numbers : w.last_segment_no + 2 < 2 ^ 64
    pub sequence_numbers : w.last_sequence_no + 1 < 2 ^ 64

  -- A larger counter is as good.
  counted :
      (w : Wal) (es : List Entry) (n : ℕ)
      → IsLog codec w es
      → w.last_sequence_no ≤ n
      → IsLog codec (record w { last_sequence_no = n }) es
  counted w es n l h = record {
    older = l.older;
    current = l.current;
    buffer = l.buffer;
    old_entries = l.old_entries;
    current_entries = l.current_entries;
    disk_eq = l.disk_eq;
    rising = l.rising;
    segment_eq = l.segment_eq;
    last_eq = l.last_eq;
    writer_eq = l.writer_eq;
    entries_eq = l.entries_eq;
    old_stored = l.old_stored;
    current_stored = l.current_stored;
    ascends = l.ascends;
    at_most = AtMost-mono w.last_sequence_no n es h l.at_most;
  }

  append_numbered-Appends :
      (size limit : ℕ) (payload : List ℕ) (is_delete : Bool) (w : Wal) (es : List Entry)
      → ((seq_no : ℕ) (body : List ℕ)
          → codec.marshal (new_entry payload is_delete seq_no) ≡ some body
          → length body < 2 ^ 32)
      → IsLog codec w es
      → 2 ≤ w.max_segments
      → w.last_segment_no + 1 < 2 ^ 64
      → w.last_sequence_no + 1 < 2 ^ 64
      → Appends w.last_snapshot
          (new_entry payload is_delete (w.last_sequence_no + 1))
          es
          (append_numbered codec size limit payload is_delete w)
  unfolding append_numbered take_sequence_no
  append_numbered-Appends size limit payload is_delete w es short l two seg seq =
      let e = new_entry payload is_delete (w.last_sequence_no + 1) in
      let v = record w { last_sequence_no = w.last_sequence_no + 1 } in
      let vl = counted w es (w.last_sequence_no + 1) l (omega arith) in
      let wraps : (w.last_sequence_no + 1) % 2 ^ 64 ≡ w.last_sequence_no + 1 = omega arith in
      rw wraps elim (Option-cases (codec.marshal e)) [
        | inl failed ↦ rw failed (es, Thins-refl w.last_snapshot es, inr (not_marshalled, refl, vl))
        | inr (body, found) ↦
            let full = leb limit (size + length body + 4) in
            let u = (add_if codec full v).0 in
            let (es', l', t, _, _, numbered, _) = add_if-Follows full v es vl two seg in
            let below = Thins-AtMost w.last_snapshot w.last_sequence_no t l.at_most in
            let good : IsBody codec e body =
              (found, short (w.last_sequence_no + 1) body found, refl) in
            rw found elim (Result-cases (add_if codec full v).1) [
              | inr (failure, failed) ↦ rw failed (es', t, inr (failure, refl, l'))
              | inl (_, done) ↦ rw done (
                es',
                t,
                inl (
                  refl,
                  write_entry-IsLog u es' e body w.last_sequence_no l' good below (omega arith)
                      (omega arith),
                  last_sequence_no-write_entry u es' e body w.last_sequence_no l' good below
                        (omega arith) (omega arith)
                      ∙ numbered,
                ),
              )
            ]
      ]

  -- Take a WAL that holds a list of entries, may have two segments, has neither counter about to
  -- wrap, and whose marshalled entries are shorter than 2^32 bytes. Then appendEntry either
  -- succeeds, and its entry, with the next sequence number, stands at the end of the list, or it
  -- fails and adds no entry. In both cases the WAL is well-formed again, and the only entries it
  -- lost have numbers up to the last snapshot's.
  pub append_entry-Appends :
      (payload : List ℕ) (is_delete : Bool) (w : Wal) (es : List Entry)
      → ((seq_no : ℕ) (body : List ℕ)
          → codec.marshal (new_entry payload is_delete seq_no) ≡ some body
          → length body < 2 ^ 32)
      → IsLog codec w es
      → HasRoom w
      → Appends w.last_snapshot
          (new_entry payload is_delete (w.last_sequence_no + 1))
          es
          (append_entry codec payload is_delete w)
  unfolding append_entry
  append_entry-Appends payload is_delete w es short l room =
      let full = leb w.max_segment_size w.cur_segment_size in
      let v = (add_if codec full w).0 in
      let (es', l', t, same, segments, numbered, begun) =
        add_if-Follows full w es l room.two_segments (omega arith) in
      elim (Result-cases (add_if codec full w).1) [
        | inr (failure, failed) ↦ rw failed (es', t, inr (failure, refl, l'))
        | inl (_, done) ↦
            let rest =
              append_numbered codec w.cur_segment_size w.max_segment_size payload is_delete v in
            let (es'', t', outcome) =
              subst (λ n. Appends v.last_snapshot (new_entry payload is_delete (n + 1)) es' rest)
                numbered
                (append_numbered-Appends w.cur_segment_size w.max_segment_size payload is_delete v
                  es' short l' (omega arith) (omega arith) (omega arith)) in
            rw done
              (es'', Thins-trans w.last_snapshot t (subst (λ b. Thins b es' es'') same t'), outcome)
      ]
