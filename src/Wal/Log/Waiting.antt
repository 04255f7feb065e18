-- ===== src/Wal/Log/Waiting.antt =====
-- The log when the flush has come that AppendEntry of internal/wal/write.go waits for.
use my_dfs.Common.{
  ℕ, ◌+◌, ◌^◌, ◌<◌, ◌≡◌, refl, ◌⊎◌, inl, inr, Bool, some, List, [], ◌∷◌, ◌++◌, arith, Result, ok,
  err, Codec, length,
}
use my_dfs.Wal.Entry.{Entry, WalError}
use my_dfs.Wal.State.{Wal}
use my_dfs.Wal.Segments.{flush}
use my_dfs.Wal.Append.{new_entry, append_entry, append_and_wait}
use my_dfs.Wal.Log.{Thins, Stored, IsLog}
use my_dfs.Wal.Log.Entries.{HasRoom, append_entry-Appends}
use my_dfs.Wal.Log.Reading.{flush-Stored}

module _ (codec : Codec Entry) where
  -- The call waits for the channel in use, and the next flush closes it and leaves the entry in the
  -- files; or the call fails and adds no entry.
  abbrev pub Waits : Entry → List Entry → Wal → Result WalError ℕ → Type 0
  Waits e es w outcome =
      ((outcome ≡ ok w.flush_done)
        × (w.flush_done < (flush w).flush_done)
        × Stored codec (flush w).disk (es ++ (e ∷ [])))
      ⊎ ((failure : WalError) × (outcome ≡ err failure) × IsLog codec w es)

  -- Take a WAL that holds a list of entries, may have two segments, has neither counter about to
  -- wrap, and whose marshalled entries are shorter than 2^32 bytes. Then AppendEntry either waits
  -- for the channel that the next flush closes, and after that flush the files alone hold its entry
  -- behind the others, or it fails and adds no entry. In both cases the only entries that are lost
  -- have numbers up to the last snapshot's.
  pub append_and_wait-Waits :
      (payload : List ℕ) (is_delete : Bool) (w : Wal) (es : List Entry)
      → ((seq_no : ℕ) (body : List ℕ)
          → codec.marshal (new_entry payload is_delete seq_no) ≡ some body
          → length body < 2 ^ 32)
      → IsLog codec w es
      → HasRoom codec w
      → let (w', outcome) = append_and_wait codec payload is_delete w in
        (es' : List Entry) × Thins w.last_snapshot es es'
        × Waits (new_entry payload is_delete (w.last_sequence_no + 1)) es' w' outcome
  unfolding append_and_wait
  append_and_wait-Waits payload is_delete w es short l room =
      let (es', t, cases) = append_entry-Appends codec payload is_delete w es short l room in
      let w' = (append_entry codec payload is_delete w).0 in
      let e = new_entry payload is_delete (w.last_sequence_no + 1) in
      elim cases [
        | inl (done, l', _) ↦
            let (_, stored, next) = flush-Stored codec w' (es' ++ (e ∷ [])) l' in
            rw done (es', t, inl (refl, omega (arith, next), stored))
        | inr (failure, failed, l') ↦ rw failed (es', t, inr (failure, refl, l'))
      ]
