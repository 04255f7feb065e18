-- ===== src/Client/Partition.antt =====
-- The chunks that chunkFiles of internal/client/write_file.go makes, as pieces of the file.
use my_dfs.Common.{
  ℕ, zero, suc, ◌+◌, ◌-◌, ◌*◌, ◌%◌, ◌^◌, ◌≤◌, ◌<◌, min, ◌≡◌, refl, sym, ap, ◌∙◌, subst, ◌≢◌, inl,
  inr, some, [], ◌∷◌, ◌++◌, append_assoc, arith, leb, tests, Bool-cases, length, take, drop,
  length-append, take-append-drop, length-take, length-drop, drop_all, drop-append, nil_of_length,
}
use Prim.Native.String.{String}
use my_dfs.Binary.{put_uint32}
use my_dfs.Protocol.{new_message, type_write}
use my_dfs.Protocol.Frames.{IsSendable}
use my_dfs.Files.Meta.{ChunkMetaData, Chunk}
use my_dfs.Client.{
  List, chunk_size, section, chunk_count, chunk_at, chunk_loop, chunk_files, chunk_message,
}

module _ (hash_content : List ℕ → String) (encode_meta : ChunkMetaData → List ℕ) where
  -- The chunk is that of these bytes of the file, which begin at the offset.
  pub record IsChunk (c : Chunk) (off : ℕ) (content : List ℕ) : Type 0 where
    pub not_empty : 0 < length content
    pub fits : length content ≤ chunk_size
    pub metadata_eq : c.metadata ≡ record {
      id = hash_content content;
      chunk_info = some (record { size = length content; offset = off; addr = "" });
    }
    pub metadata_len_eq : c.metadata_len ≡ length (encode_meta c.metadata)
    pub payload_eq :
        c.payload ≡ put_uint32 (c.metadata_len % 2 ^ 32) ++ (encode_meta c.metadata ++ content)

  -- The chunks are those of consecutive pieces of the bytes, from the offset on to the end; each but
  -- the last has the full size.
  abbrev pub Cuts : List ℕ → ℕ → List Chunk → Type 0
  Cuts bytes off [] = bytes ≡ []
  Cuts bytes off (c ∷ cs) =
      (content : List ℕ) × (tail : List ℕ) × (bytes ≡ content ++ tail)
      × IsChunk c off content
      × ((tail ≢ []) → length content ≡ chunk_size)
      × Cuts tail (off + length content) cs

  section-rest :
      (front rest : List ℕ) (off n : ℕ)
      → length front ≡ off
      → section (front ++ rest) off n ≡ take n rest
  unfolding section
  section-rest front rest off n h = ground (arith, drop-append front rest, h)

  chunk_at-IsChunk :
      (front rest : List ℕ) (off n : ℕ)
      → length front ≡ off
      → 0 < n
      → n ≤ chunk_size
      → n ≤ length rest
      → IsChunk (chunk_at hash_content encode_meta (front ++ rest) off n) off (take n rest)
  unfolding chunk_at
  chunk_at-IsChunk front rest off n h some_bytes small fits =
      let long = length-take n rest in
      let cut = section-rest front rest off n h in
      record {
        not_empty = omega (arith, long);
        fits = omega (arith, long);
        metadata_eq = ground (arith, cut, long);
        metadata_len_eq = refl;
        payload_eq = ground (arith, cut);
      }

  -- One round less is left for what the round leaves of the file.
  chunk_count-round :
      (rounds size : ℕ)
      → suc rounds ≡ chunk_count size
      → (0 < size)
        × (rounds ≡ chunk_count (size - min size chunk_size))
        × (0 < rounds → chunk_size ≤ size)
  unfolding chunk_count
  chunk_count-round rounds size h = (ground arith, ground arith, λ more. ground arith)

  chunk_loop-Cuts :
      (rounds i : ℕ) (front rest : List ℕ)
      → rounds ≡ chunk_count (length rest)
      → (0 < rounds → length front ≡ i * chunk_size)
      → Cuts rest
          (length front)
          (chunk_loop hash_content encode_meta rounds i (length rest) (front ++ rest))
  unfolding chunk_loop chunk_count
  chunk_loop-Cuts zero i front rest count at = nil_of_length rest (ground (arith, count))
  chunk_loop-Cuts (suc rounds) i front rest count at =
      let n = min (length rest) chunk_size in
      let place = at (omega arith) in
      let (some_bytes, count', more_bytes) = chunk_count-round rounds (length rest) count in
      let long : length (take n rest) ≡ n = omega (arith, length-take n rest) in
      let same : (front ++ take n rest) ++ drop n rest ≡ front ++ rest =
        ground (arith, append_assoc front (take n rest) (drop n rest), take-append-drop n rest) in
      let left : length (drop n rest) ≡ length rest - n = length-drop n rest in
      let next : Cuts (drop n rest) (length (front ++ take n rest)) (
          chunk_loop hash_content encode_meta rounds (i + 1) (length (drop n rest))
            ((front ++ take n rest) ++ drop n rest)) =
        chunk_loop-Cuts rounds (i + 1) (front ++ take n rest) (drop n rest)
          (count' ∙ ap chunk_count (sym left))
          (λ more.
            omega (arith, length-append front (take n rest), more_bytes more, long, place)) in
      (
        take n rest,
        drop n rest,
        sym (take-append-drop n rest),
        subst
            (λ off.
              IsChunk (chunk_at hash_content encode_meta (front ++ rest) off n) (length front)
                (take n rest))
            place
            (chunk_at-IsChunk front rest (length front) n refl (omega arith) (omega arith)
              (omega arith)),
        λ tail_there. elim (Bool-cases (leb (length rest) chunk_size)) [
          | inl last ↦ absurd (tail_there (drop_all n rest (omega tests)))
          | inr longer ↦ ground (arith, long)
        ],
        subst
            (λ (t : ℕ × (ℕ × List ℕ)).
              Cuts (drop n rest) t.0
                (chunk_loop hash_content encode_meta rounds (i + 1) t.1.0 t.1.1))
            (ground (arith, length-append front (take n rest), left, same)) next,
      )

  -- The chunks that chunkFiles makes are those of consecutive pieces of the file, from its start to
  -- its end. None is empty, all but the last have the chunk size, and the last has at most that;
  -- each carries its size, its offset, the hash of its piece, and its metadata with its length
  -- before the piece.
  pub chunk_files-Cuts :
      (file : List ℕ) → Cuts file 0 (chunk_files hash_content encode_meta file (length file))
  unfolding chunk_files
  chunk_files-Cuts file = chunk_loop-Cuts (chunk_count (length file)) 0 [] file refl (λ h. refl)

  -- If the encoded metadata of a chunk leaves four bytes of a MiB, the message that sendChunk makes
  -- of the chunk has the length of its payload, without wrapping, and at most the maximal one.
  pub chunk_message-IsSendable :
      (c : Chunk) (off : ℕ) (content : List ℕ)
      → IsChunk c off content
      → c.metadata_len + 4 ≤ 2 ^ 20
      → (chunk_message c ≡ some (new_message type_write (some c.payload) (length c.payload)))
        × IsSendable (new_message type_write (some c.payload) (length c.payload)) c.payload
  unfolding chunk_message new_message put_uint32
  chunk_message-IsSendable c off content h small = ground (
    arith,
    h.payload_eq,
    h.metadata_len_eq,
    h.metadata_eq,
    h.fits,
    length-append (encode_meta c.metadata) content,
  )
