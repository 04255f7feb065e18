-- ===== src/Client/Sending/Placed.antt =====
-- Where the chunks of internal/client/write_file.go stand in the file, and what the metadata of the file
-- says of them.
use my_dfs.Common.{
  ℕ, ◌+◌, ◌≡◌, refl, sym, ap, ◌∙◌, subst, inl, inr, none, some, [], ◌∷◌, ◌++◌, map, append_assoc,
  arith, Bool-cases, Option-cases, length, All, length-append, take-append, drop-append, All-imp,
  All-both,
}
use Prim.Native.String.{String}
use text.Mathlib.Text.{◌==◌ as str_eq}
use my_dfs.Files.Dict.{Dict, lookup, insert, remove}
use my_dfs.Files.Meta.{ChunkInfo, ChunkMetaData, Chunk, FileMetadata}
use my_dfs.Metaserver.{addressed, set_addresses}
use my_dfs.Client.{List, chunk_infos, build_file_metadata, update_chunk_info}
use my_dfs.Client.Collected.{HasInfo, build_file_metadata-last_info}
use my_dfs.Client.Partition.{IsChunk, Cuts}
use my_dfs.Client.Reading.Pieces.{place, FitsIn}
use my_dfs.Client.Reading.Registered.{AreDistinct, IsLast, AreDistinct-IsLast}

-- An info with the address that the metadata server sets.
abbrev pub readdressed : ChunkInfo → ChunkInfo
readdressed info = record info { addr = ":5001" }

module _ (hash_content : List ℕ → String) (encode_meta : ChunkMetaData → List ℕ) where
  -- The chunk is that of the bytes that its info places in the file.
  pub record IsPlaced (file : List ℕ) (c : Chunk) : Type 0 where
    pub info : ChunkInfo
    pub info_eq : c.metadata.chunk_info ≡ some info
    pub fits : FitsIn file info
    pub chunk : IsChunk hash_content encode_meta c info.offset (place file info)

  pub Cuts-IsPlaced :
      (front bytes : List ℕ) (off : ℕ) (cs : List Chunk)
      → length front ≡ off
      → Cuts hash_content encode_meta bytes off cs
      → All (IsPlaced (front ++ bytes)) cs
  Cuts-IsPlaced front bytes off [] long cuts = tt
  Cuts-IsPlaced front bytes off (c ∷ cs) long (content, tail, split_eq, chunk, full, cuts) =
      let info : ChunkInfo = record { size = length content; offset = off; addr = "" } in
      let there : place (front ++ bytes) info ≡ content =
        ground
          (arith, split_eq, drop-append front (content ++ tail), take-append content tail, long) in
      (
        record {
          info = info;
          info_eq = ap (λ (m : ChunkMetaData). m.chunk_info) chunk.metadata_eq;
          fits =
              omega
                (arith, length-append front bytes, length-append content tail, ap length split_eq);
          chunk = subst (IsChunk hash_content encode_meta c off) (sym there) chunk;
        },
        subst (λ whole. All (IsPlaced whole) cs)
            (append_assoc front content tail ∙ ap (λ rest. front ++ rest) (sym split_eq))
            (Cuts-IsPlaced (front ++ content) tail (off + length content) cs
              (omega (arith, length-append front content)) cuts),
      )

-- What holds of every chunk's id and info holds of every entry of the metadata.
All-remove :
    (P : String × ChunkInfo → Type 0) (id : String) (m : Dict ChunkInfo)
    → All P m
    → All P (remove id m)
unfolding remove
All-remove P id [] h = tt
All-remove P id ((j, info) ∷ m) (hx, h) = elim (Bool-cases (str_eq j id)) [
  | inl same ↦ rw (same, remove) (All-remove P id m h)
  | inr other ↦ rw (other, remove) (hx, All-remove P id m h)
]

pub All-chunk_infos :
    (P : String × ChunkInfo → Type 0) (cs : List Chunk) (m : Dict ChunkInfo)
    → All
        (λ (c : Chunk).
          (info : ChunkInfo) → c.metadata.chunk_info ≡ some info → P (c.metadata.id, info))
        cs
    → All P m
    → All P (chunk_infos cs m)
unfolding chunk_infos insert
All-chunk_infos P [] m h k = k
All-chunk_infos P (c ∷ cs) m (hx, h) k = elim (Option-cases c.metadata.chunk_info) [
  | inl absent ↦
      subst (All P) (ap (chunk_infos cs) (ground (arith, absent))) (All-chunk_infos P cs m h k)
  | inr (info, known) ↦ subst (All P) (ap (chunk_infos cs) (ground (arith, known))) (
      All-chunk_infos P cs (insert c.metadata.id info m) h
        (hx info known, All-remove P c.metadata.id m k))
]

pub All-set_addresses :
    (P : String × ChunkInfo → Type 0) (m : Dict ChunkInfo)
    → All (λ (e : String × ChunkInfo). P (e.0, readdressed e.1)) m
    → All P (set_addresses m)
unfolding set_addresses
All-set_addresses P [] h = tt
All-set_addresses P ((id, info) ∷ m) (hx, h) = (hx, All-set_addresses P m h)

lookup-set_addresses :
    (id : String) (m : Dict ChunkInfo) (info : ChunkInfo)
    → lookup id m ≡ some info
    → lookup id (set_addresses m) ≡ some (readdressed info)
unfolding lookup set_addresses
lookup-set_addresses id [] info h = absurd (ground (arith, h))
lookup-set_addresses id ((j, other) ∷ m) info h = elim (Bool-cases (str_eq j id)) [
  | inl same ↦ ground (arith, h, same)
  | inr differs ↦
      ground (arith, differs, lookup-set_addresses id m info (ground (arith, h, differs)))
]

-- The chunk with the address set in its info.
abbrev pub with_address : Chunk → Chunk
with_address c = record c {
  metadata = record c.metadata {
    chunk_info = elim c.metadata.chunk_info [ none ↦ none | some info ↦ some (readdressed info) ];
  };
}

update_chunk_info-found :
    (meta : FileMetadata) (cs : List Chunk)
    → All
        (λ (c : Chunk).
          (info : ChunkInfo) × (c.metadata.chunk_info ≡ some info)
          × (lookup c.metadata.id meta.chunk_info ≡ some (readdressed info)))
        cs
    → update_chunk_info meta cs ≡ map with_address cs
unfolding update_chunk_info
update_chunk_info-found meta [] h = refl
update_chunk_info-found meta (c ∷ cs) ((info, known, found), h) =
    ground (arith, known, found, update_chunk_info-found meta cs h)

pub update_chunk_info-addressed :
    (cs : List Chunk) (size : ℕ) (name : String)
    → All HasInfo cs
    → AreDistinct cs
    → update_chunk_info (addressed (build_file_metadata cs size name)) cs ≡ map with_address cs
update_chunk_info-addressed cs size name infos distinct =
    let meta = build_file_metadata cs size name in
    update_chunk_info-found (addressed meta) cs (
      All-imp (λ c. HasInfo c × IsLast cs c) _ cs
        (λ c ((info, known), last). (
          info,
          known,
          lookup-set_addresses c.metadata.id meta.chunk_info info
              (build_file_metadata-last_info cs size name c.metadata.id infos ∙ last none ∙ known),
        ))
        (All-both HasInfo (IsLast cs) cs infos (AreDistinct-IsLast cs distinct)))
