-- ===== src/Client/Reading/Pieces.antt =====
-- The writes of one chunk by the jobs of internal/client/read_file.go.
use my_dfs.Common.{
  ℕ, ◌+◌, ◌≤◌, ◌≡◌, refl, Bool, false, ◌&&◌, ◌||◌, List, [], ◌∷◌, ◌++◌, arith, ltb, leb, length,
  take, drop, All, length-append, length-take, length-drop, get_elem?-append, get_elem?-take,
  get_elem?-drop,
}
use Prim.Native.String.{String}
use my_dfs.Files.Meta.{ChunkInfo}
use my_dfs.Client.Output.{new_writer_at_adapter, write_at, adapter_write, write_pieces, perform}
use my_dfs.Client.Output.Writes.{Matches, within, covers}

abbrev pub joined : List (List ℕ) → List ℕ
joined [] = []
joined (p ∷ ps) = p ++ joined ps

-- The writes that an adapter at the offset makes of the pieces.
abbrev pub placed : ℕ → List (List ℕ) → List (ℕ × List ℕ)
placed off [] = []
placed off (p ∷ ps) = (off, p) ∷ placed (off + length p) ps

pub write_pieces-placed :
    (ps : List (List ℕ)) (file : List ℕ) (off : ℕ)
    → (write_pieces ps (new_writer_at_adapter file off)).file ≡ perform (placed off ps) file
unfolding write_pieces adapter_write new_writer_at_adapter perform
write_pieces-placed [] file off = refl
write_pieces-placed (p ∷ ps) file off =
    write_pieces-placed ps (write_at file off p) (off + length p)

pub perform-append :
    (ws vs : List (ℕ × List ℕ)) (file : List ℕ)
    → perform (ws ++ vs) file ≡ perform vs (perform ws file)
unfolding perform
perform-append [] vs file = refl
perform-append ((off, bytes) ∷ ws) vs file = perform-append ws vs (write_at file off bytes)

pub covers-append :
    (ws vs : List (ℕ × List ℕ)) (i : ℕ) → covers (ws ++ vs) i ≡ (covers ws i || covers vs i)
covers-append [] vs i = refl
covers-append (w ∷ ws) vs i = ground (arith, covers-append ws vs i)

pub covers-placed :
    (ps : List (List ℕ)) (off i : ℕ) → covers (placed off ps) i ≡ within (off, joined ps) i
covers-placed [] off i = ground arith
covers-placed (p ∷ ps) off i =
    ground (arith, covers-placed ps (off + length p) i, length-append p (joined ps))

pub Matches-placed :
    (content : List ℕ) (ps : List (List ℕ)) (off : ℕ)
    → Matches content (off, joined ps)
    → All (Matches content) (placed off ps)
Matches-placed content [] off m = tt
Matches-placed content (p ∷ ps) off (fits, same) =
    let long = length-append p (joined ps) in
    (
      (
        omega (arith, long),
        λ i here. ground (arith, same i (omega (arith, long)), get_elem?-append p (joined ps) i),
      ),
      Matches-placed content ps (off + length p) (
        omega (arith, long),
        λ i here. ground (
          arith,
          same (length p + i) (omega (arith, long)),
          get_elem?-append p (joined ps) (length p + i),
        ),
      ),
    )

-- The bytes that the info places.
abbrev pub place : List ℕ → ChunkInfo → List ℕ
place content info = take info.size (drop info.offset content)

abbrev pub FitsIn : List ℕ → ChunkInfo → Type 0
FitsIn content info = info.offset + info.size ≤ length content

pub place-Matches :
    (content : List ℕ) (info : ChunkInfo)
    → FitsIn content info
    → Matches content (info.offset, place content info)
place-Matches content info fits =
    let rest = drop info.offset content in
    let short = length-take info.size rest in
    let behind = length-drop info.offset content in
    (
      omega (arith, short, behind),
      λ i here. ground (
        arith,
        get_elem?-take info.size rest i,
        get_elem?-drop info.offset content i,
        short,
        behind,
      ),
    )

-- One of the attempts reads the position.
abbrev pub reads : List (String × ChunkInfo) → ℕ → Bool
reads [] i = false
reads ((id, info) ∷ jobs) i = (leb info.offset i && ltb i (info.offset + info.size)) || reads jobs i
