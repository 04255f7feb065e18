-- ===== src/Client/Output.antt =====
-- internal/adaptors/writer_at.go over a file: a WriterAtAdaptper writes one piece behind the other.
pub mod Writes
pub mod Interleaved
use my_dfs.Common.{
  ℕ, zero, suc, ◌+◌, ◌-◌, ◌*◌, ◌/◌, ◌%◌, ◌^◌, ◌≤◌, ◌<◌, min, max, ◌≡◌, refl, sym, ap, ◌∙◌, subst,
  ◌≡⟨◌⟩◌, ◌∎, ◌≢◌, ◌↔◌, ◌⊎◌, inl, inr, Bool, true, false, ◌&&◌, ◌||◌, not, Option, none, some, List,
  [], ◌∷◌, ◌++◌, map, append-nil, append_assoc, arith, ltb, leb, ◌==◌, if◌then◌else◌, ltb→lt,
  lt→ltb, le→ltb, leb→le, le→leb, lt→leb, ==_iff, ==_refl, tests, Bool-cases, Option-cases, Result,
  ok, err, ◌>>=◌, ◌>>◌, or_fail, Result-cases, Codec, length, get_elem?, take, drop, replicate, All,
  length-append, take-append-drop, length-take, length-drop, take_all, drop_all, take-append,
  drop-append, All-append, nil_of_length, get_elem?-append, get_elem?-take, get_elem?-drop,
  get_elem?-some, get_elem?-ext,
}

-- os.File's WriteAt, on the bytes of the file: a gap before the offset is filled with zeros, and an
-- empty write does nothing.
unfoldable pub write_at : List ℕ → ℕ → List ℕ → List ℕ
write_at file off [] = file
write_at file off (b ∷ bs) =
    take off (file ++ replicate (off - length file) 0)
    ++ ((b ∷ bs) ++ drop (off + length (b ∷ bs)) file)

-- WriterAtAdaptper, with the file that it writes to.
pub record WriterAtAdapter : Type 0 where
  pub file : List ℕ
  pub off : ℕ

-- NewWriterAtAdapter
unfoldable pub new_writer_at_adapter : List ℕ → ℕ → WriterAtAdapter
new_writer_at_adapter file off = record { file = file; off = off }

-- Write, where WriteAt succeeds.
unfoldable pub adapter_write : WriterAtAdapter → List ℕ → WriterAtAdapter
adapter_write a bytes = record { file = write_at a.file a.off bytes; off = a.off + length bytes }

-- Pieces written one after another, as by io.CopyN.
unfoldable pub write_pieces : List (List ℕ) → WriterAtAdapter → WriterAtAdapter
write_pieces [] a = a
write_pieces (p ∷ ps) a = write_pieces ps (adapter_write a p)

-- Writes of several adapters to one file, each by the number of its adapter, in the order in which they
-- happen: `offs` is where each adapter stands.
unfoldable pub interleave : List (ℕ × List ℕ) → (ℕ → ℕ) → List ℕ → List ℕ
interleave [] offs file = file
interleave ((i, bytes) ∷ ws) offs file =
    let a = adapter_write (record { file = file; off = offs i }) bytes in
    interleave ws (λ j. if j == i then a.off else offs j) a.file

-- Calls of WriteAt at their offsets, one after the other.
unfoldable pub perform : List (ℕ × List ℕ) → List ℕ → List ℕ
perform [] file = file
perform ((off, bytes) ∷ ws) file = perform ws (write_at file off bytes)
