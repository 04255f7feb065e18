-- ===== src/Client/Output/Interleaved.antt =====
-- Several adapters of internal/adaptors/writer_at.go that write to one file.
use my_dfs.Common.{
  ℕ, ◌+◌, ◌≤◌, ◌<◌, ◌≡◌, refl, sym, ◌∙◌, subst, ==_refl, inl, inr, true, List, [], ◌∷◌, ◌++◌, arith,
  ◌==◌, if◌then◌else◌, Bool-cases, length, All, length-append, get_elem?-append,
}
use my_dfs.Client.Output.{adapter_write, interleave, perform}
use my_dfs.Client.Output.Writes.{Matches, within, covers, perform_covered}

-- All that the adapter writes, one piece behind the other.
abbrev pub written_by : ℕ → List (ℕ × List ℕ) → List ℕ
written_by i [] = []
written_by i ((j, bytes) ∷ ws) =
    let rest = written_by i ws in if i == j then bytes ++ rest else rest

abbrev moved : ℕ → List ℕ → (ℕ → ℕ) → ℕ → ℕ
moved i bytes offs j = if j == i then offs i + length bytes else offs j

-- The writes with the offsets at which they happen.
abbrev at_offsets : List (ℕ × List ℕ) → (ℕ → ℕ) → List (ℕ × List ℕ)
at_offsets [] offs = []
at_offsets ((i, bytes) ∷ ws) offs = (offs i, bytes) ∷ at_offsets ws (moved i bytes offs)

interleave-perform :
    (ws : List (ℕ × List ℕ)) (offs : ℕ → ℕ) (file : List ℕ)
    → interleave ws offs file ≡ perform (at_offsets ws offs) file
unfolding interleave perform adapter_write
interleave-perform [] offs file = refl
interleave-perform ((i, bytes) ∷ ws) offs file = interleave-perform ws (moved i bytes offs) _

Matches-append :
    (content bytes rest : List ℕ) (off : ℕ)
    → Matches content (off, bytes ++ rest)
    → Matches content (off, bytes) × Matches content (off + length bytes, rest)
Matches-append content bytes rest off (fits, same) =
    let long = length-append bytes rest in
    (
      (
        omega (arith, long),
        λ k here. ground (arith, same k (omega (arith, long)), get_elem?-append bytes rest k),
      ),
      (
        omega (arith, long),
        λ k here. ground (
          arith,
          same (length bytes + k) (omega (arith, long)),
          get_elem?-append bytes rest (length bytes + k),
        ),
      ),
    )

-- Each adapter writes what the content has from its offset on.
abbrev pub MatchesAll : List ℕ → List (ℕ × List ℕ) → (ℕ → ℕ) → Type 0
MatchesAll content ws offs = (i : ℕ) → Matches content (offs i, written_by i ws)

MatchesAll-first :
    (content bytes : List ℕ) (i : ℕ) (ws : List (ℕ × List ℕ)) (offs : ℕ → ℕ)
    → MatchesAll content ((i, bytes) ∷ ws) offs
    → Matches content (offs i, bytes ++ written_by i ws)
MatchesAll-first content bytes i ws offs m =
    subst (λ w. Matches content (offs i, w)) (ground (arith, ==_refl i)) (m i)

MatchesAll-later :
    (content bytes : List ℕ) (i : ℕ) (ws : List (ℕ × List ℕ)) (offs : ℕ → ℕ)
    → MatchesAll content ((i, bytes) ∷ ws) offs
    → MatchesAll content ws (moved i bytes offs)
MatchesAll-later content bytes i ws offs m j =
    let (_, rest) =
      Matches-append content bytes (written_by i ws) (offs i)
        (MatchesAll-first content bytes i ws offs m) in
    elim (Bool-cases (j == i)) [
      | inl same ↦
          let is_i : j ≡ i = ground (arith, same) in
          subst (λ off. Matches content (off, written_by j ws)) (ground (arith, same))
            (subst (λ k. Matches content (offs i + length bytes, written_by k ws)) (sym is_i) rest)
      | inr differs ↦
          subst (λ off. Matches content (off, written_by j ws)) (ground (arith, differs))
            (subst (λ w. Matches content (offs j, w)) (ground (arith, differs)) (m j))
    ]

at_offsets-Matches :
    (content : List ℕ) (ws : List (ℕ × List ℕ)) (offs : ℕ → ℕ)
    → MatchesAll content ws offs
    → All (Matches content) (at_offsets ws offs)
at_offsets-Matches content [] offs m = tt
at_offsets-Matches content ((i, bytes) ∷ ws) offs m = (
  (Matches-append content bytes (written_by i ws) (offs i)
      (MatchesAll-first content bytes i ws offs m)).0,
  at_offsets-Matches content ws (moved i bytes offs) (MatchesAll-later content bytes i ws offs m),
)

covers-at_offsets :
    (ws : List (ℕ × List ℕ)) (offs : ℕ → ℕ) (i k : ℕ)
    → within (offs i, written_by i ws) k ≡ true
    → covers (at_offsets ws offs) k ≡ true
covers-at_offsets [] offs i k h = absurd (ground arith)
covers-at_offsets ((j, bytes) ∷ ws) offs i k h = elim (Bool-cases (within (offs j, bytes) k)) [
  | inl here ↦ ground (arith, here)
  | inr not_here ↦ ground (
    arith,
    not_here,
    covers-at_offsets ws (moved j bytes offs) i k
        (ground (arith, h, not_here, length-append bytes (written_by i ws))),
  )
]

-- Take writes to one file by any number of adapters, in any interleaving, each adapter standing at
-- some offset at the start. If what each adapter writes, its pieces put one behind the other, is
-- what a content has from the adapter's offset on, if each position of the content lies in what
-- some adapter writes, and if the file was not longer than the content, then the file is the
-- content afterwards.
pub interleave_covered :
    (content : List ℕ) (ws : List (ℕ × List ℕ)) (offs : ℕ → ℕ) (file : List ℕ)
    → MatchesAll content ws offs
    → ((k : ℕ) → k < length content → (i : ℕ) × (within (offs i, written_by i ws) k ≡ true))
    → length file ≤ length content
    → interleave ws offs file ≡ content
interleave_covered content ws offs file m all small =
    interleave-perform ws offs file
    ∙ perform_covered content (at_offsets ws offs) file (at_offsets-Matches content ws offs m)
        (λ k here. let (i, inside) = all k here in covers-at_offsets ws offs i k inside) small
