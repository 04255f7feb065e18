-- ===== src/Client/Output/Writes.antt =====
-- What the writes of internal/adaptors/writer_at.go leave in a file.
use my_dfs.Common.{
  ℕ, zero, suc, ◌+◌, ◌-◌, ◌≤◌, ◌<◌, ◌≡◌, refl, sym, ap, ◌∙◌, inl, inr, Bool, true, false, ◌&&◌,
  ◌||◌, List, [], ◌∷◌, ◌++◌, arith, ltb, leb, Bool-cases, length, get_elem?, take, drop, replicate,
  All, length-append, length-take, length-drop, get_elem?-append, get_elem?-take, get_elem?-drop,
  get_elem?-some, get_elem?-here, get_elem?-ext,
}
use my_dfs.Client.Output.{write_at, perform}

-- The bytes are those of the content at the offset.
abbrev pub Matches : List ℕ → ℕ × List ℕ → Type 0
Matches content (off, bytes) =
    (off + length bytes ≤ length content)
    × ((i : ℕ) → i < length bytes → get_elem? bytes i ≡ get_elem? content (off + i))

abbrev pub within : ℕ × List ℕ → ℕ → Bool
within (off, bytes) i = leb off i && ltb i (off + length bytes)

-- One of the writes covers the position.
abbrev pub covers : List (ℕ × List ℕ) → ℕ → Bool
covers [] i = false
covers (w ∷ ws) i = within w i || covers ws i

length-replicate : (n : ℕ) → length {A = ℕ} (replicate n 0) ≡ n
length-replicate zero = refl
length-replicate (suc n) = ap suc (length-replicate n)

length-write_at :
    (file bytes : List ℕ) (off size : ℕ)
    → length file ≤ size
    → off + length bytes ≤ size
    → length (write_at file off bytes) ≤ size
unfolding write_at
length-write_at file [] off size small fits = small
length-write_at file (b ∷ bs) off size small fits = omega (
  arith,
  length-append (take off (file ++ replicate (off - length file) 0))
      ((b ∷ bs) ++ drop (off + length (b ∷ bs)) file),
  length-append (b ∷ bs) (drop (off + length (b ∷ bs)) file),
  length-take off (file ++ replicate (off - length file) 0),
  length-drop (off + length (b ∷ bs)) file,
)

length-front :
    (file : List ℕ) (off : ℕ) → length (take off (file ++ replicate (off - length file) 0)) ≡ off
length-front file off = omega (
  arith,
  length-take off (file ++ replicate (off - length file) 0),
  length-append file (replicate (off - length file) 0),
  length-replicate (off - length file),
)

write_at-inside :
    (file bytes : List ℕ) (off i : ℕ)
    → within (off, bytes) i ≡ true
    → get_elem? (write_at file off bytes) i ≡ get_elem? bytes (i - off)
unfolding write_at
write_at-inside file [] off i h = absurd (ground arith)
write_at-inside file (b ∷ bs) off i h =
    let front = take off (file ++ replicate (off - length file) 0) in
    let back = drop (off + length (b ∷ bs)) file in
    ground (
      arith,
      length-front file off,
      get_elem?-append front ((b ∷ bs) ++ back) i,
      get_elem?-append (b ∷ bs) back (i - off),
    )

write_at-outside :
    (file bytes : List ℕ) (off i : ℕ)
    → within (off, bytes) i ≡ false
    → i < length file
    → get_elem? (write_at file off bytes) i ≡ get_elem? file i
unfolding write_at
write_at-outside file [] off i h there = refl
write_at-outside file (b ∷ bs) off i h there =
    let filled = file ++ replicate (off - length file) 0 in
    let front = take off filled in
    let back = drop (off + length (b ∷ bs)) file in
    ground (
      arith,
      length-front file off,
      get_elem?-append front ((b ∷ bs) ++ back) i,
      get_elem?-append (b ∷ bs) back (i - off),
      get_elem?-take off filled i,
      get_elem?-append file (replicate (off - length file) 0) i,
      get_elem?-drop (off + length (b ∷ bs)) file (i - off - length (b ∷ bs)),
    )

write_at-Matches :
    (content file bytes : List ℕ) (off i : ℕ)
    → Matches content (off, bytes)
    → i < length content
    → (within (off, bytes) i ≡ false → get_elem? file i ≡ get_elem? content i)
    → get_elem? (write_at file off bytes) i ≡ get_elem? content i
write_at-Matches content file bytes off i (fits, same) here before =
    elim (Bool-cases (within (off, bytes) i)) [
      | inl inside ↦
          write_at-inside file bytes off i inside
          ∙ same (i - off) (ground (arith, inside))
          ∙ ap (get_elem? content) (ground (arith, inside))
      | inr outside ↦
          write_at-outside file bytes off i outside (
            get_elem?-some file i
              (λ missing. get_elem?-here content i here (sym (before outside) ∙ missing)))
          ∙ before outside
    ]

pub perform-Matches :
    (content : List ℕ) (ws : List (ℕ × List ℕ)) (file : List ℕ) (i : ℕ)
    → All (Matches content) ws
    → i < length content
    → (covers ws i ≡ false → get_elem? file i ≡ get_elem? content i)
    → get_elem? (perform ws file) i ≡ get_elem? content i
unfolding perform
perform-Matches content [] file i m here before = before refl
perform-Matches content ((off, bytes) ∷ ws) file i (m, ms) here before =
    perform-Matches content ws (write_at file off bytes) i ms here (λ later.
      write_at-Matches content file bytes off i m here
        (λ outside. before (ground (arith, later, outside))))

pub length-perform :
    (content : List ℕ) (ws : List (ℕ × List ℕ)) (file : List ℕ)
    → All (Matches content) ws
    → length file ≤ length content
    → length (perform ws file) ≤ length content
unfolding perform
length-perform content [] file m small = small
length-perform content ((off, bytes) ∷ ws) file ((fits, same), ms) small =
    length-perform content ws (write_at file off bytes) ms
      (length-write_at file bytes off (length content) small fits)

-- Take writes to a file at their offsets, in any order and by any number of adapters, each of which
-- writes the bytes that a content has there. If the writes cover every position of the content and
-- the file was not longer, the file is the content afterwards.
pub perform_covered :
    (content : List ℕ) (ws : List (ℕ × List ℕ)) (file : List ℕ)
    → All (Matches content) ws
    → ((i : ℕ) → i < length content → covers ws i ≡ true)
    → length file ≤ length content
    → perform ws file ≡ content
perform_covered content ws file m all small =
    get_elem?-ext (perform ws file) content (length-perform content ws file m small) (λ i here.
      perform-Matches content ws file i m here
        (λ missed. absurd (ground (arith, missed, all i here))))

-- The writes of pieces through an adapter are one write of the whole.
