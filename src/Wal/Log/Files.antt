-- ===== src/Wal/Log/Files.antt =====
-- Changes to the files of a directory whose numbers rise.
use my_dfs.Common.{
  ℕ, ◌+◌, ◌≤◌, ◌<◌, ◌≡◌, refl, subst, inl, inr, none, some, List, [], ◌∷◌, ◌++◌, append_assoc,
  arith, ◌==◌, ==_refl, Bool-cases, Codec, length,
}
use my_dfs.Wal.Entry.{Entry}
use my_dfs.Wal.Entry.Framing.{Encodes}
use my_dfs.Wal.Disk.{SegmentFile, find_file, update_file, remove_file}
use my_dfs.Wal.Log.{Ascends, AtMost, Thins, Rising, Stored}
use my_dfs.Wal.Log.Thinning.{
  Thins-append, Thins-cut_front, Ascends-append_left, Ascends-append_right,
}

pub Rising-lt :
    (low : ℕ) (fs : List SegmentFile) (high : ℕ) → Rising low fs high → low + length fs < high
Rising-lt low [] high r = omega arith
Rising-lt low (f ∷ fs) high r = omega (arith, Rising-lt f.number fs high r.1, r.0)

pub Rising-snoc :
    (low : ℕ) (fs : List SegmentFile) (f : SegmentFile) (high : ℕ)
    → Rising low fs f.number
    → f.number < high
    → Rising low (fs ++ f ∷ []) high
Rising-snoc low [] f high r h = (r, h)
Rising-snoc low (g ∷ fs) f high r h = (r.0, Rising-snoc g.number fs f high r.1 h)

pub Rising-mono :
    (low high : ℕ) (fs : List SegmentFile) (top : ℕ)
    → low ≤ high
    → Rising high fs top
    → Rising low fs top
Rising-mono low high [] top h r = omega arith
Rising-mono low high (f ∷ fs) top h r = (omega (arith, r.0), r.1)

pub update_file-append :
    (n : ℕ) (change : SegmentFile → SegmentFile) (fs gs : List SegmentFile)
    → update_file n change (fs ++ gs) ≡ update_file n change fs ++ update_file n change gs
unfolding update_file
update_file-append n change [] gs = refl
update_file-append n change (f ∷ fs) gs = rw (update_file-append n change fs gs)

-- No file below the bound has a number from the bound on.
pub update_file-absent :
    (n : ℕ) (change : SegmentFile → SegmentFile) (low : ℕ) (fs : List SegmentFile) (high : ℕ)
    → Rising low fs high
    → high ≤ n
    → update_file n change fs ≡ fs
unfolding update_file
update_file-absent n change low [] high r h = refl
update_file-absent n change low (f ∷ fs) high r h =
    ground
      (arith, update_file-absent n change f.number fs high r.1 h, Rising-lt f.number fs high r.1)

pub find_file-absent :
    (n low : ℕ) (fs : List SegmentFile) (high : ℕ)
    → Rising low fs high
    → high ≤ n
    → find_file n fs ≡ none
unfolding find_file
find_file-absent n low [] high r h = refl
find_file-absent n low (f ∷ fs) high r h =
    ground (arith, find_file-absent n f.number fs high r.1 h, Rising-lt f.number fs high r.1)

pub remove_file-above :
    (n low : ℕ) (fs : List SegmentFile) (high : ℕ)
    → Rising low fs high
    → n ≤ low
    → remove_file n fs ≡ fs
unfolding remove_file
remove_file-above n low [] high r h = refl
remove_file-above n low (f ∷ fs) high r h =
    ground (arith, remove_file-above n f.number fs high r.1 (omega (arith, r.0)))

-- A file in front of the last one is found, and is removed, among those in front.
pub find_file-append_lt :
    (n : ℕ) (fs : List SegmentFile) (f : SegmentFile)
    → n < f.number
    → find_file n (fs ++ f ∷ []) ≡ find_file n fs
unfolding find_file
find_file-append_lt n [] f h = ground arith
find_file-append_lt n (g ∷ fs) f h = ground (arith, find_file-append_lt n fs f h)

pub remove_file-append_lt :
    (n : ℕ) (fs : List SegmentFile) (f : SegmentFile)
    → n < f.number
    → remove_file n (fs ++ f ∷ []) ≡ remove_file n fs ++ f ∷ []
unfolding remove_file
remove_file-append_lt n [] f h = ground arith
remove_file-append_lt n (g ∷ fs) f h = ground (arith, remove_file-append_lt n fs f h)

pub remove_file-Rising :
    (n low : ℕ) (fs : List SegmentFile) (high : ℕ)
    → Rising low fs high
    → Rising low (remove_file n fs) high
unfolding remove_file
remove_file-Rising n low [] high r = r
remove_file-Rising n low (f ∷ fs) high r = elim (Bool-cases (f.number == n)) [
  | inl hit ↦ rw hit (
      Rising-mono low f.number (remove_file n fs) high (omega (arith, r.0))
        (remove_file-Rising n f.number fs high r.1))
  | inr miss ↦ rw miss (r.0, remove_file-Rising n f.number fs high r.1)
]

module _ (codec : Codec Entry) where
  pub Stored-append :
      (fs gs : List SegmentFile) (es ds : List Entry)
      → Stored codec fs es
      → Stored codec gs ds
      → Stored codec (fs ++ gs) (es ++ ds)
  Stored-append [] gs es ds s t = rw s t
  Stored-append (f ∷ fs) gs es ds (front, back, e, enc, s) t =
      (front, back ++ ds, rw e (append_assoc front back ds), enc, Stored-append fs gs back ds s t)

  -- Removing a file whose entries are all within the bound thins what is stored.
  pub remove_file-Stored :
      (n bound low : ℕ) (low_entry : ℕ) (fs : List SegmentFile) (high : ℕ) (es : List Entry)
      (f : SegmentFile)
      → Rising low fs high
      → Stored codec fs es
      → Ascends low_entry es
      → find_file n fs ≡ some f
      → ((lo : ℕ) (xs : List Entry) → Ascends lo xs → Encodes codec f.bytes xs → AtMost bound xs)
      → (es' : List Entry) × Stored codec (remove_file n fs) es' × Thins bound es es'
  unfolding find_file remove_file
  remove_file-Stored n bound low low_entry [] high es f r s a found within = cc
  remove_file-Stored n bound low low_entry (g ∷ fs) high es f r (front, back, e, enc, s) a found
        within =
      let split : Ascends low_entry (front ++ back) = subst (Ascends low_entry) e a in
      elim (Bool-cases (g.number == n)) [
        | inl hit ↦
            let same : g ≡ f = ground arith in
            rw (hit, remove_file-above n g.number fs high r.1 (ground arith))
              (
                back,
                s,
                rw e (
                    Thins-cut_front bound front back (
                      within low_entry front (Ascends-append_left low_entry front back split)
                        (subst (λ (h : SegmentFile). Encodes codec h.bytes front) same enc))),
              )
        | inr miss ↦
            let (es', s', t) =
              remove_file-Stored n bound g.number low_entry fs high back f r.1 s
                (Ascends-append_right low_entry front back split) (ground arith) within in
            rw miss (front ++ es', (front, es', refl, enc, s'), rw e (Thins-append bound front t))
      ]

-- A change to the last file.
pub update_file-last :
    (change : SegmentFile → SegmentFile) (fs : List SegmentFile) (f : SegmentFile)
    → Rising 0 fs f.number
    → update_file f.number change (fs ++ f ∷ []) ≡ fs ++ change f ∷ []
unfolding update_file
update_file-last change fs f r =
    rw
      (
        update_file-append f.number change fs (f ∷ []),
        update_file-absent f.number change 0 fs f.number r (omega arith),
        ==_refl f.number,
      )
      refl

-- A change to the file before the last one.
pub update_file-before_last :
    (change : SegmentFile → SegmentFile) (fs : List SegmentFile) (f g : SegmentFile)
    → Rising 0 fs f.number
    → f.number < g.number
    → update_file f.number change ((fs ++ f ∷ []) ++ g ∷ []) ≡ (fs ++ change f ∷ []) ++ g ∷ []
update_file-before_last change fs f g r h =
    rw (update_file-append f.number change (fs ++ f ∷ []) (g ∷ []), update_file-last change fs f r)
      (unfold update_file in ground arith)
