-- ===== src/Wal/Names/RoundTrip.antt =====
-- A segment's number can be read back from its file name.
use my_dfs.Common.{
  ℕ, zero, suc, ◌+◌, ◌-◌, ◌*◌, ◌/◌, ◌%◌, ◌^◌, ◌≤◌, ◌<◌, ◌≡◌, refl, sym, ◌∙◌, inl, inr, false, some,
  List, [], ◌∷◌, ◌++◌, append-nil, append_assoc, arith, ltb, ◌==◌, tests, Bool-cases, ok, length,
  All, length-append, All-append,
}
use my_dfs.Wal.Names.{
  digits, itoa, parse_digits, parse_uint, last_part, log_file_name, segment_no_of_name,
}

abbrev IsDigit : ℕ → Type 0
IsDigit c = (b'0' ≤ c) × (c ≤ b'9')

digits-IsDigit : (fuel n : ℕ) → All IsDigit (digits fuel n)
unfolding digits
digits-IsDigit zero n = tt
digits-IsDigit (suc fuel) n = elim (Bool-cases (ltb n 10)) [
  | inl small ↦ rw small (omega tests, tt)
  | inr large ↦
      rw large (
        All-append IsDigit (digits fuel (n / 10)) _ (digits-IsDigit fuel (n / 10))
          (omega arith, tt))
]

last_part-digits : (part cs : List ℕ) → All IsDigit cs → last_part part cs ≡ part ++ cs
unfolding last_part
last_part-digits part [] h = sym (append-nil part)
last_part-digits part (c ∷ cs) h =
    rw (unequal) (last_part-digits (part ++ c ∷ []) cs h.1 ∙ append_assoc part (c ∷ []) cs)
  where
    unequal : (c == b'-') ≡ false
    unequal = ground (arith, h.0)

parse_digits-append :
    (acc n : ℕ) (cs ds : List ℕ)
    → parse_digits acc cs ≡ some n
    → parse_digits acc (cs ++ ds) ≡ parse_digits n ds
unfolding parse_digits
parse_digits-append acc n [] ds h = ground arith
parse_digits-append acc n (c ∷ cs) ds h =
    ground (arith, parse_digits-append (acc * 10 + (c - b'0')) n cs ds)

parse_digits-digits : (fuel n : ℕ) → n < fuel → n < 2 ^ 64 → parse_digits 0 (digits fuel n) ≡ some n
unfolding digits
parse_digits-digits zero n h fits = absurd (omega arith)
parse_digits-digits (suc fuel) n h fits = elim (Bool-cases (ltb n 10)) [
  | inl small ↦ rw small (unfold parse_digits in ground arith)
  | inr large ↦
      rw
        (
          large,
          parse_digits-append 0 (n / 10) (digits fuel (n / 10)) ((b'0' + n % 10) ∷ [])
              (parse_digits-digits fuel (n / 10) (ground arith) (omega arith)),
        )
        (unfold parse_digits in ground arith)
]

length-digits : (fuel n : ℕ) → 0 < length (digits (suc fuel) n)
unfolding digits
length-digits fuel n = ground (arith, length-append (digits fuel (n / 10)) ((b'0' + n % 10) ∷ []))

parse_uint-parse_digits : (cs : List ℕ) → 0 < length cs → parse_uint cs ≡ parse_digits 0 cs
unfolding parse_uint
parse_uint-parse_digits [] h = absurd (omega arith)
parse_uint-parse_digits (c ∷ cs) h = refl

last_part-log_file_name : (n : ℕ) → last_part [] (log_file_name n) ≡ itoa n
unfolding log_file_name itoa last_part
last_part-log_file_name n = last_part-digits [] (digits (suc n) n) (digits-IsDigit (suc n) n)

-- For every segment number below 2^63, the number that getSegmentNoFromFileName reads in the name
-- of the segment's file is the segment's number.
pub segment_no_of_name-log_file_name :
    (n : ℕ) → n < 2 ^ 63 → segment_no_of_name (log_file_name n) ≡ ok n
unfolding segment_no_of_name itoa
segment_no_of_name-log_file_name n h =
    rw
      (
        last_part-log_file_name n,
        parse_uint-parse_digits (digits (suc n) n) (length-digits n n),
        parse_digits-digits (suc n) n (omega arith) (omega arith),
      )
      refl
