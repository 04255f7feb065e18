-- ===== src/Wal/Names.antt =====
-- Segment file names: generateLogFilePath, getSegmentNoFromFileName and getPreviousSegmentNo of
-- internal/wal/utils.go. A name is the list of its bytes, without the directory. strconv.Itoa is
-- given an int, so numbers from 2^63 on are left out.
pub mod RoundTrip
use my_dfs.Common.{
  ℕ, zero, suc, ◌+◌, ◌-◌, ◌*◌, ◌/◌, ◌%◌, ◌^◌, ◌≤◌, ◌<◌, min, max, ◌≡◌, refl, sym, ap, ◌∙◌, subst,
  ◌≡⟨◌⟩◌, ◌∎, ◌≢◌, ◌↔◌, ◌⊎◌, inl, inr, Bool, true, false, ◌&&◌, ◌||◌, not, Option, none, some, List,
  [], ◌∷◌, ◌++◌, map, append-nil, append_assoc, arith, ltb, leb, ◌==◌, if◌then◌else◌, ltb→lt,
  lt→ltb, le→ltb, leb→le, le→leb, lt→leb, ==_iff, ==_refl, tests, Bool-cases, Option-cases, Result,
  ok, err, ◌>>=◌, ◌>>◌, or_fail, Result-cases, Codec, length, get_elem?, take, drop, replicate, All,
  length-append, take-append-drop, length-take, length-drop, take_all, drop_all, take-append,
  drop-append, All-append, nil_of_length,
}
use my_dfs.Wal.Entry.{WalError, bad_file_name}

-- strconv.Itoa of a number that is not negative, on fuel: one digit for each round.
unfoldable pub digits : ℕ → ℕ → List ℕ
digits zero n = []
digits (suc fuel) n =
    let front = digits fuel (n / 10) in
    if ltb n 10 then (b'0' + n) ∷ [] else front ++ (b'0' + n % 10) ∷ []

unfoldable pub itoa : ℕ → List ℕ
unfolding digits
itoa n = digits (suc n) n

-- strconv.ParseUint in base 10 and 64 bits; `acc` is the number so far.
unfoldable pub parse_digits : ℕ → List ℕ → Option ℕ
parse_digits acc [] = some acc
parse_digits acc (c ∷ cs) =
    let next = acc * 10 + (c - b'0') in
    let rest = parse_digits next cs in
    if leb b'0' c && leb c b'9' && ltb next (2 ^ 64) then rest else none

unfoldable pub parse_uint : List ℕ → Option ℕ
unfolding parse_digits
parse_uint [] = none
parse_uint (c ∷ cs) = parse_digits 0 (c ∷ cs)

-- The last element of strings.Split(name, "-"): `part` is what follows the last dash so far.
unfoldable pub last_part : List ℕ → List ℕ → List ℕ
last_part part [] = part
last_part part (c ∷ cs) = last_part (if c == b'-' then [] else part ++ c ∷ []) cs

-- WalLogPrefix
abbrev pub wal_log_prefix : List ℕ
wal_log_prefix = b'w' ∷ b'a' ∷ b'l' ∷ b'-' ∷ b'l' ∷ b'o' ∷ b'g' ∷ b'-' ∷ []

-- generateLogFilePath
unfoldable pub log_file_name : ℕ → List ℕ
log_file_name seg_no = wal_log_prefix ++ itoa seg_no

-- getSegmentNoFromFileName
unfoldable pub segment_no_of_name : List ℕ → Result WalError ℕ
segment_no_of_name name = or_fail bad_file_name (parse_uint (last_part [] name))

-- getPreviousSegmentNo, on the number in the file's name: 0 wraps.
unfoldable pub previous_segment_no : ℕ → ℕ
previous_segment_no seg_no = (seg_no + 2 ^ 64 - 1) % 2 ^ 64

-- The order of os.ReadDir, which sorts by name.
unfoldable pub name_before : List ℕ → List ℕ → Bool
name_before xs [] = false
name_before [] (y ∷ ys) = true
name_before (x ∷ xs) (y ∷ ys) =
    let rest = name_before xs ys in if ltb x y then true else if x == y then rest else false
