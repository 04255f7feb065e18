-- ===== src/Wal/Log/Thinning.antt =====
-- Lists of entries that lose only entries up to a bound.
use my_dfs.Common.{ℕ, ◌≤◌, ◌<◌, List, [], ◌∷◌, ◌++◌, arith}
use my_dfs.Wal.Entry.{Entry}
use my_dfs.Wal.Entry.Framing.{last_of}
use my_dfs.Wal.Log.{Ascends, AtMost, Thins, nil, keep, cut}

pub Thins-refl : (bound : ℕ) (es : List Entry) → Thins bound es es
Thins-refl bound [] = nil
Thins-refl bound (e ∷ es) = keep e (Thins-refl bound es)

pub Thins-append :
    (bound : ℕ) {es es' : List Entry} (fs : List Entry)
    → Thins bound es es'
    → Thins bound (fs ++ es) (fs ++ es')
Thins-append bound [] t = t
Thins-append bound (f ∷ fs) t = keep f (Thins-append bound fs t)

pub Thins-append_right :
    (bound : ℕ) {es es' : List Entry} (fs : List Entry)
    → Thins bound es es'
    → Thins bound (es ++ fs) (es' ++ fs)
Thins-append_right bound fs nil = Thins-refl bound fs
Thins-append_right bound fs (keep e t) = keep e (Thins-append_right bound fs t)
Thins-append_right bound fs (cut e h t) = cut e h (Thins-append_right bound fs t)

pub Thins-trans :
    (bound : ℕ) {es fs gs : List Entry} → Thins bound es fs → Thins bound fs gs → Thins bound es gs
Thins-trans bound nil t = t
Thins-trans bound (keep e s) (keep f t) = keep e (Thins-trans bound s t)
Thins-trans bound (keep e s) (cut f h t) = cut e h (Thins-trans bound s t)
Thins-trans bound (cut e h s) t = cut e h (Thins-trans bound s t)

pub Thins-cut_front :
    (bound : ℕ) (front back : List Entry) → AtMost bound front → Thins bound (front ++ back) back
Thins-cut_front bound [] back h = Thins-refl bound back
Thins-cut_front bound (e ∷ es) back h = cut e h.0 (Thins-cut_front bound es back h.1)

pub Ascends-mono : (low high : ℕ) (es : List Entry) → low ≤ high → Ascends high es → Ascends low es
Ascends-mono low high [] h a = tt
Ascends-mono low high (e ∷ es) h a = (omega arith, a.1)

pub Thins-Ascends :
    (bound low : ℕ) {es es' : List Entry} → Thins bound es es' → Ascends low es → Ascends low es'
Thins-Ascends bound low nil a = a
Thins-Ascends bound low (keep e t) a = (a.0, Thins-Ascends bound e.log_sequence_no t a.1)
Thins-Ascends bound low (cut e {es' = es'} h t) a =
    Ascends-mono low e.log_sequence_no es' (omega arith)
      (Thins-Ascends bound e.log_sequence_no t a.1)

pub Thins-AtMost :
    (bound high : ℕ) {es es' : List Entry} → Thins bound es es' → AtMost high es → AtMost high es'
Thins-AtMost bound high nil a = a
Thins-AtMost bound high (keep e t) a = (a.0, Thins-AtMost bound high t a.1)
Thins-AtMost bound high (cut e h t) a = Thins-AtMost bound high t a.1

-- The last number of a rising list bounds the others.
pub Ascends-last :
    (low : ℕ) (e : Entry) (es : List Entry)
    → Ascends low (e ∷ es)
    → AtMost (last_of e es).log_sequence_no (e ∷ es)
unfolding last_of
Ascends-last low e [] a = (omega arith, tt)
Ascends-last low e (f ∷ es) a =
    let later = Ascends-last e.log_sequence_no f es a.1 in (omega (arith, later.0, a.1.0), later)

pub Ascends-append_left : (low : ℕ) (es fs : List Entry) → Ascends low (es ++ fs) → Ascends low es
Ascends-append_left low [] fs a = tt
Ascends-append_left low (e ∷ es) fs a = (a.0, Ascends-append_left e.log_sequence_no es fs a.1)

pub Ascends-append_right : (low : ℕ) (es fs : List Entry) → Ascends low (es ++ fs) → Ascends low fs
Ascends-append_right low [] fs a = a
Ascends-append_right low (e ∷ es) fs a =
    Ascends-mono low e.log_sequence_no fs (omega arith)
      (Ascends-append_right e.log_sequence_no es fs a.1)

-- A number beyond all of a rising list may be put behind it.
pub Ascends-snoc :
    (low high : ℕ) (es : List Entry) (e : Entry)
    → Ascends low es
    → AtMost high es
    → low ≤ high
    → high < e.log_sequence_no
    → Ascends low (es ++ e ∷ [])
Ascends-snoc low high [] e a b h l = (omega arith, tt)
Ascends-snoc low high (f ∷ es) e a b h l =
    (a.0, Ascends-snoc f.log_sequence_no high es e a.1 b.1 b.0 l)
