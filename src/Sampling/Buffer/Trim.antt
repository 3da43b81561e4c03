-- ===== src/Sampling/Buffer/Trim.antt =====
-- What a shift of a series leaves (internal/sampling/buffer.go, Observe).
use memory_leak_reloader.Base.{
  ℕ, zero, suc, ◌-◌, ◌≤◌, List, [], ◌∷◌, ◌++◌, ◌≡◌, refl, arith, not, length, drop, filterb, All,
  All-drop, length-drop, Bool-cases, inl, inr,
}
use memory_leak_reloader.Base.Int.{◌≤ℤ◌}
use memory_leak_reloader.Base.Time.{Time, before}
use memory_leak_reloader.Sampling.Buffer.{Sample, stale, trim}

-- Oldest first.
abbrev pub NotBefore : Time → Sample → Type 0
NotBefore t x = t ≤ℤ x.time

abbrev pub IsSorted : List Sample → Type 0
IsSorted [] = Unit
IsSorted (x ∷ xs) = All (NotBefore x.time) xs × IsSorted xs

abbrev pub NotAfter : Time → Sample → Type 0
NotAfter t x = x.time ≤ℤ t

All-NotBefore-append :
    (y x : Sample) (zs : List Sample)
    → y.time ≤ℤ x.time
    → All (NotBefore y.time) zs
    → All (NotBefore y.time) (zs ++ x ∷ [])
All-NotBefore-append y x [] h u = (h, tt)
All-NotBefore-append y x (z ∷ zs) h u = (u.0, All-NotBefore-append y x zs h u.1)

pub IsSorted-append :
    (xs : List Sample) (x : Sample)
    → IsSorted xs
    → All (NotAfter x.time) xs
    → IsSorted (xs ++ x ∷ [])
IsSorted-append [] x h k = (tt, tt)
IsSorted-append (y ∷ ys) x h k = (All-NotBefore-append y x ys k.0 h.0, IsSorted-append ys x h.1 k.1)

pub IsSorted-drop : (n : ℕ) (xs : List Sample) → IsSorted xs → IsSorted (drop n xs)
IsSorted-drop zero xs h = h
IsSorted-drop (suc n) [] h = h
IsSorted-drop (suc n) (x ∷ xs) h = IsSorted-drop n xs h.1

pub length-trim-le : (t : Time) (n : ℕ) (xs : List Sample) → length (trim t n xs) ≤ n
unfolding trim
length-trim-le t n xs = ground (arith, length-drop (stale t xs) xs, length-drop (length xs - n) xs)

pub IsSorted-trim : (t : Time) (n : ℕ) (xs : List Sample) → IsSorted xs → IsSorted (trim t n xs)
unfolding trim
IsSorted-trim t n xs h = IsSorted-drop _ xs h

pub All-trim {κ} :
    (P : Sample → Type κ) (t : Time) (n : ℕ) (xs : List Sample) → All P xs → All P (trim t n xs)
unfolding trim
All-trim P t n xs h = All-drop P _ xs h

-- What is fresh stays when all before it goes.
filterb-fresh :
    (t : Time) (x : Sample) (xs : List Sample)
    → t ≤ℤ x.time
    → All (NotBefore x.time) xs
    → filterb (λ y. not (before y.time t)) xs ≡ xs
filterb-fresh t x [] h k = refl
filterb-fresh t x (y ∷ ys) h k = ground (arith, filterb-fresh t x ys)

drop-stale :
    (t : Time) (xs : List Sample)
    → IsSorted xs
    → drop (stale t xs) xs ≡ filterb (λ y. not (before y.time t)) xs
unfolding stale
drop-stale t [] h = refl
drop-stale t (x ∷ xs) h = elim (Bool-cases (before x.time t)) [
  | inl old ↦ rw old (drop-stale t xs h.1)
  | inr new ↦ rw new (ground (arith, filterb-fresh t x xs))
]

-- A sorted series that is not too long keeps exactly the samples that are not before the cutoff.
pub trim-eq-filterb :
    (t : Time) (n : ℕ) (xs : List Sample)
    → IsSorted xs
    → length xs ≤ n
    → trim t n xs ≡ filterb (λ y. not (before y.time t)) xs
unfolding trim
trim-eq-filterb t n xs h k = ground (arith, drop-stale t xs)
