-- ===== src/Sampling/Buffer/Invariant.antt =====
-- The store of series stays well formed (internal/sampling/buffer.go).
use memory_leak_reloader.Base.{
  ℕ, ◌≤◌, Option, none, some, List, [], ◌∷◌, ◌++◌, ◌≡◌, refl, arith, length, All, All-append,
  Bool-cases, inl, inr,
}
use memory_leak_reloader.Base.Int.{ℤ, ◌≤ℤ◌, ltb_ℤ}
use memory_leak_reloader.Base.Time.{Time, Duration}
use memory_leak_reloader.Base.Map.{Map, IsMap, lookup, insert-IsMap, All-insert, All-lookup}
use memory_leak_reloader.Sampling.Buffer.{
  Sample, Key, Series, Store, series_or_new, observe_series, observe, trim, key_eq,
}
use memory_leak_reloader.Sampling.Buffer.Trim.{
  IsSorted, NotAfter, IsSorted-append, IsSorted-trim, All-trim, length-trim-le,
}

-- A series of at most `n` samples, oldest first, none of them after `now`.
pub record IsSeries (n : ℕ) (now : Time) (ser : Series) : Type 0 where
  pub bounded : length ser.samples ≤ n
  pub sorted : IsSorted ser.samples
  pub past : All (NotAfter now) ser.samples

-- Each key has one series, and each series is bounded by the cap.
pub record IsValid (now : Time) (s : Store) : Type 0 where
  pub one_each : IsMap s.contents
  pub series : All (λ e. IsSeries s.max_len now e.1) s.contents

pub All-NotAfter-mono :
    (t u : Time) (xs : List Sample) → t ≤ℤ u → All (NotAfter t) xs → All (NotAfter u) xs
All-NotAfter-mono t u [] h a = tt
All-NotAfter-mono t u (x ∷ xs) h a = (omega arith, All-NotAfter-mono t u xs h a.1)

pub IsSeries-later :
    (n : ℕ) (t u : Time) (ser : Series) → t ≤ℤ u → IsSeries n t ser → IsSeries n u ser
IsSeries-later n t u ser h v = record {
  bounded = v.bounded;
  sorted = v.sorted;
  past = All-NotAfter-mono t u _ h v.past;
}

All-IsSeries-later :
    (n : ℕ) (t u : Time) (m : Map Key Series)
    → t ≤ℤ u
    → All (λ e. IsSeries n t e.1) m
    → All (λ e. IsSeries n u e.1) m
All-IsSeries-later n t u [] h a = tt
All-IsSeries-later n t u ((k, ser) ∷ m) h a =
    (IsSeries-later n t u ser h a.0, All-IsSeries-later n t u m h a.1)

pub IsValid-later : (t u : Time) (s : Store) → t ≤ℤ u → IsValid t s → IsValid u s
IsValid-later t u s h v = record {
  one_each = v.one_each;
  series = All-IsSeries-later s.max_len t u s.contents h v.series;
}

new-IsSeries :
    (n : ℕ) (t : Time) (o : Option Series) (r : ℤ)
    → ((ser : Series) → o ≡ some ser → IsSeries n t ser)
    → IsSeries n t (series_or_new o r)
new-IsSeries n t none r h = record { bounded = omega arith; sorted = tt; past = tt }
new-IsSeries n t (some ser) r h = h ser refl

trim-IsSeries :
    (c : Time) (n : ℕ) (now : Time) (xs : List Sample) (x : Sample) (r : ℤ)
    → IsSorted xs
    → All (NotAfter x.time) xs
    → IsSeries n x.time (record { samples = trim c n (xs ++ x ∷ []); last_restarts = r })
trim-IsSeries c n now xs x r sorted past = record {
  bounded = length-trim-le c n _;
  sorted = IsSorted-trim c n _ (IsSorted-append xs x sorted past);
  past = All-trim _ c n _ (All-append _ xs (x ∷ []) past (omega arith, tt));
}

pub observe_series-IsSeries :
    (d : Duration) (n : ℕ) (now : Time) (ser : Series) (x : Sample) (r : ℤ)
    → now ≤ℤ x.time
    → IsSeries n now ser
    → IsSeries n x.time (observe_series d n ser x r)
unfolding observe_series
observe_series-IsSeries d n now ser x r h v = elim (Bool-cases (ltb_ℤ ser.last_restarts r)) [
  | inl bumped ↦ rw bumped (trim-IsSeries _ n now [] x r tt tt)
  | inr same ↦
      rw same
        (trim-IsSeries _ n now ser.samples x r v.sorted (All-NotAfter-mono now x.time _ h v.past))
]

-- Recording a sample that is not older than the ones before it keeps the store well formed: one
-- series to a key, every series sorted and of at most `maxLen` samples.
pub observe-IsValid :
    (s : Store) (k : Key) (x : Sample) (r : ℤ) (now : Time)
    → now ≤ℤ x.time
    → IsValid now s
    → IsValid x.time (observe s k x r)
unfolding observe
observe-IsValid s k x r now h v =
    let old : IsSeries s.max_len now (series_or_new (lookup k s.contents) r) =
      new-IsSeries s.max_len now (lookup k s.contents) r
        (λ ser e. All-lookup (IsSeries s.max_len now) k s.contents v.series e) in
    record {
      one_each = insert-IsMap k _ s.contents v.one_each;
      series =
          All-insert (IsSeries s.max_len x.time) k _ s.contents
            (observe_series-IsSeries s.retention s.max_len now _ x r h old)
            (All-IsSeries-later s.max_len now x.time s.contents h v.series);
    }
