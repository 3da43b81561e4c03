-- ===== src/Sampling/Buffer/Laws.antt =====
-- What the methods of the store of series do (internal/sampling/buffer.go).
use memory_leak_reloader.Base.{
  ℕ, ◌+◌, ◌≤◌, false, Option, none, some, List, [], ◌∷◌, ◌++◌, ◌≡◌, ◌≢◌, refl, arith, not,
  if◌then◌else◌, length, filterb, All, Bool-cases, inl, inr, last?, last?-drop, length-append,
  beq_refl,
}
use memory_leak_reloader.Base.Int.{ℤ, pos, ◌≤ℤ◌, ltb_ℤ, ◌-ℤ◌, int_laws}
use memory_leak_reloader.Base.Word.{IsDuration}
use memory_leak_reloader.Base.Time.{Time, Duration, before, back, back-eq}
use memory_leak_reloader.Base.Map.{Map, lookup, has, lookup-insert, All-lookup}
use memory_leak_reloader.Sampling.Buffer.{
  Sample, Key, key_eq, Series, Store, series_or_new, observe_series, observe, trim, stale,
  keep_live, prune, samples,
}
use memory_leak_reloader.Sampling.Buffer.Trim.{IsSorted, NotAfter, IsSorted-append, trim-eq-filterb}
use memory_leak_reloader.Sampling.Buffer.Invariant.{IsValid, IsSeries, All-NotAfter-mono}

stale-append-le :
    (c : Time) (xs : List Sample) (x : Sample)
    → before x.time c ≡ false
    → stale c (xs ++ x ∷ []) ≤ length xs
unfolding stale
stale-append-le c [] x h = ground arith
stale-append-le c (y ∷ ys) x h = ground (arith, stale-append-le c ys x)

last?-trim :
    (c : Time) (n : ℕ) (xs : List Sample) (x : Sample)
    → before x.time c ≡ false
    → 1 ≤ n
    → last? (trim c n (xs ++ x ∷ [])) ≡ some x
unfolding trim
last?-trim c n xs x fresh h =
    last?-drop _ xs x (ground (arith, stale-append-le c xs x, length-append xs (x ∷ [])))

fresh_self :
    (x : Sample) (d : Duration) → IsDuration d → pos 0 ≤ℤ d → before x.time (back x.time d) ≡ false
fresh_self x d h nonneg = rw (back-eq x.time d h) (ground (arith, fresh_order x.time d nonneg))
  where
    fresh_order : (t e : Time) → pos 0 ≤ℤ e → t -ℤ e ≤ℤ t
    fresh_order t e k = omega int_laws

-- With a cap of at least one sample and a retention that is a Duration and not negative, the
-- newest observation is kept, as the last sample of its series, whatever is dropped before it.
pub observe-last :
    (s : Store) (k : Key) (x : Sample) (r : ℤ)
    → 1 ≤ s.max_len
    → IsDuration s.retention
    → pos 0 ≤ℤ s.retention
    → last? (samples (observe s k x r) k) ≡ some x
unfolding observe samples observe_series
observe-last s k x r room h nonneg =
    rw (lookup-insert k k, beq_refl k)
      (last?-trim _ s.max_len _ x (fresh_self x s.retention h nonneg) room)

-- Another container's series is as it was.
pub observe_other :
    (s : Store) (k j : Key) (x : Sample) (r : ℤ) → k ≢ j → samples (observe s k x r) j ≡ samples s j
unfolding observe samples
observe_other s k j x r h = rw (lookup-insert k j) (ground (arith, key_eq.beq_iff k j))

-- The samples that an observation with restart count `r` adds to: none for a new container or after
-- a restart, else all of the series.
abbrev pub continued : Option Series → ℤ → List Sample
continued none r = []
continued (some ser) r = if ltb_ℤ ser.last_restarts r then [] else ser.samples

unfoldable pub prior : Store → Key → ℤ → List Sample
prior s k r = continued (lookup k s.contents) r

continued-new :
    (o : Option Series) (r : ℤ)
    → (if ltb_ℤ (series_or_new o r).last_restarts r then [] else (series_or_new o r).samples)
      ≡ continued o r
continued-new none r = ground arith
continued-new (some ser) r = refl

pub prior_facts :
    (s : Store) (k : Key) (r : ℤ) (now : Time)
    → IsValid now s
    → IsSorted (prior s k r) × All (NotAfter now) (prior s k r)
unfolding prior
prior_facts s k r now v =
    facts (lookup k s.contents) (λ ser e. All-lookup _ k s.contents v.series e)
  where
    facts :
        (o : Option Series)
        → ((ser : Series) → o ≡ some ser → IsSeries s.max_len now ser)
        → IsSorted (continued o r) × All (NotAfter now) (continued o r)
    facts none h = (tt, tt)
    facts (some ser) h = elim (Bool-cases (ltb_ℤ ser.last_restarts r)) [
      | inl bumped ↦ rw bumped (tt, tt)
      | inr same ↦ rw same ((h ser refl).sorted, (h ser refl).past)
    ]

pub samples-observe :
    (s : Store) (k : Key) (x : Sample) (r : ℤ)
    → samples (observe s k x r) k ≡ trim (back x.time s.retention) s.max_len (prior s k r ++ x ∷ [])
unfolding samples observe observe_series prior
samples-observe s k x r = rw (lookup-insert k k, beq_refl k, continued-new (lookup k s.contents) r)

-- Recording a sample that is not older than those of a well-formed store, with a retention that
-- is a Duration and with room under the cap: the series of the container is then what it
-- continues (nothing, if the restart count rose) and the new sample, less the samples that are
-- older than the retention; no other sample is lost.
pub observe-retained :
    (s : Store) (k : Key) (x : Sample) (r : ℤ) (now : Time)
    → IsValid now s
    → now ≤ℤ x.time
    → IsDuration s.retention
    → length (prior s k r) + 1 ≤ s.max_len
    → samples (observe s k x r) k
      ≡ filterb (λ y. not (before y.time (x.time -ℤ s.retention))) (prior s k r ++ x ∷ [])
observe-retained s k x r now v h d room =
    let (sorted, past) = prior_facts s k r now v in
    let later = All-NotAfter-mono now x.time (prior s k r) h past in
    rw (samples-observe s k x r, back-eq x.time s.retention d)
      (trim-eq-filterb _ s.max_len _ (IsSorted-append (prior s k r) x sorted later)
        (omega (arith, length-append (prior s k r) (x ∷ []))))

lookup-keep_live :
    (live : Map Key (Unit {0})) (k : Key) (m : Map Key Series)
    → lookup k (keep_live live m) ≡ (if has k live then lookup k m else none)
unfolding lookup keep_live
lookup-keep_live live k [] = ground arith
lookup-keep_live live k ((j, ser) ∷ m) =
    ground (arith, key_eq.beq_iff j k, lookup-keep_live live k m)

-- Pruning drops exactly the series whose containers are not live.
pub lookup-prune :
    (s : Store) (live : Map Key (Unit {0})) (k : Key)
    → lookup k (prune s live).0.contents ≡ (if has k live then lookup k s.contents else none)
unfolding prune
lookup-prune s live k = lookup-keep_live live k s.contents
