-- ===== src/Sampling/Buffer/Horizon.antt =====
-- How far back the store of series can see (internal/sampling/buffer.go): the retention bounds the
-- windows that can be covered.
use memory_leak_reloader.Base.{
  ℕ, zero, suc, ◌≤◌, false, Option, none, some, List, [], ◌∷◌, ◌≡◌, refl, ◌∙◌, arith, All, drop,
  Bool-cases, inl, inr, All-drop,
}
use memory_leak_reloader.Base.Int.{ℤ, ◌≤ℤ◌, ◌<ℤ◌, ◌-ℤ◌}
use memory_leak_reloader.Base.Word.{IsDuration}
use memory_leak_reloader.Base.Time.{Time, Duration, before, back, back-eq}
use memory_leak_reloader.Base.Map.{lookup}
use memory_leak_reloader.Sampling.Buffer.{
  Sample, Key, key_eq, Series, Store, observe, trim, stale, samples, samples_of, spans,
  series_spans, window_covered,
}
use memory_leak_reloader.Sampling.Buffer.Trim.{IsSorted, NotBefore, IsSorted-append}
use memory_leak_reloader.Sampling.Buffer.Invariant.{IsValid, All-NotAfter-mono}
use memory_leak_reloader.Sampling.Buffer.Laws.{prior, prior_facts, samples-observe}

All-NotBefore-mono :
    (t u : Time) (xs : List Sample) → t ≤ℤ u → All (NotBefore u) xs → All (NotBefore t) xs
All-NotBefore-mono t u [] h a = tt
All-NotBefore-mono t u (x ∷ xs) h a = (omega arith, All-NotBefore-mono t u xs h a.1)

all_fresh :
    (t : Time) (x : Sample) (xs : List Sample)
    → before x.time t ≡ false
    → All (NotBefore x.time) xs
    → All (NotBefore t) (x ∷ xs)
all_fresh t x xs new a =
    let h : t ≤ℤ x.time = ground arith in (h, All-NotBefore-mono t x.time xs h a)

drop-NotBefore :
    (t : Time) (n : ℕ) (xs : List Sample)
    → stale t xs ≤ n
    → IsSorted xs
    → All (NotBefore t) (drop n xs)
unfolding stale
drop-NotBefore t zero [] h s = tt
drop-NotBefore t (suc n) [] h s = tt
drop-NotBefore t zero (x ∷ xs) h s = all_fresh t x xs (ground arith) s.0
drop-NotBefore t (suc n) (x ∷ xs) h s = elim (Bool-cases (before x.time t)) [
  | inl old ↦ drop-NotBefore t n xs (omega (arith, rw old at h)) s.1
  | inr new ↦ All-drop (NotBefore t) n xs (all_fresh t x xs new s.0).1
]

-- Nothing older than the cutoff is left by a trim of a sorted series.
trim-NotBefore :
    (t : Time) (n : ℕ) (xs : List Sample) → IsSorted xs → All (NotBefore t) (trim t n xs)
unfolding trim
trim-NotBefore t n xs s = drop-NotBefore t _ xs (ground arith) s

spans_recent : (c t : Time) (xs : List Sample) → t <ℤ c → All (NotBefore c) xs → spans xs t ≡ false
spans_recent c t [] h a = refl
spans_recent c t (x ∷ []) h a = refl
spans_recent c t (x ∷ y ∷ xs) h a = ground (arith, a.0)

series_spans-samples_of : (o : Option Series) (t : Time) → series_spans o t ≡ spans (samples_of o) t
series_spans-samples_of none t = refl
series_spans-samples_of (some ser) t = refl

-- A well-formed store, after a sample that is not older than those it holds, covers a window that is
-- longer than its retention neither then nor later, for as long as the time since the sample is less
-- than what the window is longer by, unless another sample comes: whatever was recorded before, a
-- policy with such a window is neither enqueued by that pass nor found warm in that time. Both are
-- Durations.
pub observe_long_window :
    (s : Store) (k : Key) (x : Sample) (r : ℤ) (now later : Time) (window : Duration)
    → IsValid now s
    → now ≤ℤ x.time
    → IsDuration s.retention
    → IsDuration window
    → later -ℤ window <ℤ x.time -ℤ s.retention
    → window_covered (observe s k x r) k window later ≡ false
unfolding window_covered samples
observe_long_window s k x r now later window v h d e long =
    let (sorted, past) = prior_facts s k r now v in
    let unaged = All-NotAfter-mono now x.time (prior s k r) h past in
    let recent =
      trim-NotBefore (back x.time s.retention) s.max_len _
        (IsSorted-append (prior s k r) x sorted unaged) in
    let earlier : back later window <ℤ back x.time s.retention =
      rw (back-eq later window e, back-eq x.time s.retention d) long in
    series_spans-samples_of (lookup k (observe s k x r).contents) _
    ∙ rw (samples-observe s k x r)
        (spans_recent (back x.time s.retention) (back later window) _ earlier recent)
