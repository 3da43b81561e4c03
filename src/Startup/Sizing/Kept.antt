-- ===== src/Startup/Sizing/Kept.antt =====
-- The series of a container that is sampled again and again: which of the samples it still holds.
use memory_leak_reloader.Base.{
  ℕ, zero, suc, ◌+◌, ◌-◌, ◌≤◌, ◌<◌, false, some, List, [], ◌∷◌, ◌++◌, ◌≡◌, refl, ◌∙◌, ap, arith,
  drop, length, ltb, if◌then◌else◌, ◌==◌, nat_eq, Bool-cases, inl, inr,
}
use memory_leak_reloader.Base.Int.{ℤ, int_eq}
use memory_leak_reloader.Base.Map.{Map, lookup, insert, lookup-insert}
use memory_leak_reloader.Base.Time.{Time, Duration, before, back}
use memory_leak_reloader.Sampling.Buffer.{
  Sample, Key, key_eq, Series, Store, observe, observe_series, trim, stale, series_or_new,
}

-- A container's samples, one at each index, and the ones from an index on.
abbrev pub window_of : (ℕ → Sample) → ℕ → ℕ → List Sample
window_of obs i zero = []
window_of obs i (suc m) = obs i ∷ window_of obs (suc i) m

-- The store after the samples 0 to n, without a restart of the container.
unfoldable pub sampled : Store → Key → ℤ → (ℕ → Sample) → ℕ → Store
unfolding observe
sampled s k r obs zero = observe s k (obs 0) r
sampled s k r obs (suc n) = observe (sampled s k r obs n) k (obs (suc n)) r

window_of_ap :
    (obs : ℕ → Sample) (i i' m m' : ℕ) → i ≡ i' → m ≡ m' → window_of obs i m ≡ window_of obs i' m'
window_of_ap obs i i' m m' p q = cc

drop-window_of :
    (obs : ℕ → Sample) (i m d : ℕ) → drop d (window_of obs i m) ≡ window_of obs (i + d) (m - d)
drop-window_of obs i m zero = window_of_ap obs i (i + 0) m (m - 0) (omega arith) (omega arith)
drop-window_of obs i zero (suc d) = window_of_ap obs _ _ 0 (0 - suc d) refl (omega arith)
drop-window_of obs i (suc m) (suc d) =
    drop-window_of obs (suc i) m d
    ∙ window_of_ap obs (suc i + d) (i + suc d) (m - d) (suc m - suc d) (omega arith) (omega arith)

append-window_of :
    (obs : ℕ → Sample) (i m : ℕ) → window_of obs i m ++ obs (i + m) ∷ [] ≡ window_of obs i (suc m)
append-window_of obs i zero = window_of_ap obs (i + 0) i 1 1 (omega arith) refl
append-window_of obs i (suc m) =
    let e : i + suc m ≡ suc i + m = omega arith in
    ap (◌∷◌ (obs i)) (rw e (append-window_of obs (suc i) m))

length-window_of : (obs : ℕ → Sample) (i m : ℕ) → length (window_of obs i m) ≡ m
length-window_of obs i zero = refl
length-window_of obs i (suc m) = ap suc (length-window_of obs (suc i) m)

-- Nothing from a fresh sample on is stale.
stale-window_of :
    (obs : ℕ → Sample) (cutoff : Time) (i m j : ℕ)
    → i ≤ j
    → before (obs j).time cutoff ≡ false
    → i + stale cutoff (window_of obs i m) ≤ j
unfolding stale
stale-window_of obs cutoff i zero j le fresh = omega arith
stale-window_of obs cutoff i (suc m) j le fresh = elim (Bool-cases (before (obs i).time cutoff)) [
  | inl old ↦ elim (Bool-cases (i == j)) [
    | inl same ↦
        let e : i ≡ j = (nat_eq.beq_iff i j).0 same in
        absurd (cc (ap (λ (a : ℕ). before (obs a).time cutoff) e))
    | inr other ↦
        let rest =
          stale-window_of obs cutoff (suc i) m j (ground (arith, nat_eq.beq_iff i j)) fresh in
        ground (arith, rest)
  ]
  | inr new ↦ ground arith
]

insert_found : (k : Key) (x : Series) (m : Map Key Series) → lookup k (insert k x m) ≡ some x
insert_found k x m = lookup-insert k k x m ∙ ground (arith, key_eq.beq_iff k k)

module _ (obs : ℕ → Sample) (span : ℕ) where
  -- The series holds the samples up to the one at `n`, from one that is at least `span` indices back if
  -- there is such a one.
  pub record Reaches (n : ℕ) (xs : List Sample) : Type 0 where
    pub first : ℕ
    pub back_enough : first ≤ n - span
    pub is_window : xs ≡ window_of obs first (suc n - first)

  trim-Reaches :
      (cutoff : Time) (max_len first n : ℕ)
      → span < max_len
      → first ≤ n - span
      → before (obs (n - span)).time cutoff ≡ false
      → Reaches n (trim cutoff max_len (window_of obs first (suc n - first)))
  unfolding trim
  trim-Reaches cutoff max_len first n room le fresh =
      let m = suc n - first in
      let xs = window_of obs first m in
      let old = stale cutoff xs in
      let over = length xs - max_len in
      let d = if ltb old over then over else old in
      let few = stale-window_of obs cutoff first m (n - span) le fresh in
      let len = length-window_of obs first m in
      record {
        first = first + d;
        back_enough = ground (arith, few, len);
        is_window =
            drop-window_of obs first m d
            ∙ window_of_ap obs _ _ (m - d) (suc n - (first + d)) refl (omega arith);
      }

  -- What the store has for the container.
  pub record Holds (k : Key) (r : ℤ) (ret : Duration) (room n : ℕ) (s : Store) : Type 0 where
    pub series : Series
    pub found : lookup k s.contents ≡ some series
    pub reaches : Reaches n series.samples
    pub restarts : series.last_restarts ≡ r
    pub retention : s.retention ≡ ret
    pub max_len : s.max_len ≡ room

  module _ (k : Key) (r : ℤ) (ret : Duration) (max_len : ℕ) (room : span < max_len)
      (fresh : (n : ℕ) → before (obs (n - span)).time (back (obs n).time ret) ≡ false) where
    -- One more sample.
    kept-Reaches :
        (n : ℕ) (xs : List Sample)
        → Reaches n xs
        → Reaches (suc n) (trim (back (obs (suc n)).time ret) max_len (xs ++ obs (suc n) ∷ []))
    kept-Reaches n xs h =
        let i = h.first in
        let all : xs ++ obs (suc n) ∷ [] ≡ window_of obs i (suc (suc n) - i) =
          let at_end : suc n ≡ i + (suc n - i) = omega (arith, h.back_enough) in
          let more : suc (suc n - i) ≡ suc (suc n) - i = omega (arith, h.back_enough) in
          rw (h.is_window, ap obs at_end) (append-window_of obs i (suc n - i))
          ∙ window_of_ap obs i i _ _ refl more in
        rw all (
          trim-Reaches (back (obs (suc n)).time ret) max_len i (suc n) room
            (omega (arith, h.back_enough)) (fresh (suc n)))

    observe-Holds :
        (n : ℕ) (s : Store)
        → Holds k r ret max_len n s
        → Holds k r ret max_len (suc n) (observe s k (obs (suc n)) r)
    unfolding observe observe_series
    observe-Holds n s h = record {
      series = observe_series ret max_len h.series (obs (suc n)) r;
      found =
          insert_found k
            (observe_series s.retention s.max_len (series_or_new (lookup k s.contents) r)
              (obs (suc n)) r)
            s.contents
          ∙ rw (h.found, h.retention, h.max_len) refl;
      reaches = rw h.restarts (ground (arith, kept-Reaches n h.series.samples h.reaches));
      restarts = refl;
      retention = h.retention;
      max_len = h.max_len;
    }

    pub sampled-Holds :
        (s : Store) (n : ℕ)
        → s.contents ≡ []
        → s.retention ≡ ret
        → s.max_len ≡ max_len
        → Holds k r ret max_len n (sampled s k r obs n)
    unfolding sampled observe observe_series
    sampled-Holds s zero e p q = record {
      series = observe_series ret max_len (record { samples = []; last_restarts = r }) (obs 0) r;
      found = insert_found k _ s.contents ∙ rw (e, p, q) refl;
      reaches =
          ground
            (arith, trim-Reaches (back (obs 0).time ret) max_len 0 0 room (omega arith) (fresh 0));
      restarts = refl;
      retention = p;
      max_len = q;
    }
    sampled-Holds s (suc n) e p q = observe-Holds n (sampled s k r obs n) (sampled-Holds s n e p q)
