-- ===== src/Startup/Sizing.antt =====
-- The size that cmd/main.go gives the store of series: a container that is sampled at every interval
-- comes to cover the detection window, and goes on covering it.
pub mod Kept
use memory_leak_reloader.Base.{
  ℕ, zero, suc, ◌+◌, ◌-◌, ◌*◌, ◌/◌, ◌≤◌, ◌<◌, Bool, true, false, not, Option, none, some, List, [],
  ◌∷◌, ◌++◌, ◌≡◌, refl, sym, ◌∙◌, ap, arith, drop, length, ltb, if◌then◌else◌, ◌==◌, nat_eq,
  Bool-cases, inl, inr,
}
use native.Mathlib.Nat.{mul-le-mul_right}
use memory_leak_reloader.Base.Int.{
  ℤ, pos, sub_ℕ, pos_part, neg_part, pos_part-pos, neg_part-pos, ◌+ℤ◌, ◌*ℤ◌, ◌-ℤ◌, int_eq, ◌≤ℤ◌,
  int_laws, ltb_ℤ, leb_ℤ,
}
use memory_leak_reloader.Base.Map.{Map, lookup, insert, lookup-insert}
use memory_leak_reloader.Base.Time.{Time, Duration, before, after, back, back-eq}
use memory_leak_reloader.Base.Word.{half_word, wrap64, wrap64-eq, add64, mul64, quot64, IsDuration}
use memory_leak_reloader.Sampling.Buffer.{
  Sample, Key, key_eq, Series, Store, new_store, observe, observe_series, trim, stale,
  window_covered, series_or_new, spans, series_spans,
}
use memory_leak_reloader.Startup.{Flags}
use memory_leak_reloader.Startup.Stages.{done}
use memory_leak_reloader.Startup.Launch.{sized_store, retention}
use memory_leak_reloader.Startup.Sizing.Kept.{window_of, sampled, Reaches, Holds, sampled-Holds}

-- The intervals that make up the detection window.
abbrev intervals : ℕ → ℕ → ℕ
intervals w s = w / s + 1

intervals_bounds : (w s : ℕ) → 1 ≤ s → (w ≤ intervals w s * s) × (intervals w s * s ≤ w + s)
intervals_bounds w s h = (omega arith, omega arith)

mul_order : (a b c s : ℕ) → a ≤ b + c → a * s ≤ b * s + c * s
mul_order a b c s h = let m = mul-le-mul_right s h in omega arith

not_before_back :
    (t : Time) (a b c : ℕ) → b ≤ a + c → before (t +ℤ pos a) ((t +ℤ pos b) -ℤ pos c) ≡ false
not_before_back t a b c h =
    let le : (t +ℤ pos b) -ℤ pos c ≤ℤ t +ℤ pos a = omega (arith, int_laws) in ground arith

not_after_back :
    (t : Time) (a b c : ℕ) → a + c ≤ b → not (after (t +ℤ pos a) ((t +ℤ pos b) -ℤ pos c)) ≡ true
not_after_back t a b c h =
    let le : t +ℤ pos a ≤ℤ (t +ℤ pos b) -ℤ pos c = omega (arith, int_laws) in ground arith

small-IsDuration : (n : ℕ) → n < half_word → IsDuration (pos n)
small-IsDuration n h = record {
  not_over = rw (pos_part-pos n) h;
  not_under = rw (neg_part-pos n) (omega arith);
}

module _ (obs : ℕ → Sample) (t0 : Time) (w s : ℕ)
    (ticks : (i : ℕ) → (obs i).time ≡ t0 +ℤ pos (i * s)) (some_time : 1 ≤ s)
    (fits : w * 2 + s < half_word) where
  fresh_sample :
      (n : ℕ) → before (obs (n - intervals w s)).time (back (obs n).time (pos (w * 2 + s))) ≡ false
  fresh_sample n =
      let bounds = intervals_bounds w s some_time in
      let later = mul_order n (n - intervals w s) (intervals w s) s (omega arith) in
      rw
        (
          back-eq (obs n).time (pos (w * 2 + s)) (small-IsDuration _ fits),
          ticks n,
          ticks (n - intervals w s),
        )
        (not_before_back t0 _ _ (w * 2 + s) (omega (arith, bounds, later)))

  spans-Reaches :
      (n : ℕ) (xs : List Sample)
      → intervals w s ≤ n
      → Reaches obs (intervals w s) n xs
      → spans xs (back (obs n).time (pos w)) ≡ true
  spans-Reaches n xs h r =
      let bounds = intervals_bounds w s some_time in
      let two : suc n - r.first ≡ suc (suc (n - 1 - r.first)) = omega (arith, r.back_enough) in
      let earlier = mul_order (r.first + intervals w s) n 0 s (omega (arith, r.back_enough)) in
      rw
        (
          r.is_window,
          two,
          back-eq (obs n).time (pos w) (small-IsDuration _ (omega arith)),
          ticks n,
          ticks r.first,
        )
        (not_after_back t0 _ _ w (omega (arith, bounds, earlier)))

-- The store that the flags size, for a window and an interval that fit an int64.
record IsSized (w s : ℕ) (store : Store) : Type 0 where
  contents : store.contents ≡ []
  retention : store.retention ≡ pos (w * 2 + s)
  max_len : store.max_len ≡ w / s + 8

mul-pos : (a b : ℕ) → pos a *ℤ pos b ≡ pos (a * b)
unfolding ◌*ℤ◌ sub_ℕ pos_part neg_part
mul-pos a b = ground arith

add-pos : (a b : ℕ) → pos a +ℤ pos b ≡ pos (a + b)
unfolding ◌+ℤ◌ sub_ℕ pos_part neg_part
add-pos a b = ground arith

wrap_small : (n : ℕ) → n < half_word → wrap64 (pos n) ≡ pos n
wrap_small n h =
    wrap64-eq (pos n)
      (record { not_over = rw (pos_part-pos n) h; not_under = rw (neg_part-pos n) (omega arith) })

mul64-small : (a b : ℕ) → a * b < half_word → mul64 (pos a) (pos b) ≡ pos (a * b)
unfolding mul64
mul64-small a b h =
    let e : pos a *ℤ pos b ≡ pos (a * b) = mul-pos a b in rw e (wrap_small (a * b) h)

add64-small : (a b : ℕ) → a + b < half_word → add64 (pos a) (pos b) ≡ pos (a + b)
unfolding add64
add64-small a b h =
    let e : pos a +ℤ pos b ≡ pos (a + b) = add-pos a b in rw e (wrap_small (a + b) h)

retention-small :
    (f : Flags) (w s : ℕ)
    → f.window ≡ pos w
    → f.sample_every ≡ pos s
    → w * 2 + s < half_word
    → retention f ≡ pos (w * 2 + s)
unfolding retention
retention-small f w s fw fs fits =
    rw (fw, fs, mul64-small w 2 (omega arith)) (add64-small (w * 2) s fits)

max_len-small :
    (w s : ℕ)
    → 1 ≤ s
    → w * 2 + s < half_word
    → add64 (quot64 (pos w) (pos s)) (pos 8) ≡ pos (w / s + 8)
unfolding quot64
max_len-small w s some_time fits = add64-small (w / s) 8 (omega arith)

sized_store_lem :
    (f : Flags)
    → (f.sample_every == pos 0) ≡ false
    → sized_store f
      ≡ done (new_store (retention f) (add64 (quot64 f.window f.sample_every) (pos 8)))
unfolding sized_store
sized_store_lem f h = rw h refl

done_injective : (a b : Store) → done a ≡ done b → a ≡ b
done_injective a b h = cc h

new_store-max_len : (d : Duration) (n : ℕ) → 2 ≤ n → (new_store d (pos n)).max_len ≡ n
unfolding new_store pos_part neg_part
new_store-max_len d n h = ground arith

sized_store-IsSized :
    (f : Flags) (w s : ℕ) (store : Store)
    → f.window ≡ pos w
    → f.sample_every ≡ pos s
    → 1 ≤ s
    → w * 2 + s < half_word
    → sized_store f ≡ done store
    → IsSized w s store
unfolding new_store
sized_store-IsSized f w s store fw fs some_time fits e =
    let positive : (f.sample_every == pos 0) ≡ false = rw fs (ground arith) in
    let same = done_injective _ store (sym (sized_store_lem f positive) ∙ e) in
    let room : add64 (quot64 f.window f.sample_every) (pos 8) ≡ pos (w / s + 8) =
      rw (fw, fs) (max_len-small w s some_time fits) in
    record {
      contents = sym (ap (λ (x : Store). x.contents) same);
      retention = sym (ap (λ (x : Store). x.retention) same) ∙ retention-small f w s fw fs fits;
      max_len =
          sym (ap (λ (x : Store). x.max_len) same)
          ∙ ap (λ (m : ℤ). (new_store (retention f) m).max_len) room
          ∙ new_store-max_len (retention f) (w / s + 8) (omega arith);
    }

-- Let --window and --sample-interval be such that twice the window and one interval together fit an
-- int64, and the interval be positive. Then in the store that run makes, a container whose samples lie
-- exactly one interval apart, with the same restart count, covers the window at each sample from the
-- one on that is more than window / interval intervals after the first, however long the sampling
-- goes on.
pub sampled-covered :
    (f : Flags) (w s : ℕ) (store : Store) (obs : ℕ → Sample) (t0 : Time) (k : Key) (r : ℤ) (n : ℕ)
    → f.window ≡ pos w
    → f.sample_every ≡ pos s
    → 1 ≤ s
    → w * 2 + s < half_word
    → sized_store f ≡ done store
    → ((i : ℕ) → (obs i).time ≡ t0 +ℤ pos (i * s))
    → w / s < n
    → window_covered (sampled store k r obs n) k f.window (obs n).time ≡ true
unfolding window_covered
sampled-covered f w s store obs t0 k r n fw fs some_time fits e ticks enough =
    let sized = sized_store-IsSized f w s store fw fs some_time fits e in
    let h =
      sampled-Holds obs (intervals w s) k r (pos (w * 2 + s)) (w / s + 8) (omega arith)
        (fresh_sample obs t0 w s ticks some_time fits) store n sized.contents sized.retention
        sized.max_len in
    rw (h.found, fw)
      (spans-Reaches obs t0 w s ticks some_time fits n h.series.samples (omega arith) h.reaches)
