-- ===== src/Sampling/Detect/Laws.antt =====
-- When Detect (internal/sampling/detect.go) reports a leak.
use memory_leak_reloader.Base.{
  ◌≤◌, String, Bool, true, false, Option, none, some, List, [], ◌∷◌, ◌≡◌, ◌↔◌, refl, sym, subst,
  filterb, ◌==◌, string_eq, arith, if◌then◌else◌, not, ◌&&◌, length, All, Option-cases, inl, inr,
  last?, ltb,
}
use memory_leak_reloader.Base.Int.{pos, pos_part, neg_part, ◌-ℤ◌, ◌≤ℤ◌, ◌<ℤ◌, leb_ℤ}
use memory_leak_reloader.Base.Word.{IsDuration, mul64}
use memory_leak_reloader.Base.Time.{Time, Duration, before, back-eq}
use memory_leak_reloader.Api.{Quantity}
use memory_leak_reloader.Config.{Detection, mode_sustained, mode_trend, mode_combined}
use memory_leak_reloader.Sampling.Buffer
use memory_leak_reloader.Sampling.Buffer.{
  Sample, Store, Key, Series, key_eq, spans, series_spans, samples, samples_of,
}
use memory_leak_reloader.Base.Map.{lookup}
use memory_leak_reloader.Sampling.Detect.{
  Result, Float64, exceeds, exceeds_limit, threshold_bytes, all_exceed, window_samples,
  window_covered, trend_leaking, judge, detect_from, detect, ols_slope, project,
}

spans-samples_of : (o : Option Series) (t : Time) → series_spans o t ≡ spans (samples_of o) t
spans-samples_of none t = refl
spans-samples_of (some ser) t = refl

-- The check that the sampler runs on the stored series is the one that the detector runs on its copy.
pub window_covered-samples :
    (s : Store) (k : Key) (window : Duration) (now : Time)
    → Buffer.window_covered s k window now ≡ window_covered (samples s k) window now
unfolding Buffer.window_covered window_covered samples
window_covered-samples s k window now = spans-samples_of (lookup k s.contents) _

abbrev pub Exceeds : Detection → Sample → Type 0
Exceeds d s = exceeds s d ≡ true

all_exceed_iff :
    (win : List Sample) (d : Detection) → (all_exceed win d ≡ true) ↔ All (Exceeds d) win
unfolding all_exceed
all_exceed_iff [] d = (λ h. tt, λ h. refl)
all_exceed_iff (s ∷ win) d =
    (λ h. ground (arith, all_exceed_iff win d), λ h. ground (arith, all_exceed_iff win d))

all_exceed-mode :
    (m : String) (win : List Sample) (d : Detection)
    → all_exceed win (record d { mode = m }) ≡ all_exceed win d
unfolding all_exceed exceeds
all_exceed-mode m [] d = refl
all_exceed-mode m (s ∷ win) d = ground (arith, all_exceed-mode m win d)

-- A sample at or above its threshold: the absolute one, or the percentage of its own memory limit,
-- with the products of int64 values.
pub data AtThreshold (d : Detection) (s : Sample) : Type 0 where
  absolute :
      (q : Quantity) → d.threshold_absolute ≡ some q → q.value ≤ℤ s.working_set → AtThreshold d s
  percent :
      d.threshold_absolute ≡ none
      → pos 0 <ℤ s.limit
      → mul64 s.limit d.threshold_percent ≤ℤ mul64 s.working_set (pos 100)
      → AtThreshold d s

exceeds-AtThreshold : (d : Detection) (s : Sample) → exceeds s d ≡ true → AtThreshold d s
unfolding exceeds exceeds_limit pos_part neg_part
exceeds-AtThreshold d s h = elim (Option-cases d.threshold_absolute) [
  | inl unset ↦ let k = rw unset at h in percent unset (ground (arith, k)) (ground (arith, k))
  | inr (q, e) ↦ let k = rw e at h in absolute q e (ground (arith, k))
]

AtThreshold-exceeds : (d : Detection) (s : Sample) → AtThreshold d s → exceeds s d ≡ true
unfolding exceeds exceeds_limit pos_part neg_part
AtThreshold-exceeds d s (absolute q e h) = rw e (ground (arith, h))
AtThreshold-exceeds d s (percent e h k) = rw e (ground (arith, h, k))

All-Exceeds_iff : (d : Detection) (xs : List Sample) → All (Exceeds d) xs ↔ All (AtThreshold d) xs
All-Exceeds_iff d [] = (λ h. tt, λ h. tt)
All-Exceeds_iff d (x ∷ xs) = (
  λ h. (exceeds-AtThreshold d x h.0, (All-Exceeds_iff d xs).0 h.1),
  λ h. (AtThreshold-exceeds d x h.0, (All-Exceeds_iff d xs).1 h.1),
)

-- The samples of the window: those that are not older than it.
abbrev pub recent : List Sample → Duration → Time → List Sample
recent xs window now = filterb (λ s. leb_ℤ (now -ℤ window) s.time) xs

-- The series has an oldest sample, from before the window or from its start, and another one.
pub record Covers (xs : List Sample) (window : Duration) (now : Time) : Type 0 where
  pub oldest : Sample
  pub second : Sample
  pub rest : List Sample
  pub series : xs ≡ oldest ∷ second ∷ rest
  pub reaches : oldest.time ≤ℤ now -ℤ window

-- What has to be so before any mode is tried: the series reaches back over the whole window, and two
-- samples lie in it.
pub record IsWarm (samples : List Sample) (d : Detection) (now : Time) : Type 0 where
  pub covered : Covers samples d.window now
  pub two : 2 ≤ length (recent samples d.window now)

window_samples-recent :
    (xs : List Sample) (window : Duration) (now : Time)
    → IsDuration window
    → window_samples xs window now ≡ recent xs window now
unfolding window_samples
window_samples-recent xs window now h = rw (back-eq now window h) (go xs)
  where
    go :
        (ys : List Sample)
        → filterb (λ s. not (before s.time (now -ℤ window))) ys
          ≡ filterb (λ s. leb_ℤ (now -ℤ window) s.time) ys
    go [] = refl
    go (y ∷ ys) = ground (arith, go ys)

covered-Covers :
    (xs : List Sample) (window : Duration) (now : Time)
    → IsDuration window
    → window_covered xs window now ≡ true
    → Covers xs window now
unfolding window_covered
covered-Covers [] window now d h = absurd (cc h)
covered-Covers (x ∷ []) window now d h = absurd (cc h)
covered-Covers (x ∷ y ∷ ys) window now d h =
    let k = rw (back-eq now window d) at h in
    record { oldest = x; second = y; rest = ys; series = refl; reaches = ground (arith, k) }

Covers-covered :
    (xs : List Sample) (window : Duration) (now : Time)
    → IsDuration window
    → Covers xs window now
    → window_covered xs window now ≡ true
unfolding window_covered
Covers-covered xs window now d h = rw (h.series, back-eq now window d) (ground (arith, h.reaches))

-- The verdict of a mode on a window.
abbrev pub verdict : String → Bool → Bool → Bool
verdict mode sustained trending =
    if mode == mode_sustained
    then sustained
    else if mode == mode_trend
    then trending
    else if mode == mode_combined
    then sustained && trending
    else false

judge-leaking :
    (d : Detection) (res : Result) (a b : Bool)
    → res.leaking ≡ false
    → (judge d res a b).leaking ≡ verdict d.mode a b
unfolding judge
judge-leaking d res a b h = ground arith

module _ {F : Type 0} (fl : Float64 F) where
  abbrev decision : List Sample → Detection → Time → Bool
  decision samples d now =
      let win = window_samples samples d.window now in
      if not (window_covered samples d.window now)
      then false
      else if ltb (length win) 2
      then false
      else verdict d.mode (all_exceed win d) (trend_leaking fl win d).0

  detect_from-leaking :
      (last : Sample) (samples : List Sample) (d : Detection) (now : Time)
      → (detect_from fl last samples d now).leaking ≡ decision samples d now
  unfolding detect_from
  detect_from-leaking last samples d now = ground (
    arith,
    judge-leaking d
        (record {
          leaking = false;
          reason = "";
          observed = last.working_set;
          threshold = threshold_bytes last d;
        })
        (all_exceed (window_samples samples d.window now) d)
        (trend_leaking fl (window_samples samples d.window now) d).0,
  )

  uncovered : (d : Detection) (now : Time) → window_covered [] d.window now ≡ false
  unfolding window_covered
  uncovered d now = refl

  last?-none : (xs : List Sample) → last? xs ≡ none → xs ≡ []
  last?-none [] h = refl
  last?-none (x ∷ []) h = cc
  last?-none (x ∷ y ∷ ys) h = cc (last?-none (y ∷ ys) h)

  detect-decision :
      (samples : List Sample) (d : Detection) (now : Time)
      → (detect fl samples d now).leaking ≡ decision samples d now
  unfolding detect
  detect-decision xs d now = elim (Option-cases (last? xs)) [
    | inl e ↦ rw (last?-none xs e) (ground (arith, uncovered d now))
    | inr (last, e) ↦ rw (e, detect) (detect_from-leaking last xs d now)
  ]

  project-mode :
      (m : String) (o : Option F) (d : Detection)
      → project fl o (record d { mode = m }) ≡ project fl o d
  project-mode m none d = refl
  project-mode m (some slope) d = refl

  trend_leaking-mode :
      (m : String) (win : List Sample) (d : Detection)
      → trend_leaking fl win (record d { mode = m }) ≡ trend_leaking fl win d
  unfolding trend_leaking
  trend_leaking-mode m win d = project-mode m (ols_slope fl win) d

  decision-IsWarm :
      (xs : List Sample) (d : Detection) (now : Time)
      → IsDuration d.window
      → decision xs d now ≡ true
      → IsWarm xs d now
  decision-IsWarm xs d now w h = record {
    covered = covered-Covers xs d.window now w (ground arith);
    two = rw (sym (window_samples-recent xs d.window now w)) (ground arith);
  }

  decision_sustained :
      (xs : List Sample) (d : Detection) (now : Time)
      → d.mode ≡ mode_sustained
      → decision xs d now ≡ true
      → all_exceed (window_samples xs d.window now) d ≡ true
  decision_sustained xs d now mode h = ground (arith, string_eq.beq_iff d.mode mode_sustained)

  sustained_decision :
      (xs : List Sample) (d : Detection) (now : Time)
      → d.mode ≡ mode_sustained
      → window_covered xs d.window now ≡ true
      → 2 ≤ length (window_samples xs d.window now)
      → all_exceed (window_samples xs d.window now) d ≡ true
      → decision xs d now ≡ true
  sustained_decision xs d now mode covered two all =
      ground (arith, string_eq.beq_iff d.mode mode_sustained)

  -- Let the window be a Duration. In sustained mode a container leaks exactly if its series has an
  -- oldest sample that is at least as old as the window, and another one, at least two samples lie
  -- in the window, and every sample in the window is at or above its threshold: the absolute one if
  -- there is one, and else the percentage of the sample's own positive limit, as int64 products.
  pub detect_sustained_iff :
      (xs : List Sample) (d : Detection) (now : Time)
      → IsDuration d.window
      → d.mode ≡ mode_sustained
      → ((detect fl xs d now).leaking ≡ true)
        ↔ (IsWarm xs d now × All (AtThreshold d) (recent xs d.window now))
  detect_sustained_iff xs d now w mode =
      let win = window_samples xs d.window now in
      let same = window_samples-recent xs d.window now w in
      (
        λ h.
            let k = rw (detect-decision xs d now) at h in
            let all = (all_exceed_iff win d).0 (decision_sustained xs d now mode k) in
            (
              decision-IsWarm xs d now w k,
              subst (All (AtThreshold d)) same ((All-Exceeds_iff d win).0 all),
            ),
        λ h.
            let all = (All-Exceeds_iff d win).1 (subst (All (AtThreshold d)) (sym same) h.1) in
            let two = subst (λ ys. 2 ≤ length ys) (sym same) h.0.two in
            rw (detect-decision xs d now) (
              sustained_decision xs d now mode (Covers-covered xs d.window now w h.0.covered) two
                ((all_exceed_iff win d).1 all)),
      )

  -- A container leaks in combined mode exactly if it leaks in both of the other modes.
  pub detect_combined :
      (xs : List Sample) (d : Detection) (now : Time)
      → (detect fl xs (record d { mode = mode_combined }) now).leaking
        ≡ (detect fl xs (record d { mode = mode_sustained }) now).leaking
          && (detect fl xs (record d { mode = mode_trend }) now).leaking
  detect_combined xs d now =
      rw
        (
          detect-decision xs (record d { mode = mode_combined }) now,
          detect-decision xs (record d { mode = mode_sustained }) now,
          detect-decision xs (record d { mode = mode_trend }) now,
        )
        (ground (
          arith,
          all_exceed-mode mode_combined (window_samples xs d.window now) d,
          all_exceed-mode mode_sustained (window_samples xs d.window now) d,
          trend_leaking-mode mode_combined (window_samples xs d.window now) d,
          trend_leaking-mode mode_trend (window_samples xs d.window now) d,
        ))

  -- Whatever the mode, and with a window that is a Duration, a leak is reported only of a series that
  -- has an oldest sample at least as old as the window, another sample, and two samples in the
  -- window: never while warming up.
  pub detect-IsWarm :
      (xs : List Sample) (d : Detection) (now : Time)
      → IsDuration d.window
      → (detect fl xs d now).leaking ≡ true
      → IsWarm xs d now
  detect-IsWarm xs d now w h = decision-IsWarm xs d now w (rw (detect-decision xs d now) at h)
