-- ===== src/Sampling/Detect.antt =====
-- internal/sampling/detect.go: the leak detectors over a series.
pub mod Laws
pub mod Threshold
use memory_leak_reloader.Base.{
  ℕ, suc, String, Bool, true, false, Option, none, some, List, [], ◌∷◌, ◌==◌, string_eq,
  if◌then◌else◌, not, ◌||◌, ◌&&◌, length, filterb, ltb, last?,
}
use memory_leak_reloader.Base.Int.{ℤ, pos, leb_ℤ, ltb_ℤ, ◌/ℤ◌, pos_part, neg_part}
use memory_leak_reloader.Base.Text.{concat}
use memory_leak_reloader.Base.Word.{mul64}
use memory_leak_reloader.Base.Time.{Time, Duration, before, back, since}
use memory_leak_reloader.Config.{Detection, mode_sustained, mode_trend, mode_combined}
use memory_leak_reloader.Sampling.Buffer.{Sample, spans}

pub record Result : Type 0 where
  pub leaking : Bool
  pub reason : String
  pub observed : ℤ
  pub threshold : ℤ

abbrev pub no_result : Result
no_result = record { leaking = false; reason = ""; observed = pos 0; threshold = pos 0 }

-- Go's float64, of which the regression uses these operations; its values are of the type `F`.
pub record Float64 (F : Type 0) : Type 0 where
  pub of_int : ℤ → F  -- float64(n)
  pub plus : F → F → F
  pub minus : F → F → F
  pub times : F → F → F
  pub divide : F → F → F
  pub equals : F → F → Bool
  pub at_most : F → F → Bool
  pub less : F → F → Bool
  pub to_int64 : F → ℤ  -- int64(f)
  pub duration_seconds : Duration → F  -- Duration.Seconds()

unfoldable pub exceeds_limit : Sample → ℤ → Bool
unfolding pos_part neg_part
exceeds_limit s percent =
    if ltb_ℤ (pos 0) s.limit
    then leb_ℤ (mul64 s.limit percent) (mul64 s.working_set (pos 100))
    else false

unfoldable pub exceeds : Sample → Detection → Bool
unfolding exceeds_limit
exceeds s d = elim d.threshold_absolute [
  | some q ↦ leb_ℤ q.value s.working_set
  | none ↦ exceeds_limit s d.threshold_percent
]

unfoldable pub threshold_bytes : Sample → Detection → ℤ
unfolding ◌/ℤ◌
threshold_bytes s d = elim d.threshold_absolute [
  | some q ↦ q.value
  | none ↦ if ltb_ℤ (pos 0) s.limit then mul64 s.limit d.threshold_percent /ℤ 100 else pos 0
]

-- WindowSamples.
unfoldable pub window_samples : List Sample → Duration → Time → List Sample
unfolding back
window_samples samples window now =
    let cutoff = back now window in filterb (λ s. not (before s.time cutoff)) samples

-- WindowCovered.
unfoldable pub window_covered : List Sample → Duration → Time → Bool
unfolding back
window_covered samples window now = spans samples (back now window)

unfoldable pub all_exceed : List Sample → Detection → Bool
unfolding exceeds
all_exceed [] d = true
all_exceed (s ∷ win) d = let rest = all_exceed win d in if not (exceeds s d) then false else rest

unfoldable pub trend_reason : Detection → String
trend_reason d = concat (
    "working set trending upward (projected growth over window exceeds " ∷ d.trend_min_growth.text
    ∷ ")" ∷ [])

-- The switch on the mode.
unfoldable pub judge : Detection → Result → Bool → Bool → Result
unfolding trend_reason
judge d res sustained trending =
    if d.mode == mode_sustained
    then if sustained
      then record res {
        leaking = true;
        reason = "working set stayed above threshold for the full window";
      }
      else res
    else if d.mode == mode_trend
    then if trending then record res { leaking = true; reason = trend_reason d } else res
    else if d.mode == mode_combined
    then if sustained && trending
      then record res {
        leaking = true;
        reason = "working set sustained above threshold and trending upward";
      }
      else res
    else res

pub record Sums (F : Type 0) : Type 0 where
  pub x : F
  pub y : F
  pub xy : F
  pub xx : F

module _ {F : Type 0} (fl : Float64 F) where
  open fl use {
    of_int, plus, minus, times, divide, equals, at_most, less, to_int64, duration_seconds,
  }

  -- The loop of olsSlope, from the sums so far.
  unfoldable pub accumulate : Time → Sums F → List Sample → Sums F
  unfolding since
  accumulate t0 acc [] = acc
  accumulate t0 acc (s ∷ win) =
      let x = duration_seconds (since s.time t0) in
      let y = of_int s.working_set in
      accumulate t0
        (record {
          x = plus acc.x x;
          y = plus acc.y y;
          xy = plus acc.xy (times x y);
          xx = plus acc.xx (times x x);
        })
        win

  unfoldable pub ols_slope : List Sample → Option F
  unfolding accumulate
  ols_slope [] = none
  ols_slope (s ∷ win) =
      let zero = of_int (pos 0) in
      let n = of_int (pos (length (s ∷ win))) in
      let start : Sums F = record { x = zero; y = zero; xy = zero; xx = zero } in
      let sums = accumulate s.time start (s ∷ win) in
      let denom = minus (times n sums.xx) (times sums.x sums.x) in
      if less n (of_int (pos 2))
      then none
      else if equals denom zero
      then none
      else some (divide (minus (times n sums.xy) (times sums.x sums.y)) denom)

  abbrev pub project : Option F → Detection → Bool × ℤ
  project none d = (false, pos 0)
  project (some slope) d = if at_most slope (of_int (pos 0)) then (false, pos 0) else (
    leb_ℤ d.trend_min_growth.value (to_int64 (times slope (duration_seconds d.window))),
    to_int64 (times slope (duration_seconds d.window)),
  )

  unfoldable pub trend_leaking : List Sample → Detection → Bool × ℤ
  unfolding ols_slope
  trend_leaking win d = project (ols_slope win) d

  unfoldable pub detect_from : Sample → List Sample → Detection → Time → Result
  unfolding threshold_bytes window_covered window_samples all_exceed trend_leaking judge
  detect_from last samples d now =
      let res : Result = record {
        leaking = false;
        reason = "";
        observed = last.working_set;
        threshold = threshold_bytes last d;
      } in
      let win = window_samples samples d.window now in
      if not (window_covered samples d.window now)
      then res
      else if ltb (length win) 2
      then res
      else judge d res (all_exceed win d) (trend_leaking win d).0

  unfoldable pub detect : List Sample → Detection → Time → Result
  unfolding detect_from
  detect samples d now = elim (last? samples) [
    | none ↦ no_result
    | some last ↦ detect_from last samples d now
  ]
