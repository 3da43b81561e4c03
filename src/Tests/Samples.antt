-- ===== src/Tests/Samples.antt =====
-- The sample store and the detectors on a short series.
use memory_leak_reloader.Base.{
  ◌+◌, ◌≤◌, true, none, List, [], ◌∷◌, ◌++◌, ◌≡◌, ◌↔◌, refl, arith, length, filterb, not, All,
  string_eq,
}
use memory_leak_reloader.Base.Int.{pos, ◌≤ℤ◌, ◌<ℤ◌, ◌*ℤ◌, ◌-ℤ◌, int_laws, pos_part, neg_part}
use memory_leak_reloader.Base.Word.{IsDuration, mul64}
use memory_leak_reloader.Base.Time.{before}
use memory_leak_reloader.Base.Map.{lookup, has, distinct}
use memory_leak_reloader.Sampling.Buffer.{Sample, Key, Store, key_eq, observe, samples}
use memory_leak_reloader.Sampling.Buffer.Invariant.{IsValid}
use memory_leak_reloader.Sampling.Buffer.Laws.{prior, observe-retained}
use memory_leak_reloader.Sampling.Detect.{detect, exceeds, threshold_bytes}
use memory_leak_reloader.Sampling.Detect.Laws.{
  IsWarm, AtThreshold, recent, detect_sustained_iff, detect-IsWarm,
}
use memory_leak_reloader.Sampling.Detect.Threshold.{Fits, threshold_bytes-le_of_exceeds}
use memory_leak_reloader.Tests.Values.{detection, whole, state, policy, fresh}

abbrev app : Key
app = record { namespace = "shop"; pod = "web-1"; container = "app" }

abbrev high : Sample
high = record { time = pos 29; working_set = pos 95; limit = pos 100 }

abbrev store : Store
store = (state (policy none fresh)).store

store-IsValid : IsValid (pos 28) store
unfolding distinct has
store-IsValid = record {
  one_each = refl;
  series = (
    record {
      bounded = omega arith;
      sorted = ((omega int_laws, (omega int_laws, tt)), ((omega int_laws, tt), (tt, tt)));
      past = (omega int_laws, (omega int_laws, (omega int_laws, tt)));
    },
    tt,
  );
}

retention-IsDuration : IsDuration store.retention
retention-IsDuration = record { not_over = omega int_laws; not_under = omega int_laws }

prior_room : length (prior store app (pos 0)) + 1 ≤ store.max_len
unfolding prior lookup pos_part neg_part
prior_room = omega arith

observe-retained_example :
    samples (observe store app high (pos 0)) app
    ≡ filterb
        (λ y. not (before y.time (high.time -ℤ store.retention)))
        (prior store app (pos 0) ++ high ∷ [])
observe-retained_example =
    observe-retained store app high (pos 0) (pos 28) store-IsValid (omega int_laws)
      retention-IsDuration prior_room

abbrev series : List Sample
series = samples store app

window-IsDuration : IsDuration detection.window
window-IsDuration = record { not_over = omega int_laws; not_under = omega int_laws }

detect_sustained_iff_example : ((detect whole series detection (pos 30)).leaking ≡ true) ↔ (
    IsWarm series detection (pos 30)
    × All (AtThreshold detection) (recent series (pos 10) (pos 30)))
detect_sustained_iff_example =
    detect_sustained_iff whole series detection (pos 30) window-IsDuration refl

leaks : (detect whole series detection (pos 30)).leaking ≡ true
unfolding detect samples mul64
leaks = refl

detect-IsWarm_example : IsWarm series detection (pos 30)
detect-IsWarm_example = detect-IsWarm whole series detection (pos 30) window-IsDuration leaks

high-Fits : Fits high detection
unfolding ◌*ℤ◌
high-Fits = record {
  limit_fits = record { not_over = omega int_laws; not_under = omega int_laws };
  usage_fits = record { not_over = omega int_laws; not_under = omega int_laws };
}

high-exceeds : exceeds high detection ≡ true
unfolding exceeds mul64
high-exceeds = refl

threshold_bytes-le_of_exceeds_example : threshold_bytes high detection ≤ℤ pos 95
threshold_bytes-le_of_exceeds_example =
    threshold_bytes-le_of_exceeds high detection high-Fits (omega int_laws) high-exceeds

over_threshold : threshold_bytes high detection <ℤ pos 95
unfolding threshold_bytes mul64
over_threshold = omega int_laws
