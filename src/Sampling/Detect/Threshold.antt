-- ===== src/Sampling/Detect/Threshold.antt =====
-- The threshold test and the reported threshold (internal/sampling/detect.go) agree, as long as the
-- two int64 products do not overflow.
use memory_leak_reloader.Base.{ℕ, suc, ◌+◌, ◌*◌, ◌/◌, true, ◌≡◌, arith}
use memory_leak_reloader.Base.Int.{
  ℤ, pos, negsuc, pos_part, neg_part, ◌*ℤ◌, ◌/ℤ◌, ◌≤ℤ◌, ◌<ℤ◌, leb_ℤ, int_laws, parts_apart,
  sub_ℕ_parts,
}
use memory_leak_reloader.Base.Word.{IsInt64, mul64-eq}
use memory_leak_reloader.Config.{Detection}
use memory_leak_reloader.Sampling.Buffer.{Sample}
use memory_leak_reloader.Sampling.Detect.{exceeds, exceeds_limit, threshold_bytes}

*ℤ-pos_parts :
    (a : ℤ) (k : ℕ)
    → pos_part (a *ℤ pos k) + neg_part a * k ≡ neg_part (a *ℤ pos k) + pos_part a * k
unfolding ◌*ℤ◌
*ℤ-pos_parts a k =
    omega (arith, sub_ℕ_parts (pos_part a * k + neg_part a * 0) (pos_part a * 0 + neg_part a * k))

-- Division by 100 rounds towards zero.
quot_le : (z w : ℤ) → z ≤ℤ w *ℤ pos 100 → z /ℤ 100 ≤ℤ w
unfolding ◌/ℤ◌
quot_le (pos n) w h =
    omega (int_laws, *ℤ-pos_parts w 100, parts_apart w, parts_apart (w *ℤ pos 100))
quot_le (negsuc n) w h =
    omega (int_laws, *ℤ-pos_parts w 100, sub_ℕ_parts 0 (suc n / 100), parts_apart w)

lt_quot : (z w : ℤ) → z /ℤ 100 <ℤ w → z ≤ℤ w *ℤ pos 100
unfolding ◌/ℤ◌
lt_quot (pos n) w h = omega (int_laws, *ℤ-pos_parts w 100, parts_apart w)
lt_quot (negsuc n) w h =
    omega (int_laws, *ℤ-pos_parts w 100, sub_ℕ_parts 0 (suc n / 100), parts_apart w)

-- The int64 products of the percentage test do not overflow.
pub record Fits (s : Sample) (d : Detection) : Type 0 where
  pub limit_fits : IsInt64 (s.limit *ℤ d.threshold_percent)
  pub usage_fits : IsInt64 (s.working_set *ℤ pos 100)

exceeds_limit_iff :
    (s : Sample) (d : Detection)
    → Fits s d
    → pos 0 <ℤ s.limit
    → exceeds_limit s d.threshold_percent
      ≡ leb_ℤ (s.limit *ℤ d.threshold_percent) (s.working_set *ℤ pos 100)
unfolding exceeds_limit
exceeds_limit_iff s d f h = ground (
  arith,
  mul64-eq s.limit d.threshold_percent f.limit_fits,
  mul64-eq s.working_set (pos 100) f.usage_fits,
)

-- For a container with a memory limit, and as long as the two int64 products of the test do not
-- overflow: one that exceeds its threshold uses at least the threshold that is reported.
pub threshold_bytes-le_of_exceeds :
    (s : Sample) (d : Detection)
    → Fits s d
    → pos 0 <ℤ s.limit
    → exceeds s d ≡ true
    → threshold_bytes s d ≤ℤ s.working_set
unfolding exceeds threshold_bytes
threshold_bytes-le_of_exceeds s d f h k =
    let limit = s.limit *ℤ d.threshold_percent in
    let fits = mul64-eq s.limit d.threshold_percent f.limit_fits in
    ground (arith, exceeds_limit_iff s d f h, fits, quot_le limit s.working_set)

-- For a container with a memory limit, and as long as the two int64 products of the test do not
-- overflow: one that uses more than the threshold that is reported exceeds it.
pub exceeds_of_threshold_bytes-lt :
    (s : Sample) (d : Detection)
    → Fits s d
    → pos 0 <ℤ s.limit
    → threshold_bytes s d <ℤ s.working_set
    → exceeds s d ≡ true
unfolding exceeds threshold_bytes
exceeds_of_threshold_bytes-lt s d f h k =
    let limit = s.limit *ℤ d.threshold_percent in
    let fits = mul64-eq s.limit d.threshold_percent f.limit_fits in
    ground (arith, exceeds_limit_iff s d f h, fits, lt_quot limit s.working_set)
