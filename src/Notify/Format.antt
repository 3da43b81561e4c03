-- ===== src/Notify/Format.antt =====
-- The texts of an event: Title and Body (internal/notify/notify.go), and the helpers of
-- internal/notify/slack_blocks.go. fmt's formats, Duration.String, the RFC 3339 format, floats and the
-- chart library are parameters.
pub mod Units
use memory_leak_reloader.Base.{
  ℕ, zero, suc, ◌+◌, ◌/◌, String, Bool, true, false, Option, none, some, List, [], ◌∷◌, ◌==◌,
  string_eq, if◌then◌else◌, leb, ltb,
}
use memory_leak_reloader.Base.Int.{ℤ, pos, negsuc, leb_ℤ}
use memory_leak_reloader.Base.Word.{mul64}
use memory_leak_reloader.Base.Text.{concat}
use memory_leak_reloader.Base.Time.{Time, Duration, is_zero}
use memory_leak_reloader.Strings.{cut_suffix}
use memory_leak_reloader.Notify.{Event}

-- asciigraph.Plot's data and options; `axis` is the text of a value on the axis.
pub record Plot : Type 0 where
  pub points : List ℤ
  pub height : ℕ
  pub width : Option ℕ
  pub caption : String
  pub axis : ℤ → String

pub record Format : Type 0 where
  pub decimal : ℤ → String  -- %d
  pub quoted : String → String  -- %q
  pub ratio : ℤ → ℤ → String  -- %.1f of the quotient, as floats
  pub duration : Duration → String
  pub to_second : Duration → Duration  -- Round(time.Second)
  pub rfc3339 : Time → String  -- of the time in UTC
  pub plot : Plot → String

-- The loop of humanizeBytes over `x`, with the divisor and the exponent; each round divides, so that
-- an int64 has fewer rounds than its bits.
pub record Scale : Type 0 where
  pub divisor : ℤ
  pub exponent : ℕ

unfoldable pub scale_from : ℕ → ℕ → ℤ → ℕ → Scale
unfolding mul64
scale_from zero x div exp = record { divisor = div; exponent = exp }
scale_from (suc rounds) x div exp =
    let rest = scale_from rounds (x / 1024) (mul64 div (pos 1024)) (exp + 1) in
    if leb 1024 x then rest else record { divisor = div; exponent = exp }

unfoldable pub scale : ℕ → Scale
unfolding scale_from
scale n = scale_from 63 (n / 1024) (pos 1024) 0

-- "KMGTPE"[exp]; Go panics at an index from 6 on.
abbrev pub unit_at : ℕ → List String → String
unit_at n [] = ""
unit_at zero (u ∷ us) = u
unit_at (suc n) (u ∷ us) = unit_at n us

abbrev pub units : List String
units = "K" ∷ "M" ∷ "G" ∷ "T" ∷ "P" ∷ "E" ∷ []

module _ (f : Format) where
  abbrev pub scaled : ℕ → Scale → String
  scaled n s =
      concat (cut_suffix ".0" (f.ratio (pos n) s.divisor) ∷ unit_at s.exponent units ∷ "i" ∷ [])

  unfoldable pub humanize_bytes : ℤ → String
  unfolding scale cut_suffix
  humanize_bytes (negsuc n) = concat (f.decimal (negsuc n) ∷ "B" ∷ [])
  humanize_bytes (pos n) =
      if ltb n 1024 then concat (f.decimal (pos n) ∷ "B" ∷ []) else scaled n (scale n)

  unfoldable pub threshold_text : ℤ → String
  unfolding humanize_bytes
  threshold_text t = if leb_ℤ t (pos 0) then "—" else humanize_bytes t

  unfoldable pub window_text : Duration → String
  window_text d = if leb_ℤ d (pos 0) then "—" else f.duration d

  -- The time of an event, unless it is the zero Time.
  abbrev pub time_text : Time → String
  time_text t = if is_zero t then "" else f.rfc3339 t

  unfoldable pub title : Event → String
  title e = concat (
      (if e.dry_run then "[dry-run] would restart: " else "")
      ∷ e.type
      ∷ " "
      ∷ e.namespace
      ∷ "/"
      ∷ e.workload
      ∷ " ("
      ∷ e.kind
      ∷ ")"
      ∷ (if e.cluster_name == "" then "" else concat (" [" ∷ e.cluster_name ∷ "]" ∷ []))
      ∷ [])

  unfoldable pub body : Event → String
  body e = concat (
      "container="
      ∷ e.container
      ∷ " mode="
      ∷ e.mode
      ∷ " observed="
      ∷ f.decimal e.observed
      ∷ " threshold="
      ∷ f.decimal e.threshold
      ∷ " reason="
      ∷ f.quoted e.reason
      ∷ [])

unfoldable pub or_dash : String → String
or_dash s = if s == "" then "—" else s
