-- ===== src/Notify/Slack.antt =====
-- internal/notify/slack_blocks.go and chart.go: the blocks of a Slack message.
use memory_leak_reloader.Base.{
  String, none, some, List, [], ◌∷◌, ◌++◌, ◌==◌, string_eq, if◌then◌else◌, ltb, length, map,
}
use memory_leak_reloader.Base.Int.{ℤ}
use memory_leak_reloader.Base.Text.{concat}
use memory_leak_reloader.Base.Time.{Time, is_zero, since}
use memory_leak_reloader.Notify.{
  Event, SamplePoint, event_restart_triggered, event_circuit_breaker_tripped,
  event_restart_deferred,
}
use memory_leak_reloader.Notify.Format.{
  Format, Plot, humanize_bytes, threshold_text, window_text, or_dash, title, body,
}

-- The blocks that a message has, with their texts.
pub data Block : Type 0 where
  header section context : String → Block
  fields : List String → Block
  divider : Block

-- emoji and verb.
unfoldable pub slack_header : Event → String × String
slack_header e =
    if e.type == event_restart_triggered
    then (if e.dry_run then (":mag:", "Would restart") else (":recycle:", "Restart triggered"))
    else if e.type == event_circuit_breaker_tripped
    then (":no_entry:", "Circuit breaker tripped")
    else if e.type == event_restart_deferred
    then (":hourglass_flowing_sand:", "Restart deferred")
    else (":bell:", e.type)

abbrev pub summary_head : Event → String
summary_head e =
    if e.cluster_name == ""
    then concat ("*" ∷ e.workload ∷ "* in *" ∷ e.namespace ∷ "*  ·  " ∷ e.kind ∷ [])
    else concat (
        "*" ∷ e.workload ∷ "* in *" ∷ e.namespace ∷ "* on *" ∷ e.cluster_name ∷ "*  ·  " ∷ e.kind
        ∷ [])

abbrev pub summary_line : Event → String
summary_line e =
    if e.type == event_restart_deferred
    then concat (
        "container *" ∷ e.container
        ∷ "* is leaking; restart deferred to the next maintenance window" ∷ [])
    else if e.type == event_circuit_breaker_tripped
    then concat
        ("container *" ∷ e.container ∷ "* keeps leaking; max restarts per window reached" ∷ [])
    else concat ("container *" ∷ e.container ∷ "* crossed its memory threshold" ∷ [])

unfoldable pub slack_summary : Event → String
slack_summary e = concat (summary_head e ∷ "\n" ∷ summary_line e ∷ [])

-- strings.Join(parts, "  ·  ").
unfoldable pub join_dots : List String → String
join_dots [] = ""
join_dots (s ∷ []) = s
join_dots (s ∷ t ∷ ss) = concat (s ∷ "  ·  " ∷ join_dots (t ∷ ss) ∷ [])

abbrev pub mrkdwn_field : String → String → String
mrkdwn_field label value = concat ("*" ∷ label ∷ "*\n" ∷ value ∷ [])

abbrev pub last_time : Time → List SamplePoint → Time
last_time t [] = t
last_time t (p ∷ ps) = last_time p.time ps

module _ (f : Format) where
  unfoldable pub slack_context : Event → String
  unfolding join_dots
  slack_context e = join_dots (
      (if e.reason == "" then [] else e.reason ∷ [])
      ++ "memory-leak-reloader" ∷ (if is_zero e.time then [] else f.rfc3339 e.time ∷ []))

  abbrev pub chart_of : SamplePoint → List SamplePoint → ℤ → Plot
  chart_of p ps threshold = record {
    points = map (λ (q : SamplePoint). q.bytes) (p ∷ ps);
    height = 8;
    width = if ltb 60 (length (p ∷ ps)) then some 60 else none;
    caption = concat (
        "working set over "
        ∷ f.duration (f.to_second (since (last_time p.time ps) p.time))
        ∷ " · threshold "
        ∷ threshold_text f threshold
        ∷ []);
    axis = humanize_bytes f;
  }

  unfoldable pub render_chart : List SamplePoint → ℤ → String
  unfolding since threshold_text humanize_bytes
  render_chart [] threshold = ""
  render_chart (p ∷ []) threshold = ""
  render_chart (p ∷ q ∷ ps) threshold = f.plot (chart_of p (q ∷ ps) threshold)

  abbrev pub chart_block : String → List Block
  chart_block chart =
      if chart == "" then [] else section (concat ("```\n" ∷ chart ∷ "\n```" ∷ [])) ∷ []

  -- The blocks, and the text that stands for them.
  unfoldable pub build_slack_blocks : Event → List Block × String
  unfolding slack_header slack_summary slack_context render_chart window_text or_dash title body
  build_slack_blocks e =
      let (emoji, verb) = slack_header e in
      (
        header (concat (emoji ∷ " " ∷ verb ∷ []))
            ∷ section (slack_summary e)
            ∷ fields (
                mrkdwn_field "Observed" (humanize_bytes f e.observed)
                ∷ mrkdwn_field "Threshold" (threshold_text f e.threshold)
                ∷ mrkdwn_field "Mode" (or_dash e.mode)
                ∷ mrkdwn_field "Window" (window_text f e.window)
                ∷ [])
            ∷ (chart_block (render_chart e.samples e.threshold)
                ++ context (slack_context e) ∷ divider ∷ []),
        concat (title f e ∷ " — " ∷ body f e ∷ []),
      )
