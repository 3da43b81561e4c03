-- ===== src/Datasource/Datadog.antt =====
-- internal/datasource/datadog.go.
use memory_leak_reloader.Base.{
  String, Option, none, some, List, [], ◌∷◌, ◌==◌, string_eq, if◌then◌else◌, ◌||◌, ◌&&◌, not,
}
use memory_leak_reloader.Base.Text.{concat}
use memory_leak_reloader.Base.Time.{back, seconds}
use memory_leak_reloader.Strings.{is_blank, cut_string}
use memory_leak_reloader.Restart.Cluster.{Error, other, wrapped, Result, ok, err}
use memory_leak_reloader.Datasource.{
  Usage, DatadogSeries, DatadogResponse, Web, get_json, is_wanted,
}

pub record Options : Type 0 where
  pub site : String
  pub api_key : String
  pub app_key : String
  pub metric : String

-- newDatadogSource, but for the HTTP client and the clock.
unfoldable pub new_source : Options → Result Options
unfolding is_blank
new_source o =
    if is_blank o.api_key || is_blank o.app_key
    then err (other "datadog source requires DD_API_KEY and DD_APP_KEY")
    else ok (record o {
      site = if is_blank o.site then "datadoghq.com" else o.site;
      metric = if is_blank o.metric then "kubernetes.memory.working_set" else o.metric;
    })

pub record Tags : Type 0 where
  pub namespace : String
  pub pod : String
  pub container : String

abbrev pub no_tags : Tags
no_tags = record { namespace = ""; pod = ""; container = "" }

abbrev pub set_tag : Option (String × String) → Tags → Tags
set_tag none t = t
set_tag (some (k, v)) t =
    if k == "kube_namespace"
    then record t { namespace = v }
    else if k == "pod_name"
    then record t { pod = v }
    else if k == "kube_container_name"
    then record t { container = v }
    else t

-- The loop of tagsFromSet; a later tag of a key replaces an earlier one.
unfoldable pub tags_from : Tags → List String → Tags
unfolding cut_string
tags_from t [] = t
tags_from t (tag ∷ tags) = tags_from (set_tag (cut_string b':' tag) t) tags

unfoldable pub tags_from_set : List String → Tags
unfolding tags_from
tags_from_set tags = tags_from no_tags tags

abbrev pub pair_value : {F : Type 0} → List F → Option F
pair_value [] = none
pair_value (a ∷ []) = none
pair_value (a ∷ b ∷ []) = some b
pair_value (a ∷ b ∷ c ∷ cs) = none

abbrev pub or_before : {F : Type 0} → Option F → Option F → Option F
or_before none earlier = earlier
or_before (some f) earlier = some f

-- lastPoint: the loop runs from the end.
unfoldable pub last_point : {F : Type 0} → List (List F) → Option F
last_point [] = none
last_point (p ∷ ps) = or_before (last_point ps) (pair_value p)

module _ {W F : Type 0} (web : Web W F) where
  abbrev pub succeeded : Result (DatadogResponse F) → Result (DatadogResponse F)
  succeeded (err e) = err e
  succeeded (ok r) =
      if not (r.status == "ok") && not (r.error == "")
      then err (other (concat ("datadog query error: " ∷ r.error ∷ [])))
      else ok r

  abbrev pub query_at : Options → Result String → W → Result (DatadogResponse F) × W
  query_at o (err e) w = (err e, w)
  query_at o (ok url) w =
      let (r, w') =
        get_json web web.decode_datadog url
          (("DD-API-KEY", o.api_key) ∷ ("DD-APPLICATION-KEY", o.app_key) ∷ []) w in
      (succeeded r, w')

  -- queryRange: the last five minutes.
  unfoldable pub query_range : Options → W → Result (DatadogResponse F) × W
  unfolding back
  query_range o w =
      let now = web.now w in
      query_at o
        (web.with_query (concat ("https://api." ∷ o.site ∷ "/api/v1/query" ∷ [])) (
          ("from", web.unix (back now (seconds 300)))
          ∷ ("to", web.unix now)
          ∷ (
            "query",
            concat
                ("avg:" ∷ o.metric ∷ "{*} by {kube_namespace,pod_name,kube_container_name}" ∷ []),
          )
          ∷ []))
        w

  abbrev pub add_usage : Tags → Option F → List Usage → List Usage
  add_usage t none out = out
  add_usage t (some val) out =
      record {
        namespace = t.namespace;
        pod = t.pod;
        container = t.container;
        working_set = web.to_int64 val;
      }
      ∷ out

  -- The loop of ListUsage over the series.
  unfoldable pub usages : List String → List (DatadogSeries F) → List Usage
  unfolding tags_from_set is_wanted last_point
  usages want [] = []
  usages want (s ∷ ss) =
      let rest = usages want ss in
      let t = tags_from_set s.tag_set in
      if (t.container == "") || (t.pod == "")
      then rest
      else if not (is_wanted want t.namespace)
      then rest
      else add_usage t (last_point s.point_list) rest

  abbrev pub listed : List String → Result (DatadogResponse F) → Result (List Usage)
  listed want (err e) = err e
  listed want (ok r) = ok (usages want r.series)

  unfoldable pub list_usage : Options → List String → W → Result (List Usage) × W
  list_usage o want w = let (r, w') = query_range o w in (listed want r, w')

  abbrev pub probed : Options → Result (DatadogResponse F) → Option Error
  probed o (ok r) = none
  probed o (err e) = some (wrapped (concat ("datadog probe failed for site " ∷ o.site ∷ [])) e)

  unfoldable pub probe : Options → W → Option Error × W
  probe o w = let (r, w') = query_range o w in (probed o r, w')
