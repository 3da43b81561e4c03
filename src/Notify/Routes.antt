-- ===== src/Notify/Routes.antt =====
-- internal/notify/routes.go: the registry of named notification routes. The URL parser, the file
-- system and the JSON decoder are parameters.
use memory_leak_reloader.Base.{
  String, Option, none, some, List, [], ◌∷◌, ◌==◌, string_eq, if◌then◌else◌, ◌||◌,
}
use memory_leak_reloader.Base.Map.{Map, has, insert}
use memory_leak_reloader.Strings.{Text, codes, text_beq, to_lower, trim_space}
use memory_leak_reloader.Restart.Cluster.{Error, Result, ok, err}
use memory_leak_reloader.Notify.{Sink, slack_webhook, webhook}

pub record Route : Type 0 where
  pub name : String
  pub type : String
  pub url : String
  pub auth_header : String

pub data RouteError : Type 0 where
  empty_name : RouteError
  duplicate_name : String → RouteError
  unknown_type : String → String → RouteError
  unreadable bad_file : Error → RouteError

pub data Built : Type 0 where
  built : Map String Sink → Built
  refused : RouteError → Built

abbrev pub host_type : Option String → Text
host_type none = codes "webhook"
host_type (some host) =
    if text_beq (to_lower (codes host)) (codes "hooks.slack.com")
    then codes "slack-webhook"
    else codes "webhook"

abbrev pub sink_of_type : Text → Route → Option Sink
sink_of_type t r =
    if text_beq t (codes "webhook")
    then some (webhook r.url r.auth_header)
    else if text_beq t (codes "slack-webhook") || text_beq t (codes "slack")
    then some (slack_webhook r.url)
    else none

-- `hostname` is url.Parse with URL.Hostname; `none` for a URL that it refuses.
module _ (hostname : String → Option String) where
  unfoldable pub detect_type : String → Text
  unfolding to_lower
  detect_type url = host_type (hostname url)

  unfoldable pub route_type : Route → Text
  unfolding detect_type to_lower trim_space
  route_type r =
      let t = to_lower (trim_space (codes r.type)) in
      if text_beq t [] || text_beq t (codes "auto") then detect_type r.url else t

  -- The sink of a route, unless its type is unknown.
  unfoldable pub route_sink : Route → Option Sink
  unfolding route_type
  route_sink r = sink_of_type (route_type r) r

  abbrev pub add_route : Option Sink → Route → Map String Sink → (Map String Sink → Built) → Built
  add_route none r m next = refused (unknown_type r.name r.type)
  add_route (some s) r m next = next (insert r.name s m)

  -- The loop of BuildRoutes.
  unfoldable pub build_from : List Route → Map String Sink → Built
  unfolding route_sink has insert
  build_from [] m = built m
  build_from (r ∷ rs) m =
      let added = add_route (route_sink r) r m (build_from rs) in
      if r.name == ""
      then refused empty_name
      else if has r.name m
      then refused (duplicate_name r.name)
      else added

  unfoldable pub build_routes : List Route → Built
  unfolding build_from
  build_routes rs = build_from rs []

-- os.ReadFile.
pub data File : Type 0 where
  missing : File
  not_read : Error → File
  contents : String → File

module _ (hostname : String → Option String) (unmarshal : String → Result (List Route)) where
  abbrev pub of_unmarshal : Result (List Route) → Built
  of_unmarshal (err e) = refused (bad_file e)
  of_unmarshal (ok rs) = build_routes hostname rs

  unfoldable pub load_routes : File → Built
  unfolding build_routes
  load_routes missing = built []
  load_routes (not_read e) = refused (unreadable e)
  load_routes (contents text) = if text == "" then built [] else of_unmarshal (unmarshal text)
