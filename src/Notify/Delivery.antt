-- ===== src/Notify/Delivery.antt =====
-- Notifier.Notify (internal/notify/notify.go): the event goes to each of its sinks in turn, and what came of
-- each send is counted.
use memory_leak_reloader.Base.{
  String, Option, none, some, List, [], ◌∷◌, ◌≡◌, refl, if◌then◌else◌, string_eq,
}
use memory_leak_reloader.Base.Map.{lookup}
use memory_leak_reloader.Base.Time.{Duration}
use memory_leak_reloader.Restart.Cluster.{Error, Result}
use memory_leak_reloader.Notify.{Event, Sink, Notifier, is_enabled, deliveries, resolve_targets}
use memory_leak_reloader.Notify.Format.{Format}
use memory_leak_reloader.Notify.Sinks.{
  Post, PostResponse, sink_name, send, Delivered, send-Delivered,
}

-- An increment of the metric Notifications, by its sink and its result.
pub record Count : Type 0 where
  pub sink : String
  pub result : String

abbrev pub result_label : Option Error → String
result_label none = "success"
result_label (some e) = "error"

-- A post under the timeout of a delivery.
module _ {W : Type 0} (f : Format) (do_post : Duration → Post → W → Result PostResponse × W) where
  -- The loop of Notify.
  unfoldable pub send_all : Duration → List Sink → Event → W → List Count × W
  unfolding send
  send_all timeout [] e w = ([], w)
  send_all timeout (s ∷ ss) e w =
      let (r, w') = send f (do_post timeout) s e w in
      let (counts, w'') = send_all timeout ss e w' in
      (record { sink = sink_name s; result = result_label r } ∷ counts, w'')

  unfoldable pub notify : Notifier → Event → W → List Count × W
  unfolding send_all deliveries
  notify n e w = send_all n.timeout (deliveries n e) e w

  -- What came of one send: a delivery, or an error.
  pub data Sent (timeout : Duration) (s : Sink) (e : Event) (w : W) : String → Type 0 where
    succeeded : Delivered f (do_post timeout) s e w → Sent timeout s e w "success"
    erred : (x : Error) → (send f (do_post timeout) s e w).0 ≡ some x → Sent timeout s e w "error"

  -- One send to each sink, in order, each from the state that the one before left.
  pub data Fanout (timeout : Duration) (e : Event) : List Sink → W → List Count → W → Type 0 where
    finished : (w : W) → Fanout timeout e [] w [] w
    sent :
        (s : Sink) (ss : List Sink) (w w' w'' : W) (label : String) (counts : List Count)
        → Sent timeout s e w label
        → (send f (do_post timeout) s e w).1 ≡ w'
        → Fanout timeout e ss w' counts w''
        → Fanout timeout e (s ∷ ss) w (record { sink = sink_name s; result = label } ∷ counts) w''

  label-Sent :
      (timeout : Duration) (s : Sink) (e : Event) (w : W) (r : Option Error)
      → (send f (do_post timeout) s e w).0 ≡ r
      → Sent timeout s e w (result_label r)
  label-Sent timeout s e w none h = succeeded (send-Delivered f (do_post timeout) s e w h)
  label-Sent timeout s e w (some x) h = erred x h

  send_all-Fanout :
      (timeout : Duration) (ss : List Sink) (e : Event) (w : W)
      → Fanout timeout e ss w (send_all timeout ss e w).0 (send_all timeout ss e w).1
  unfolding send_all
  send_all-Fanout timeout [] e w = finished w
  send_all-Fanout timeout (s ∷ ss) e w =
      let r = send f (do_post timeout) s e w in
      sent s ss w r.1 _ (result_label r.0) _ (label-Sent timeout s e w r.0 refl) refl
        (send_all-Fanout timeout ss e r.1)

  -- An enabled event is sent once to each of its targets, in order, whatever came of the sends
  -- before, and each send is counted under its sink's name: as a success only if the sink's own
  -- request was answered well, as an error only if the send reported one. An event of another type
  -- is sent to none.
  pub notify-Fanout :
      (n : Notifier) (e : Event) (w : W)
      → Fanout n.timeout e
          (if is_enabled (lookup e.type n.enabled) then resolve_targets n e else [])
          w
          (notify n e w).0
          (notify n e w).1
  unfolding notify deliveries
  notify-Fanout n e w = send_all-Fanout n.timeout _ e w
