-- ===== src/Notify/Sinks.antt =====
-- internal/notify/sinks.go: what each sink posts and what it makes of the answer. Marshalling, the
-- HTTP client and the decoder of an answer are parameters. An error's text is cut short.
use memory_leak_reloader.Base.{
  ℕ, String, Bool, true, Option, none, some, List, [], ◌∷◌, ◌≡◌, refl, ◌==◌, string_eq,
  if◌then◌else◌, arith, leb, ◌<◌, Bool-cases, inl, inr,
}
use memory_leak_reloader.Base.Text.{concat}
use memory_leak_reloader.Restart.Cluster.{Error, other, Result, ok, err}
use memory_leak_reloader.Notify.{
  Event, Sink, slack_webhook, slack_bot, webhook, datadog, is_slack_bot,
}
use memory_leak_reloader.Notify.Format.{Format}
use memory_leak_reloader.Notify.Slack.{build_slack_blocks}
use memory_leak_reloader.Notify.Payload.{
  Payload, slack_payload, webhook_payload, datadog_payload, webhook_payload_for, datadog_event,
}

pub record Post : Type 0 where
  pub url : String
  pub headers : List (String × String)
  pub body : Payload

pub record SlackReply : Type 0 where
  pub is_ok : Bool
  pub error : String

-- An answer, with its body decoded as a Slack reply.
pub record PostResponse : Type 0 where
  pub status : ℕ
  pub reply : Result SlackReply

abbrev pub sink_name : Sink → String
sink_name (slack_webhook url) = "slack"
sink_name (slack_bot token channel) = "slack"
sink_name (webhook url auth) = "webhook"
sink_name (datadog site key) = "datadog"

abbrev pub or_default : String → String → String
or_default s d = if s == "" then d else s

abbrev pub content_type : String × String
content_type = ("Content-Type", "application/json")

module _ (f : Format) where
  abbrev pub bot_post : String → String → Event → Option Post
  bot_post token channel e =
      if channel == ""
      then none
      else some (record {
        url = "https://slack.com/api/chat.postMessage";
        headers = content_type ∷ ("Authorization", concat ("Bearer " ∷ token ∷ [])) ∷ [];
        body = slack_payload (some channel) (build_slack_blocks f e);
      })

  abbrev pub slack_post : String → Event → Post
  slack_post url e = record {
    url = url;
    headers = content_type ∷ [];
    body = slack_payload none (build_slack_blocks f e);
  }

  abbrev pub webhook_post : String → String → Event → Post
  webhook_post url auth e = record {
    url = url;
    headers = content_type ∷ (if auth == "" then [] else ("Authorization", auth) ∷ []);
    body = webhook_payload (webhook_payload_for f e);
  }

  unfoldable pub datadog_post : String → String → Event → Post
  unfolding datadog_event
  datadog_post site key e = record {
    url = concat ("https://api." ∷ or_default site "datadoghq.com" ∷ "/api/v1/events" ∷ []);
    headers = content_type ∷ ("DD-API-KEY", key) ∷ [];
    body = datadog_payload (datadog_event f e);
  }

  -- The request of Send; none without a channel.
  unfoldable pub post_of : Sink → Event → Option Post
  unfolding datadog_post webhook_payload_for build_slack_blocks
  post_of (slack_webhook url) e = some (slack_post url e)
  post_of (slack_bot token channel) e = bot_post token (or_default e.slack_channel channel) e
  post_of (webhook url auth) e = some (webhook_post url auth e)
  post_of (datadog site key) e = some (datadog_post site key e)

abbrev pub judge_reply : Result SlackReply → Option Error
judge_reply (err e) = some e
judge_reply (ok r) =
    if r.is_ok
    then none
    else some (other (concat ("slack chat.postMessage error: " ∷ r.error ∷ [])))

-- postJSON, and slackBotPost, which looks into the answer.
unfoldable pub judge_response : Bool → Result PostResponse → Option Error
judge_response bot (err e) = some e
judge_response bot (ok r) =
    if leb 300 r.status
    then some (other "HTTP status")
    else if bot
    then judge_reply r.reply
    else none

module _ {W : Type 0} (f : Format) (do_post : Post → W → Result PostResponse × W) where
  abbrev pub send_post : Bool → Option Post → W → Option Error × W
  send_post bot none w = (some (other "no channel"), w)
  send_post bot (some p) w = let (r, w') = do_post p w in (judge_response bot r, w')

  -- Send.
  unfoldable pub send : Sink → Event → W → Option Error × W
  unfolding post_of judge_response
  send s e w = send_post (is_slack_bot s) (post_of f s e) w

  -- A reply that ends a delivery well.
  pub record Accepted (bot : Bool) (r : PostResponse) : Type 0 where
    pub status : r.status < 300
    pub reply : bot ≡ true → (a : SlackReply) × (r.reply ≡ ok a) × (a.is_ok ≡ true)

  -- A post of the sink that was answered well.
  pub record Delivered (s : Sink) (e : Event) (w : W) : Type 0 where
    pub post : Post
    pub response : PostResponse
    pub after : W
    pub its_own : post_of f s e ≡ some post
    pub sent : do_post post w ≡ (ok response, after)
    pub accepted : Accepted (is_slack_bot s) response

  judge_reply-ok :
      (r : Result SlackReply)
      → judge_reply r ≡ none
      → (a : SlackReply) × (r ≡ ok a) × (a.is_ok ≡ true)
  judge_reply-ok (err e) h = absurd (cc h)
  judge_reply-ok (ok a) h = (a, refl, ground arith)

  judge_response-Accepted :
      (bot : Bool) (r : PostResponse) → judge_response bot (ok r) ≡ none → Accepted bot r
  unfolding judge_response
  judge_response-Accepted bot r h = elim (Bool-cases (leb 300 r.status)) [
    | inl failed ↦ absurd (cc (rw failed at h))
    | inr fine ↦ record {
      status = ground arith;
      reply = λ b. judge_reply-ok r.reply (rw (fine, b) at h);
    }
  ]

  sent-Delivered :
      (s : Sink) (e : Event) (w : W) (o : Option Post)
      → post_of f s e ≡ o
      → (send_post (is_slack_bot s) o w).0 ≡ none
      → Delivered s e w
  unfolding judge_response
  sent-Delivered s e w none own h = absurd (cc h)
  sent-Delivered s e w (some p) own h = answered (do_post p w).0 (do_post p w).1 refl h
    where
      answered :
          (r : Result PostResponse) (w' : W)
          → do_post p w ≡ (r, w')
          → judge_response (is_slack_bot s) r ≡ none
          → Delivered s e w
      answered (err x) w' sent k = absurd (cc k)
      answered (ok r) w' sent k = record {
        post = p;
        response = r;
        after = w';
        its_own = own;
        sent = sent;
        accepted = judge_response-Accepted (is_slack_bot s) r k;
      }

  -- A send that reports no error has made the sink's own request for the event, which was answered
  -- with a status below 300 and, by Slack's bot API, with an ok in the body.
  pub send-Delivered : (s : Sink) (e : Event) (w : W) → (send s e w).0 ≡ none → Delivered s e w
  unfolding send
  send-Delivered s e w h = sent-Delivered s e w (post_of f s e) refl h
