-- ===== src/Signals/Channels.antt =====
-- apps/signals/channels. The HTTP client is a parameter: what became of a POST.
use Prim.Native.String.{◌++◌ as text_append}
use cryptovira.Prelude.{ℕ, String, ◌≢◌, Option, none, some, List, [], ◌∷◌}
use cryptovira.Exec.{Result, ok, err, channel_delivery_error, other_error, retry}
use cryptovira.Signals.Models.{Channel, telegram, webhook}

-- A POST was answered with a success, or raised an `httpx.HTTPError` with that text, a status that
-- is no success included, or raised something else, as `httpx.InvalidURL`.
pub data Outcome : Type 0 where
  accepted : Outcome
  http_failed : String → Outcome
  raised : String → Outcome

-- a POST: the URL and the JSON object of its body
abbrev pub Post : Type 0
Post = String → List (String × String) → Outcome

-- `except httpx.HTTPError as exc: raise ChannelDeliveryError(str(exc))`
as_delivery : Outcome → Result (Unit {0})
as_delivery accepted = ok tt
as_delivery (http_failed text) = err (channel_delivery_error text)
as_delivery (raised text) = err (other_error text)

-- `TelegramChannel.send`, with the token of the settings
telegram_send : Option String → Post → String → String → Result (Unit {0})
unfolding as_delivery
telegram_send none post destination message =
    err (channel_delivery_error "TELEGRAM_BOT_TOKEN is not configured.")
telegram_send (some token) post destination message = as_delivery (
    post (text_append "/bot" (text_append token "/sendMessage"))
      (("chat_id", destination) ∷ ("text", message) ∷ []))

-- `WebhookChannel.send`
webhook_send : Post → String → String → Result (Unit {0})
unfolding as_delivery
webhook_send post destination message = as_delivery (post destination (("message", message) ∷ []))

-- `get_channel(channel).send(destination=..., message=...)`
unfoldable pub send : Option String → Post → Channel → String → String → Result (Unit {0})
unfolding telegram_send webhook_send
send token post telegram = telegram_send token post
send token post webhook = webhook_send post

as_delivery-ne-retry : (o : Outcome) (c : ℕ) → as_delivery o ≢ err (retry c)
unfolding as_delivery
as_delivery-ne-retry accepted c h = cc
as_delivery-ne-retry (http_failed text) c h = cc
as_delivery-ne-retry (raised text) c h = cc

-- A channel raises no error of the task queue.
pub send-ne-retry :
    (token : Option String) (post : Post) (channel : Channel) (destination message : String) (c : ℕ)
    → send token post channel destination message ≢ err (retry c)
unfolding send
send-ne-retry none post telegram destination message c h = cc
send-ne-retry (some t) post telegram destination message c h = as_delivery-ne-retry _ c h
send-ne-retry token post webhook destination message c h = as_delivery-ne-retry _ c h
