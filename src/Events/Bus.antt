-- ===== src/Events/Bus.antt =====
-- internal/platform/nats/bus.go: what the bus does with a message after its handler, which messages
-- it hands to the dead-letter stream, and the headers of a published message. The calls of the
-- message broker are values: a `Settlement` is how the message is answered, and a `DeadLetter` the
-- message that is published beside. The text of an error is the argument `describe`.
use nornickel_hackathon.Prelude.{
  ℕ, ◌<◌, String, Bool, true, ◌||◌, Option, none, some, List, [], ◌∷◌, leb, ◌≡◌, ◌≢◌, refl, arith,
  ◌==◌, if◌then◌else◌, lookup, insert, Assoc, Result, ok, err, lookup-insert, ◌⊎◌,
}
use Prim.Native.String.{◌++◌}
use nornickel_hackathon.Events.{Envelope, EventError, unmarshal_envelope, dlq, is_dlq}

pub data AckAction : Type 0 where
  ack nack term : AckAction

pub data Settlement : Type 0 where
  acked naked terminated : Settlement

pub record Message : Type 0 where
  pub envelope : Envelope
  pub nats_msg_id : String
  pub trace_parent : String
  pub delivered : ℕ

-- The broker's message; `deliveries` is none where its metadata cannot be read.
pub record NatsMsg : Type 0 where
  pub subject : String
  pub body : List ℕ
  pub msg_id : String
  pub trace_parent : String
  pub deliveries : Option ℕ

pub record DeadLetter : Type 0 where
  pub subject : String
  pub body : List ℕ
  pub reason : String
  pub origin : String

-- The message that `deadLetter` makes; `strings.TrimPrefix` is the argument `trim_prefix`.
abbrev pub letter_of : (String → String → String) → NatsMsg → String → DeadLetter
letter_of trim_prefix msg reason = record {
  subject = dlq (trim_prefix msg.subject "kmap.");
  body = msg.body;
  reason = reason;
  origin = msg.subject;
}

-- The message that reaches the dead-letter stream, if any; whether `PublishMsg` succeeds is the
-- argument `publishes`, and its error is ignored.
unfoldable pub dead_letter :
    (String → String → String) → (DeadLetter → Bool) → NatsMsg → String → Option DeadLetter
dead_letter trim_prefix publishes msg reason =
    if is_dlq msg.subject
    then none
    else if publishes (letter_of trim_prefix msg reason)
    then some (letter_of trim_prefix msg reason)
    else none

unfoldable pub delivered_of : Option ℕ → ℕ
delivered_of none = 0
delivered_of (some n) = n

unfoldable pub settle :
    (String → String → String)
    → (DeadLetter → Bool)
    → ℕ
    → NatsMsg
    → ℕ
    → AckAction
    → Settlement × Option DeadLetter
settle trim_prefix publishes max_deliver msg delivered ack = (acked, none)
settle trim_prefix publishes max_deliver msg delivered nack =
    if leb max_deliver delivered
    then (terminated, dead_letter trim_prefix publishes msg "max deliveries exceeded")
    else (naked, none)
settle trim_prefix publishes max_deliver msg delivered term =
    (terminated, dead_letter trim_prefix publishes msg "terminated by handler")

module _ (encode : Envelope → List ℕ) (decode : List ℕ → Option Envelope)
    (trim_prefix : String → String → String) (publishes : DeadLetter → Bool)
    (describe : EventError → String) where
  unfoldable pub handle_decoded :
      ℕ
      → (Message → AckAction)
      → NatsMsg
      → Result EventError Envelope
      → Settlement × Option DeadLetter
  unfolding settle delivered_of
  handle_decoded max_deliver handler msg (err e) =
      (terminated, dead_letter trim_prefix publishes msg ("decode: " ++ describe e))
  handle_decoded max_deliver handler msg (ok env) =
      settle trim_prefix publishes max_deliver msg (delivered_of msg.deliveries) (
        handler (record {
          envelope = env;
          nats_msg_id = msg.msg_id;
          trace_parent = msg.trace_parent;
          delivered = delivered_of msg.deliveries;
        }))

  unfoldable pub handle : ℕ → (Message → AckAction) → NatsMsg → Settlement × Option DeadLetter
  unfolding handle_decoded
  handle max_deliver handler msg =
      handle_decoded max_deliver handler msg (unmarshal_envelope encode decode msg.body)

  -- A letter with the text and the origin of the message was given to the dead-letter subject of
  -- the message, and is what the stream has just where the broker took it.
  abbrev pub Tried : NatsMsg → Option DeadLetter → Type 0
  Tried msg o =
      (d : DeadLetter) × (d.subject ≡ dlq (trim_prefix msg.subject "kmap."))
      × (d.body ≡ msg.body)
      × (d.origin ≡ msg.subject)
      × (o ≡ (if publishes d then some d else none))

  abbrev Kept : ℕ → NatsMsg → Settlement × Option DeadLetter → Type 0
  Kept max_deliver msg r =
      (r.0 ≡ terminated → (is_dlq msg.subject ≡ true) ⊎ Tried msg r.1)
      × (r.0 ≡ naked → delivered_of msg.deliveries < max_deliver)
      × (r.0 ≢ terminated → r.1 ≡ none)

abbrev pub msg_id_hdr : String
msg_id_hdr = "Nats-Msg-Id"

-- The loop of `PublishWithHeaders` over the headers, on the header that has the identifier.
unfoldable pub copy_headers : Assoc String → Assoc String → Assoc String
copy_headers out [] = out
copy_headers out ((key, value) ∷ headers) =
    copy_headers
      (if key == "" || value == "" || key == msg_id_hdr then out else insert key value out) headers

unfoldable pub publish_headers : Envelope → Assoc String → Assoc String
unfolding copy_headers
publish_headers env headers = copy_headers (insert msg_id_hdr env.id []) headers

copy_keeps_id :
    (out headers : Assoc String) (id : String)
    → lookup msg_id_hdr out ≡ some id
    → lookup msg_id_hdr (copy_headers out headers) ≡ some id
unfolding copy_headers
copy_keeps_id out [] id h = h
copy_keeps_id out ((key, value) ∷ headers) id h =
    copy_keeps_id
      (if key == "" || value == "" || key == msg_id_hdr then out else insert key value out) headers
      id (ground (arith, lookup-insert key msg_id_hdr value out))

-- Whatever headers a record has, the message that is published has the identifier of its envelope,
-- by which the broker drops repeated messages.
pub publish_headers-id :
    (env : Envelope) (headers : Assoc String)
    → lookup msg_id_hdr (publish_headers env headers) ≡ some env.id
unfolding publish_headers
publish_headers-id env headers = copy_keeps_id (insert msg_id_hdr env.id []) headers env.id refl
