-- ===== src/Bus/Messages.antt =====
-- crates/common-msgbus/src/lib.rs: messages and errors.
use lokan_os.Prelude.{ℕ, Option, none, some, List}
use lokan_os.Prelude.Text.{Text}
use lokan_os.Prelude.Result.{Result, err}

pub record BusMessage : Type 0 where
  pub subject : Text
  pub payload : List ℕ
  pub reply : Option Text

pub data MsgBusError : Type 0 where
  connection : Text → MsgBusError
  publish : Text → MsgBusError
  subscribe : Text → MsgBusError
  request : Text → MsgBusError
  request_timeout : ℕ → MsgBusError
  missing_reply_subject : MsgBusError
  unknown_reply_subject : Text → MsgBusError

-- What a bus does with a response: MessageBus::respond.
abbrev Responder : Type 0 → Type 0
Responder Bus = Bus → Text → List ℕ → Bus × Result MsgBusError (Unit {0})

respond_to :
    {Bus : Type 0}
    → Responder Bus
    → Bus
    → Option Text
    → List ℕ
    → Bus × Result MsgBusError (Unit {0})
respond_to answer bus (some reply) payload = answer bus reply payload
respond_to answer bus none payload = (bus, err missing_reply_subject)

-- BusMessage::respond
unfoldable pub respond :
    {Bus : Type 0} → Responder Bus → BusMessage → Bus → List ℕ → Bus × Result MsgBusError (Unit {0})
unfolding respond_to
respond answer message bus payload = respond_to answer bus message.reply payload
