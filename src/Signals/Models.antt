-- ===== src/Signals/Models.antt =====
-- apps/signals/models.py. Foreign keys are primary keys of the rows that they name.
use cryptovira.Prelude.{
  ℕ, String, ◌≡◌, Bool, true, false, ◌&&◌, Option, none, some, ◌==◌, str_eq, if◌then◌else◌, arith,
}

pub record Signal : Type 0 where
  pub evaluation : ℕ

-- the unique index of the one-to-one field
abbrev pub same_evaluation : Signal → Signal → Bool
same_evaluation a b = a.evaluation == b.evaluation

pub data Channel : Type 0 where
  telegram webhook : Channel

-- `Channel(text)`; `none` stands for `ValueError`
unfoldable pub channel_of : String → Option Channel
channel_of s =
    if str_eq s "telegram" then some telegram else if str_eq s "webhook" then some webhook else none

pub record NotificationRecipient : Type 0 where
  pub user : ℕ
  pub channel : String
  pub destination : String
  pub is_active : Bool

-- `unique_recipient_per_user_channel`
abbrev pub same_channel : NotificationRecipient → NotificationRecipient → Bool
same_channel a b = a.user == b.user && str_eq a.channel b.channel

pub data DeliveryStatus : Type 0 where
  pending sent failed : DeliveryStatus

-- `status == DeliveryStatus.SENT`, `status=DeliveryStatus.PENDING`
abbrev pub is_sent : DeliveryStatus → Bool
is_sent sent = true
is_sent _ = false

abbrev pub is_pending : DeliveryStatus → Bool
is_pending pending = true
is_pending _ = false

-- `attempts` has no bound here; in the database a write of more than 32767 attempts of one delivery
-- would raise.
pub record NotificationDelivery : Type 0 where
  pub signal : ℕ
  pub recipient : ℕ
  pub status : DeliveryStatus
  pub attempts : ℕ
  pub last_error : String

-- a row as `NotificationDelivery(signal=..., recipient=...)` makes it, with the fields' defaults
abbrev pub new_delivery : ℕ → ℕ → NotificationDelivery
new_delivery signal recipient = record {
  signal = signal;
  recipient = recipient;
  status = pending;
  attempts = 0;
  last_error = "";
}

-- `unique_delivery_per_signal_recipient`
abbrev pub same_delivery : NotificationDelivery → NotificationDelivery → Bool
same_delivery a b = a.signal == b.signal && a.recipient == b.recipient

pub same_delivery_refl : (a : NotificationDelivery) → same_delivery a a ≡ true
same_delivery_refl a = ground arith
