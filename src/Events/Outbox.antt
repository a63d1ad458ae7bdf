-- ===== src/Events/Outbox.antt =====
-- The outbox table's rows (app/core/events/models.py).
use apsis.Prelude.{Instant, Uuid, ℕ, ℤ, Str, Dict, Option}

-- The strings "PENDING", "PROCESSED" and "FAILED" that the `status` column takes.
pub data Status : Type 0 where
  pending processed failed : Status

-- The strings "ok" and "failed" of an entry of `handler_state`.
pub data EntryStatus : Type 0 where
  ok_entry failed_entry : EntryStatus

-- An entry of the JSON column `handler_state`; `error` is present only for a failure with a text.
pub record Entry : Type 0 where
  pub status : EntryStatus
  pub at : Instant
  pub error : Option Str

-- A value of the JSON column `payload`. `uuid_text` is the string that `str` makes of a UUID and that
-- `uuid.UUID` reads back.
pub data Json : Type 0 where
  text : Str → Json
  number : ℤ → Json
  uuid_text : Uuid → Json

abbrev pub Payload : Type 0
Payload = Dict Json

pub record OutboxEvent : Type 0 where
  pub id : Uuid
  pub aggregate_id : Option Uuid
  pub correlation_id : Option Uuid
  pub event_type : Str
  pub payload : Payload
  pub status : Status
  pub retry_count : ℕ
  pub max_retries : ℕ
  pub scheduled_at : Instant
  pub last_error : Option Str
  pub created_at : Instant
  pub processed_at : Option Instant
  pub handler_state : Dict Entry
