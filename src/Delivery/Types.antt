-- ===== src/Delivery/Types.antt =====
-- The records that a delivery reads (internal/domain/fragment.go, internal/config/config.go,
-- internal/ingest/delivery.go).
use fragments_engine.Common.{ℕ, String, List}
use fragments_engine.Common.Int.{ℤ}

pub record Destination : Type 0 where
  pub id : String
  pub name : String
  pub kind : String
  pub config_json : String

pub record DeliveryRetryConfig : Type 0 where
  pub max_attempts : ℤ
  pub backoff_ms : ℤ

-- The operator's defaults, one entry for each destination kind.
pub record DeliveryConfig : Type 0 where
  pub file : DeliveryRetryConfig
  pub mcp : DeliveryRetryConfig
  pub api : DeliveryRetryConfig
  pub cli : DeliveryRetryConfig
  pub callback : DeliveryRetryConfig

pub record QueueConfig : Type 0 where
  pub replay_cooldown_seconds : ℤ
  pub max_replays_per_hour : ℤ
  pub alert_pending_threshold : ℤ
  pub alert_dead_letter_threshold : ℤ

pub data FragmentStatus : Type 0 where
  inbox routed indexed : FragmentStatus

-- The fields of a fragment that routing and delivery look at.
pub record Fragment : Type 0 where
  pub id : String
  pub source : String
  pub source_type : String
  pub status : FragmentStatus

pub record FragmentAttachment : Type 0 where
  pub id : String
  pub kind : String
  pub storage_path : String

pub record PublishedAttachment : Type 0 where
  pub attachment_id : String
  pub storage_path : String
  pub preview_storage_path : String

pub record DeliveryResult : Type 0 where
  pub ref : String
  pub attempts : ℕ
  pub published_attachments : List PublishedAttachment
