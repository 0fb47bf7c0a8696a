-- ===== src/Alerts/Model.antt =====
-- backend/src/alerts.rs, the rows of `ensure_schema` and the structs that read them.
-- Texts that a CHECK constraint limits to a few values are enumerations, identifiers are numbers,
-- and the `f64` of a metric is a value of any type `V`: `F64` names the operations that are used.
-- Columns that are only stored and shown (who made a row and when, ciphertexts) are left out.
-- `suppression_reason` is the parts of its text, and none for the empty text.
use Prim.Native.String.{String}
use operation_monitoring.Base.{ℕ, Bool, true, false, ◌&&◌, Option, List, ◌+◌, ◌==◌}
use operation_monitoring.Base.Int.{ℤ}

-- `f64`, with the comparisons and the arithmetic that the code uses.
pub record F64 : Type 1 where
  pub Value : Type 0
  pub eq : Value → Value → Bool
  pub ge : Value → Value → Bool
  pub is_finite : Value → Bool
  pub of_i64 : ℤ → Value
  pub div : Value → Value → Value
  pub mul : Value → Value → Value

pub data Metric : Type 0 where
  node_offline cpu_percent memory_percent disk_percent latency_ms instance_expiring : Metric

pub data Severity : Type 0 where
  warning critical : Severity

pub data RuleScope : Type 0 where
  all specific : RuleScope

pub data WindowScope : Type 0 where
  global rule node : WindowScope

pub data EventStatus : Type 0 where
  firing acknowledged resolved : EventStatus

pub data DeliveryKind : Type 0 where
  alert_firing alert_acknowledged alert_resolved webhook_test : DeliveryKind

pub data DeliveryStatus : Type 0 where
  pending processing succeeded failed suppressed : DeliveryStatus

pub data ChannelType : Type 0 where
  generic_webhook email feishu wecom dingtalk slack msteams telegram discord : ChannelType

-- `maintenance:{name}`, with `: {reason}` unless the reason is empty; `node_offline:{event_id}`;
-- `event_resolved_before_delivery`.
pub data SuppressionReason : Type 0 where
  maintenance : String → String → SuppressionReason
  offline_event : ℕ → SuppressionReason
  event_resolved_before_delivery : SuppressionReason

pub record RuleRow (V : Type 0) : Type 0 where
  pub id : ℕ
  pub name : String
  pub metric : Metric
  pub threshold : Option V
  pub duration_seconds : ℤ
  pub severity : Severity
  pub scope : RuleScope
  pub enabled : Bool
  pub version : ℤ

pub record RuleSnapshot (V : Type 0) : Type 0 where
  pub id : ℕ
  pub name : String
  pub metric : Metric
  pub threshold : Option V
  pub duration_seconds : ℤ
  pub severity : Severity
  pub version : ℤ

pub record Instance : Type 0 where
  pub id : ℕ
  pub name : String
  pub hostname : String
  pub region : String
  pub os : String
  pub arch : String
  pub agent_version : String
  pub expires_at : Option ℤ
  pub approved : Bool
  pub disabled : Bool

-- `jsonb_build_object(...)`, or only the identifier of an instance that is gone.
pub data NodeSnapshot : Type 0 where
  of_instance : Instance → NodeSnapshot
  only_id : ℕ → NodeSnapshot

pub record EvaluationRow (V : Type 0) : Type 0 where
  pub rule_id : ℕ
  pub instance_id : ℕ
  pub rule_version : ℤ
  pub pending_since : Option ℤ
  pub recovery_since : Option ℤ
  pub last_observed_at : Option ℤ
  pub last_value : Option V
  pub last_sample_at : Option ℤ
  pub match_count : ℤ

pub record EventRow (V : Type 0) : Type 0 where
  pub id : ℕ
  pub rule_id : ℕ
  pub instance_id : ℕ
  pub status : EventStatus
  pub severity : Severity
  pub metric : Metric
  pub rule_snapshot : RuleSnapshot V
  pub node_snapshot : NodeSnapshot
  pub threshold : Option V
  pub duration_seconds : ℤ
  pub current_value : Option V
  pub first_observed_at : ℤ
  pub fired_at : ℤ
  pub last_observed_at : ℤ
  pub match_count : ℤ
  pub acknowledged_by : Option String
  pub acknowledged_by_user_id : Option String
  pub acknowledged_at : Option ℤ
  pub acknowledge_note : String
  pub resolved_at : Option ℤ
  pub resolution_reason : String
  pub suppressed : Bool
  pub suppression_reason : Option SuppressionReason

pub record TimelineRow (V : Type 0) : Type 0 where
  pub id : ℕ
  pub event_id : ℕ
  pub kind : EventStatus
  pub actor : String
  pub note : String
  pub value : Option V
  pub created_at : ℤ

pub record MaintenanceRow : Type 0 where
  pub id : ℕ
  pub name : String
  pub reason : String
  pub scope : WindowScope
  pub starts_at : ℤ
  pub ends_at : ℤ
  pub enabled : Bool

pub record ChannelRow : Type 0 where
  pub id : ℕ
  pub name : String
  pub channel_type : ChannelType
  pub enabled : Bool
  pub delivery_cooldown_until : Option ℤ
  pub deleted_at : Option ℤ

-- The JSON of `delivery_payload`: the event's row as it is read there, with the actor and the note.
pub record Payload (V : Type 0) : Type 0 where
  pub kind : DeliveryKind
  pub event : EventRow V
  pub actor : Option String
  pub note : Option String

pub record DeliveryRow (V : Type 0) : Type 0 where
  pub id : ℕ
  pub event_id : Option ℕ
  pub channel_id : ℕ
  pub kind : DeliveryKind
  pub status : DeliveryStatus
  pub payload : Option (Payload V)
  pub channel_snapshot : ℕ × String × ChannelType
  pub suppression_reason : Option SuppressionReason
  pub attempts_count : ℤ
  pub cycle_attempts : ℤ
  pub manual_retry_count : ℤ
  pub next_attempt_at : Option ℤ
  pub lease_until : Option ℤ
  pub lease_token : Option ℕ
  pub last_error : String
  pub created_at : ℤ
  pub updated_at : ℤ
  pub completed_at : Option ℤ

pub record AttemptRow : Type 0 where
  pub id : ℕ
  pub delivery_id : ℕ
  pub attempt_number : ℤ
  pub http_status : Option ℤ
  pub duration_ms : ℤ
  pub error : String
  pub response_excerpt : String
  pub created_at : ℤ

-- The tables. `uuids` is the sequence of identifiers that `Uuid::new_v4` yields, of which `drawn`
-- have been used. A transaction is a function of the whole value: a failed one leaves it as it was.
pub record Db (V : Type 0) : Type 0 where
  pub rules : List (RuleRow V)
  pub rule_targets : List (ℕ × ℕ)
  pub rule_channels : List (ℕ × ℕ)
  pub instances : List Instance
  pub states : List (EvaluationRow V)
  pub events : List (EventRow V)
  pub event_channels : List (ℕ × ℕ)
  pub timeline : List (TimelineRow V)
  pub windows : List MaintenanceRow
  pub window_targets : List (ℕ × ℕ)
  pub channels : List ChannelRow
  pub deliveries : List (DeliveryRow V)
  pub attempts : List AttemptRow
  pub uuids : ℕ → ℕ
  pub drawn : ℕ

-- `Uuid::new_v4()`.
abbrev pub new_v4 : {V : Type 0} → Db V → ℕ
new_v4 db = db.uuids db.drawn

abbrev pub draw : {V : Type 0} → Db V → Db V
draw db = record db { drawn = db.drawn + 1 }

abbrev pub is_active : EventStatus → Bool
is_active resolved = false
is_active _ = true

abbrev pub same_pair : ℕ → ℕ → ℕ → ℕ → Bool
same_pair a b c d = (a == c) && (b == d)

module _ {V : Type 0} where
  abbrev pub is_state_of : ℕ → ℕ → EvaluationRow V → Bool
  is_state_of rule_id instance_id s = same_pair s.rule_id s.instance_id rule_id instance_id

  -- The rows of the unique index `idx_alert_events_active` under one key.
  abbrev pub is_active_event : ℕ → ℕ → EventRow V → Bool
  is_active_event rule_id instance_id e =
      same_pair e.rule_id e.instance_id rule_id instance_id && is_active e.status

  abbrev pub has_id : ℕ → EventRow V → Bool
  has_id k e = e.id == k
