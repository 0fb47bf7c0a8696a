-- ===== src/Alerts/Lifecycle.antt =====
-- backend/src/alerts.rs: suppression and the outbox of deliveries (`suppression_reason_tx` to
-- `enqueue_event_lifecycle_tx`).
pub mod Outbox
use Prim.Native.String.{String}
use operation_monitoring.Base.{
  ℕ, ◌+◌, Bool, true, false, not, ◌&&◌, ◌||◌, Option, none, some, is_some, List, [], ◌∷◌, ◌++◌,
  if◌then◌else◌, ◌==◌, ltb, any, find, retain, update_where, first_by, sort_by,
}
use operation_monitoring.Base.Int.{ℤ, pos, ltb_ℤ, leb_ℤ, eq_ℤ}
use operation_monitoring.Alerts.Model.{
  Metric, node_offline, instance_expiring, WindowScope, global, rule, node, EventStatus, firing,
  acknowledged, resolved, DeliveryKind, alert_firing, alert_acknowledged, alert_resolved,
  webhook_test, DeliveryStatus, pending, processing, succeeded, failed, suppressed,
  SuppressionReason, maintenance, offline_event, event_resolved_before_delivery, RuleRow, EventRow,
  EvaluationRow, MaintenanceRow, ChannelRow, DeliveryRow, TimelineRow, Db, new_v4, draw, is_active,
}
use operation_monitoring.Alerts.Observation.{
  is_node_offline, node_offline_suppresses, resolution_values,
}

abbrev pub kind_code : DeliveryKind → ℕ
kind_code alert_firing = 1
kind_code alert_acknowledged = 2
kind_code alert_resolved = 3
kind_code webhook_test = 4

abbrev pub status_code : DeliveryStatus → ℕ
status_code pending = 0
status_code processing = 1
status_code succeeded = 2
status_code failed = 3
status_code suppressed = 4

abbrev pub same_id : Option ℕ → ℕ → Bool
same_id none k = false
same_id (some j) k = j == k

abbrev pub has_pair : ℕ → ℕ → List (ℕ × ℕ) → Bool
has_pair a b [] = false
has_pair a b ((x, y) ∷ rest) = ((x == a) && (y == b)) || has_pair a b rest

abbrev pub window_precedes : MaintenanceRow → MaintenanceRow → Bool
window_precedes a b =
    ltb_ℤ a.starts_at b.starts_at || (eq_ℤ a.starts_at b.starts_at && ltb a.id b.id)

abbrev pub or_else : Option SuppressionReason → Option SuppressionReason → Option SuppressionReason
or_else none o = o
or_else (some r) o = some r

-- The rows of the unique index `idx_alert_deliveries_deliverable_lifecycle` under one key.
abbrev pub is_deliverable : DeliveryStatus → Bool
is_deliverable suppressed = false
is_deliverable _ = true

abbrev pub is_firing_kind : DeliveryKind → Bool
is_firing_kind alert_firing = true
is_firing_kind _ = false

abbrev pub has_id_before : ChannelRow → ChannelRow → Bool
has_id_before a b = ltb a.id b.id

module _ {V : Type 0} where
  -- The WHERE clause over `alert_maintenance_windows`.
  abbrev pub window_applies : Db V → ℕ → ℕ → ℤ → MaintenanceRow → Bool
  window_applies db rule_id instance_id now w =
      w.enabled
      && (leb_ℤ w.starts_at now
          && (ltb_ℤ now w.ends_at && (elim w.scope [
            | global ↦ true
            | rule ↦ has_pair w.id rule_id db.window_targets
            | node ↦ has_pair w.id instance_id db.window_targets
          ])))

  unfoldable pub maintenance_reason : Db V → ℕ → ℕ → ℤ → Option SuppressionReason
  maintenance_reason db rule_id instance_id now =
      elim (first_by window_precedes
        (retain (window_applies db rule_id instance_id now) db.windows)) [
          | none ↦ none
          | some w ↦ some (maintenance w.name w.reason)
        ]

  -- An unresolved `node_offline` event of the instance.
  abbrev pub is_offline_event : ℕ → EventRow V → Bool
  is_offline_event instance_id e =
      (e.instance_id == instance_id) && (is_node_offline e.metric && is_active e.status)

  -- `suppression_reason_tx` leaves events of one second unordered; `current_delivery_suppression`
  -- orders them by identifier.
  abbrev pub fired_before : EventRow V → EventRow V → Bool
  fired_before a b = ltb_ℤ a.fired_at b.fired_at || (eq_ℤ a.fired_at b.fired_at && ltb a.id b.id)

  unfoldable pub offline_reason : Db V → ℕ → Option SuppressionReason
  offline_reason db instance_id =
      elim (first_by fired_before (retain (is_offline_event instance_id) db.events)) [
        | none ↦ none
        | some e ↦ some (offline_event e.id)
      ]

  -- The part that `suppression_reason_tx` and `current_delivery_suppression` share.
  unfoldable pub suppression_of : Db V → ℕ → Metric → ℕ → ℤ → Option SuppressionReason
  suppression_of db rule_id metric instance_id now =
      or_else (maintenance_reason db rule_id instance_id now)
        (if node_offline_suppresses metric true then offline_reason db instance_id else none)

  unfoldable pub suppression_reason_tx : Db V → RuleRow V → ℕ → ℤ → Option SuppressionReason
  suppression_reason_tx db r instance_id now = suppression_of db r.id r.metric instance_id now

  -- One event's deliveries of one kind to one channel.
  abbrev pub lifecycle_key : ℕ → ℕ → DeliveryKind → DeliveryRow V → Bool
  lifecycle_key event_id channel_id kind d =
      same_id d.event_id event_id
      && ((d.channel_id == channel_id) && (kind_code d.kind == kind_code kind))

  abbrev pub deliverable_key : ℕ → ℕ → DeliveryKind → DeliveryRow V → Bool
  deliverable_key event_id channel_id kind d =
      is_deliverable d.status && lifecycle_key event_id channel_id kind d

  unfoldable pub new_delivery :
      Db V
      → EventRow V
      → ChannelRow
      → DeliveryKind
      → Option SuppressionReason
      → Option String
      → Option String
      → ℤ
      → DeliveryRow V
  new_delivery db event c kind suppression actor text now = record {
    id = new_v4 db;
    event_id = some event.id;
    channel_id = c.id;
    kind = kind;
    status = if is_some suppression then suppressed else pending;
    payload = some (record { kind = kind; event = event; actor = actor; note = text });
    channel_snapshot = (c.id, c.name, c.channel_type);
    suppression_reason = suppression;
    attempts_count = pos 0;
    cycle_attempts = pos 0;
    manual_retry_count = pos 0;
    next_attempt_at = if is_some suppression then none else some now;
    lease_until = none;
    lease_token = none;
    last_error = "";
    created_at = now;
    updated_at = now;
    completed_at = if is_some suppression then some now else none;
  }

  -- `INSERT … ON CONFLICT … DO NOTHING`: only a row of the partial index can conflict.
  unfoldable pub insert_delivery_tx :
      Db V
      → EventRow V
      → ChannelRow
      → DeliveryKind
      → Option SuppressionReason
      → Option String
      → Option String
      → ℤ
      → Db V
  unfolding new_delivery
  insert_delivery_tx db event c kind suppression actor text now =
      if not (is_some suppression) && any (deliverable_key event.id c.id kind) db.deliveries
      then draw db
      else record db {
        drawn = db.drawn + 1;
        deliveries = db.deliveries ++ new_delivery db event c kind suppression actor text now ∷ [];
      }

  unfoldable pub enqueue_channel :
      Db V
      → EventRow V
      → DeliveryKind
      → Option SuppressionReason
      → Option String
      → Option String
      → ℤ
      → ChannelRow
      → Db V
  enqueue_channel db event kind suppression actor text now c =
      if is_firing_kind kind
        && (is_some suppression && any (lifecycle_key event.id c.id alert_firing) db.deliveries)
      then db
      else insert_delivery_tx db event c kind suppression actor text now

  unfoldable pub enqueue_channels :
      Db V
      → EventRow V
      → DeliveryKind
      → Option SuppressionReason
      → Option String
      → Option String
      → ℤ
      → List ChannelRow
      → Db V
  unfolding enqueue_channel
  enqueue_channels db event kind suppression actor text now [] = db
  enqueue_channels db event kind suppression actor text now (c ∷ rest) =
      enqueue_channels (enqueue_channel db event kind suppression actor text now c) event kind
        suppression actor text now rest

  -- The event's channels that are enabled and not deleted, by identifier.
  abbrev pub event_channel_rows : Db V → ℕ → List ChannelRow
  event_channel_rows db event_id = sort_by has_id_before (
      retain
        (λ c. has_pair event_id c.id db.event_channels && (c.enabled && not (is_some c.deleted_at)))
        db.channels)

  unfoldable pub enqueue_event_lifecycle_tx :
      Db V
      → EventRow V
      → DeliveryKind
      → Option SuppressionReason
      → Option String
      → Option String
      → ℤ
      → Db V
  enqueue_event_lifecycle_tx db event kind suppression actor text now =
      enqueue_channels db event kind suppression actor text now (event_channel_rows db event.id)
