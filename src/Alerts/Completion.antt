-- ===== src/Alerts/Completion.antt =====
-- backend/src/alerts.rs: how a claimed delivery ends (`release_delivery_claim`,
-- `current_delivery_suppression`, `mark_delivery_suppressed`, `finish_delivery_attempt`), and how a
-- failed one is queued again (`reset_failed_delivery_tx`).
pub mod Soundness
use Prim.Native.String.{String}
use operation_monitoring.Base.{
  ℕ, ◌+◌, Bool, true, false, not, ◌&&◌, ◌||◌, Option, none, some, is_some, List, [], ◌∷◌, ◌++◌,
  if◌then◌else◌, ◌==◌, any, find, update_where,
}
use operation_monitoring.Base.Int.{ℤ, pos, ◌+ℤ◌, saturating_add}
use operation_monitoring.Alerts.Model.{
  EventStatus, resolved, DeliveryStatus, pending, processing, succeeded, failed, suppressed,
  SuppressionReason, event_resolved_before_delivery, EventRow, ChannelRow, DeliveryRow, AttemptRow,
  Db, new_v4, is_active, has_id,
}
use operation_monitoring.Alerts.Lifecycle.{is_firing_kind, suppression_of}
use operation_monitoring.Alerts.Resolution.{is_resolved, has_id_active}
use operation_monitoring.Alerts.Delivery.{
  DeliveryError, delivery_not_found, not_failed, lifecycle_advanced, channel_deleted,
  channel_disabled, Reset, ok, err, WebhookAttemptOutcome, in_status, retry_delay_after,
  transient_channel_cooldown_delay, lifecycle_has_advanced, postpone, delivery_id_is, holds_lease,
}

-- `channel_deleted` also where the row is gone.
abbrev pub inactive_channel_error : Option ChannelRow → Option String
inactive_channel_error none = some "channel_deleted"
inactive_channel_error (some c) =
    if is_some c.deleted_at
    then some "channel_deleted"
    else if c.enabled
    then none
    else some "channel_disabled"

abbrev pub cooldown_delay : Option ChannelRow → String → ℤ → Option ℤ
cooldown_delay none error cycle_attempts = none
cooldown_delay (some c) error cycle_attempts =
    if is_some c.deleted_at
    then none
    else transient_channel_cooldown_delay c.channel_type error cycle_attempts

module _ {V : Type 0} where
  -- The leased row, handed back or ended.
  abbrev pub set_leased : Db V → DeliveryRow V → (DeliveryRow V → DeliveryRow V) → Db V
  set_leased db delivery f = record db {
    deliveries = update_where (holds_lease delivery) f db.deliveries;
  }

  unfoldable pub release_row : ℤ → DeliveryRow V → DeliveryRow V
  release_row retry_at d = record d {
    status = pending;
    next_attempt_at = some retry_at;
    lease_until = none;
    lease_token = none;
    updated_at = retry_at;
  }

  unfoldable pub release_delivery_claim : Db V → DeliveryRow V → ℤ → Db V
  unfolding release_row
  release_delivery_claim db delivery retry_at = set_leased db delivery (release_row retry_at)

  abbrev event_suppression : Db V → ℤ → Option (EventRow V) → Option SuppressionReason
  event_suppression db now none = none
  event_suppression db now (some e) =
      if is_resolved e.status
      then some event_resolved_before_delivery
      else suppression_of db e.rule_id e.metric e.instance_id now

  unfoldable pub current_delivery_suppression : Db V → DeliveryRow V → ℤ → Option SuppressionReason
  current_delivery_suppression db delivery now =
      if is_firing_kind delivery.kind
      then elim delivery.event_id [
        | none ↦ none
        | some event_id ↦ event_suppression db now (find (has_id event_id) db.events)
      ]
      else none

  unfoldable pub suppress_leased_row : SuppressionReason → ℤ → DeliveryRow V → DeliveryRow V
  suppress_leased_row reason now d = record d {
    status = suppressed;
    suppression_reason = some reason;
    next_attempt_at = none;
    lease_until = none;
    lease_token = none;
    completed_at = some now;
    updated_at = now;
  }

  abbrev suppress_event : Option ℕ → SuppressionReason → List (EventRow V) → List (EventRow V)
  suppress_event none reason events = events
  suppress_event (some event_id) reason events =
      update_where (has_id_active event_id)
        (λ e. record e { suppressed = true; suppression_reason = some reason }) events

  unfoldable pub mark_delivery_suppressed : Db V → DeliveryRow V → SuppressionReason → ℤ → Db V
  unfolding suppress_leased_row
  mark_delivery_suppressed db delivery reason now =
      if any (holds_lease delivery) db.deliveries
      then record db {
        deliveries =
            update_where (holds_lease delivery) (suppress_leased_row reason now) db.deliveries;
        events = suppress_event delivery.event_id reason db.events;
      }
      else db

  abbrev attempt_of : Db V → DeliveryRow V → WebhookAttemptOutcome → ℤ → AttemptRow
  attempt_of db delivery outcome now = record {
    id = new_v4 db;
    delivery_id = delivery.id;
    attempt_number = delivery.attempts_count;
    http_status = outcome.http_status;
    duration_ms = outcome.duration_ms;
    error = outcome.error;
    response_excerpt = outcome.response_excerpt;
    created_at = now;
  }

  abbrev pub channel_row : Db V → ℕ → Option ChannelRow
  channel_row db channel_id = find (λ c. c.id == channel_id) db.channels

  abbrev pub event_is_resolved : Db V → Option ℕ → Bool
  event_is_resolved db none = false
  event_is_resolved db (some event_id) = elim (find (has_id event_id) db.events) [
    | none ↦ false
    | some e ↦ is_resolved e.status
  ]

  unfoldable pub cool_down : Db V → ℕ → ℤ → Option ℤ → Db V
  cool_down db channel_id now none = db
  cool_down db channel_id now (some delay) =
      let resume_at = saturating_add now delay in
      record db {
        channels =
            update_where (λ c. c.id == channel_id)
              (λ c. record c {
                delivery_cooldown_until = postpone resume_at c.delivery_cooldown_until;
              })
              db.channels;
        deliveries =
            update_where (λ d. (d.channel_id == channel_id) && in_status d.status pending)
              (λ d. record d {
                next_attempt_at = postpone resume_at d.next_attempt_at;
                updated_at = now;
              })
              db.deliveries;
      }

  unfoldable pub succeed_row : ℤ → DeliveryRow V → DeliveryRow V
  succeed_row now d = record d {
    status = succeeded;
    next_attempt_at = none;
    lease_until = none;
    lease_token = none;
    last_error = "";
    completed_at = some now;
    updated_at = now;
  }

  unfoldable pub fail_row : String → ℤ → DeliveryRow V → DeliveryRow V
  fail_row error now d = record d {
    status = failed;
    next_attempt_at = none;
    lease_until = none;
    lease_token = none;
    last_error = error;
    completed_at = some now;
    updated_at = now;
  }

  unfoldable pub retry_row : String → ℤ → ℤ → DeliveryRow V → DeliveryRow V
  unfolding ◌+ℤ◌
  retry_row error delay now d = record d {
    status = pending;
    next_attempt_at = some (now +ℤ delay);
    lease_until = none;
    lease_token = none;
    last_error = error;
    updated_at = now;
  }

  unfoldable pub resolved_row : String → ℤ → DeliveryRow V → DeliveryRow V
  resolved_row error now d = record d {
    status = suppressed;
    suppression_reason = some event_resolved_before_delivery;
    next_attempt_at = none;
    lease_until = none;
    lease_token = none;
    last_error = error;
    completed_at = some now;
    updated_at = now;
  }

  unfoldable pub retry_or_fail : String → ℤ → Option ℤ → DeliveryRow V → DeliveryRow V
  unfolding retry_row fail_row
  retry_or_fail error now none d = fail_row error now d
  retry_or_fail error now (some delay) d = retry_row error delay now d

  abbrev fail_inactive : Option String → String → ℤ → Option ℤ → DeliveryRow V → DeliveryRow V
  fail_inactive (some channel_error) error now delay d = fail_row channel_error now d
  fail_inactive none error now delay d = retry_or_fail error now delay d

  -- What becomes of the leased row, in the order of the branches.
  unfoldable pub finish_row :
      DeliveryRow V
      → WebhookAttemptOutcome
      → Bool
      → Option String
      → ℤ
      → DeliveryRow V
      → DeliveryRow V
  unfolding succeed_row fail_row resolved_row retry_or_fail
  finish_row delivery outcome event_resolved inactive now d =
      if outcome.succeeded
      then succeed_row now d
      else if event_resolved
      then resolved_row outcome.error now d
      else fail_inactive inactive outcome.error now (retry_delay_after delivery.cycle_attempts) d

  -- Without the lease, which another worker may have taken over, nothing is recorded.
  unfoldable pub finish_delivery_attempt : Db V → DeliveryRow V → WebhookAttemptOutcome → ℤ → Db V
  unfolding cool_down finish_row
  finish_delivery_attempt db delivery outcome now =
      let channel = channel_row db delivery.channel_id in
      let event_resolved =
        not outcome.succeeded
        && (is_firing_kind delivery.kind && event_is_resolved db delivery.event_id) in
      let recorded = record db {
        attempts = db.attempts ++ attempt_of db delivery outcome now ∷ [];
        drawn = db.drawn + 1;
      } in
      let cooled =
        cool_down recorded delivery.channel_id now
          (cooldown_delay channel outcome.error delivery.cycle_attempts) in
      if any (holds_lease delivery) db.deliveries
      then set_leased cooled delivery
          (finish_row delivery outcome event_resolved (inactive_channel_error channel) now)
      else db

  unfoldable pub reset_row : ℤ → DeliveryRow V → DeliveryRow V
  unfolding ◌+ℤ◌
  reset_row now d = record d {
    status = pending;
    cycle_attempts = pos 0;
    manual_retry_count = d.manual_retry_count +ℤ pos 1;
    next_attempt_at = some now;
    lease_until = none;
    lease_token = none;
    last_error = "";
    completed_at = none;
    updated_at = now;
  }

  abbrev event_status : Db V → Option ℕ → Option EventStatus
  event_status db none = none
  event_status db (some event_id) = elim (find (has_id event_id) db.events) [
    | none ↦ none
    | some e ↦ some e.status
  ]

  reset_on_channel : Db V → ℕ → ℤ → Option ChannelRow → Reset (Db V)
  unfolding reset_row
  reset_on_channel db id now none = err channel_deleted
  reset_on_channel db id now (some c) =
      if is_some c.deleted_at
      then err channel_deleted
      else if c.enabled
      then ok (record db {
        deliveries =
            update_where (λ d. (d.id == id) && in_status d.status failed) (reset_row now)
              db.deliveries;
      })
      else err channel_disabled

  reset_found : Db V → ℕ → ℤ → DeliveryRow V → Reset (Db V)
  unfolding reset_on_channel
  reset_found db id now d =
      if not (in_status d.status failed)
      then err not_failed
      else if lifecycle_has_advanced d.kind (event_status db d.event_id)
      then err lifecycle_advanced
      else reset_on_channel db id now (channel_row db d.channel_id)

  -- The row is locked from the first query on, so the last update finds it still failed.
  unfoldable pub reset_failed_delivery_tx : Db V → ℕ → ℤ → Reset (Db V)
  unfolding reset_found
  reset_failed_delivery_tx db id now = elim (find (delivery_id_is id) db.deliveries) [
    | none ↦ err delivery_not_found
    | some d ↦ reset_found db id now d
  ]
