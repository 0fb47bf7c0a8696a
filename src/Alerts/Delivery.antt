-- ===== src/Alerts/Delivery.antt =====
-- backend/src/alerts.rs: the delivery queue, up to the start of an attempt (`claim_delivery`,
-- `start_delivery_attempt`), and the delays. Times are read by the callers: `now` is what
-- `now_ts()` gave.
pub mod Soundness
use Prim.Native.String.{String}
use text.Mathlib.Text.{◌==◌ as str_eq, starts_with}
use operation_monitoring.Base.{
  ℕ, ◌+◌, Bool, true, false, not, ◌&&◌, ◌||◌, Option, none, some, is_some, unwrap_or, List, [], ◌∷◌,
  ◌++◌, if◌then◌else◌, ◌==◌, ltb, any, find, retain, update_where, first_by,
}
use operation_monitoring.Base.Int.{ℤ, pos, ltb_ℤ, leb_ℤ, eq_ℤ, ◌+ℤ◌, saturating_add}
use operation_monitoring.Alerts.Model.{
  EventStatus, firing, acknowledged, resolved, DeliveryKind, alert_firing, alert_acknowledged,
  alert_resolved, webhook_test, DeliveryStatus, pending, processing, succeeded, failed, suppressed,
  ChannelType, email, SuppressionReason, event_resolved_before_delivery, EventRow, ChannelRow,
  DeliveryRow, AttemptRow, Db, new_v4, is_active,
}
use operation_monitoring.Alerts.Lifecycle.{
  kind_code, status_code, same_id, is_firing_kind, suppression_of,
}
use operation_monitoring.Alerts.Resolution.{is_resolved}

abbrev pub delivery_lease_seconds : ℤ
delivery_lease_seconds = pos 180

pub data DeliveryError : Type 0 where
  delivery_not_found not_failed lifecycle_advanced channel_deleted channel_disabled : DeliveryError

pub data Reset {ℓ} (A : Type ℓ) : Type ℓ where
  ok : A → Reset A
  err : DeliveryError → Reset A

pub record WebhookAttemptOutcome : Type 0 where
  pub succeeded : Bool
  pub http_status : Option ℤ
  pub duration_ms : ℤ
  pub error : String
  pub response_excerpt : String

abbrev pub opt_eq : Option ℕ → Option ℕ → Bool
opt_eq none none = true
opt_eq none (some b) = false
opt_eq (some a) none = false
opt_eq (some a) (some b) = a == b

abbrev pub in_status : DeliveryStatus → DeliveryStatus → Bool
in_status s t = status_code s == status_code t

-- `DELIVERY_RETRY_DELAYS` after the first to the fourth attempt of a cycle, and none after.
unfoldable pub retry_delay_after : ℤ → Option ℤ
retry_delay_after n =
    if eq_ℤ n (pos 1)
    then some (pos 60)
    else if eq_ℤ n (pos 2)
    then some (pos 300)
    else if eq_ℤ n (pos 3)
    then some (pos 900)
    else if eq_ℤ n (pos 4)
    then some (pos 3600)
    else none

abbrev is_email : ChannelType → Bool
is_email email = true
is_email _ = false

unfoldable pub transient_channel_cooldown_delay : ChannelType → String → ℤ → Option ℤ
unfolding retry_delay_after
transient_channel_cooldown_delay channel_type error cycle_attempts =
    if not (is_email channel_type)
      || not (str_eq error "smtp_timeout" || starts_with "smtp_transient" error)
    then none
    else some (unwrap_or (retry_delay_after cycle_attempts) (pos 3600))

unfoldable pub lifecycle_has_advanced : DeliveryKind → Option EventStatus → Bool
lifecycle_has_advanced alert_firing (some acknowledged) = true
lifecycle_has_advanced alert_firing (some resolved) = true
lifecycle_has_advanced alert_acknowledged (some resolved) = true
lifecycle_has_advanced _ _ = false

-- `GREATEST(COALESCE(old, new), new)`.
abbrev pub postpone : ℤ → Option ℤ → Option ℤ
postpone t none = some t
postpone t (some old) = some (if ltb_ℤ old t then t else old)

module _ {V : Type 0} where
  -- `ROW(created_at, CASE kind …, id) < ROW(…)`.
  abbrev pub earlier_row : DeliveryRow V → DeliveryRow V → Bool
  earlier_row a b =
      ltb_ℤ a.created_at b.created_at
      || (eq_ℤ a.created_at b.created_at
          && (ltb (kind_code a.kind) (kind_code b.kind)
              || ((kind_code a.kind == kind_code b.kind) && ltb a.id b.id)))

  abbrev pub is_open : DeliveryRow V → Bool
  is_open d = in_status d.status pending || in_status d.status processing

  -- An unexpired lease of another delivery of the channel.
  abbrev pub in_flight : ℕ → ℤ → DeliveryRow V → Bool
  in_flight channel_id now d =
      (d.channel_id == channel_id)
      && (in_status d.status processing && ltb_ℤ now (unwrap_or d.lease_until (pos 0)))

  abbrev pub blocks : DeliveryRow V → DeliveryRow V → Bool
  blocks queued earlier =
      is_some queued.event_id
      && (opt_eq earlier.event_id queued.event_id
          && ((earlier.channel_id == queued.channel_id)
              && (is_open earlier
                  && (not (earlier.id == queued.id) && earlier_row earlier queued))))

  abbrev pub is_due : ℤ → DeliveryRow V → Bool
  is_due now d =
      (in_status d.status pending && leb_ℤ (unwrap_or d.next_attempt_at (pos 0)) now)
      || (in_status d.status processing && leb_ℤ (unwrap_or d.lease_until (pos 0)) now)

  abbrev pub channel_open : Db V → ℕ → ℤ → Bool
  channel_open db channel_id now =
      any (λ c. (c.id == channel_id) && leb_ℤ (unwrap_or c.delivery_cooldown_until (pos 0)) now)
        db.channels

  -- The condition of the query on a row. The row and its channel come from `db`, and the deliveries
  -- that the two subqueries read from `seen`.
  abbrev pub is_claimable : Db V → Db V → ℤ → DeliveryRow V → Bool
  is_claimable seen db now d =
      is_due now d
      && (channel_open db d.channel_id now
          && (not (any (λ o. in_flight d.channel_id now o && not (o.id == d.id)) seen.deliveries)
              && not (any (blocks d) seen.deliveries)))

  abbrev pub still_claimable : Db V → Db V → ℤ → Option (DeliveryRow V) → Bool
  still_claimable seen db now none = false
  still_claimable seen db now (some d) = is_claimable seen db now d

  -- `FOR UPDATE OF queued,c SKIP LOCKED` under READ COMMITTED: the condition holds of the row in the
  -- snapshot `seen` of the statement; neither it nor its channel is `locked` by another
  -- transaction; and it holds again of their versions in `db`, which are locked. The rows that the
  -- subqueries read are not locked, and stay those of the snapshot.
  abbrev pub is_candidate : Db V → Db V → (ℕ → Bool) → ℤ → DeliveryRow V → Bool
  is_candidate seen db locked now d =
      is_claimable seen seen now d
      && ((not (locked d.id) && not (locked d.channel_id))
          && still_claimable seen db now (find (λ x. x.id == d.id) db.deliveries))

  abbrev pub queue_order : DeliveryRow V → DeliveryRow V → Bool
  queue_order a b =
      let ta = unwrap_or a.next_attempt_at a.created_at in
      let tb = unwrap_or b.next_attempt_at b.created_at in
      ltb_ℤ ta tb
      || (eq_ℤ ta tb
          && (ltb_ℤ a.created_at b.created_at || (eq_ℤ a.created_at b.created_at && ltb a.id b.id)))

  unfoldable pub lease_row : ℤ → ℕ → DeliveryRow V → DeliveryRow V
  unfolding ◌+ℤ◌
  lease_row now token d = record d {
    status = processing;
    lease_until = some (now +ℤ delivery_lease_seconds);
    lease_token = some token;
    updated_at = now;
  }

  abbrev pub delivery_id_is : ℕ → DeliveryRow V → Bool
  delivery_id_is k d = d.id == k

  unfoldable pub claim_row : Db V → ℤ → ℕ → Option (DeliveryRow V) → Db V × Option (DeliveryRow V)
  unfolding lease_row
  claim_row db now token none = (db, none)
  claim_row db now token (some d) = (
    record db {
      deliveries = update_where (delivery_id_is d.id) (lease_row now token) db.deliveries;
    },
    some (lease_row now token d),
  )

  -- The version of the chosen row that the update finds.
  abbrev pub current_row : Db V → Option (DeliveryRow V) → Option (DeliveryRow V)
  current_row db none = none
  current_row db (some d) = find (delivery_id_is d.id) db.deliveries

  -- The lease token is drawn before the query runs; `seen` is what other transactions had committed
  -- when it started, and `db` the tables once it has locked its rows.
  unfoldable pub claim_delivery : Db V → Db V → (ℕ → Bool) → ℤ → Db V × Option (DeliveryRow V)
  unfolding claim_row
  claim_delivery seen db locked now =
      claim_row (record db { drawn = db.drawn + 1 }) now (new_v4 db)
        (current_row db
          (first_by queue_order (retain (is_candidate seen db locked now) seen.deliveries)))

  -- `WHERE id=$ AND status='processing' AND lease_token=$`, with the token of the claim.
  abbrev pub holds_lease : DeliveryRow V → DeliveryRow V → Bool
  holds_lease delivery d =
      (d.id == delivery.id)
      && (in_status d.status processing
          && (is_some delivery.lease_token && opt_eq d.lease_token delivery.lease_token))

  unfoldable pub start_row : ℤ → DeliveryRow V → DeliveryRow V
  unfolding ◌+ℤ◌
  start_row now d = record d {
    attempts_count = d.attempts_count +ℤ pos 1;
    cycle_attempts = d.cycle_attempts +ℤ pos 1;
    updated_at = now;
  }

  abbrev pub holds_live_lease : ℤ → DeliveryRow V → DeliveryRow V → Bool
  holds_live_lease now delivery d =
      holds_lease delivery d && (elim d.lease_until [ none ↦ false | some until ↦ ltb_ℤ now until ])

  abbrev start_found : ℤ → Option (DeliveryRow V) → Option (DeliveryRow V)
  start_found now none = none
  start_found now (some d) = some (start_row now d)

  unfoldable pub start_delivery_attempt : Db V → DeliveryRow V → ℤ → Db V × Option (DeliveryRow V)
  unfolding start_row
  start_delivery_attempt db delivery now = (
    record db {
      deliveries = update_where (holds_live_lease now delivery) (start_row now) db.deliveries;
    },
    start_found now (find (holds_live_lease now delivery) db.deliveries),
  )
