-- ===== src/Alerts/History.antt =====
-- backend/src/alerts.rs: every order of the transactions that `Step` lists, from an empty database on.
use Prim.Native.String.{String}
use operation_monitoring.Base.{ℕ, ◌≡◌, ◌≤◌, arith, Bool, Option, List, [], count}
use operation_monitoring.Base.Int.{ℤ}
use operation_monitoring.Alerts.Model.{
  F64, RuleRow, Instance, MaintenanceRow, ChannelRow, DeliveryKind, DeliveryRow, EvaluationRow,
  SuppressionReason, Db, is_active_event,
}
use operation_monitoring.Alerts.Observation.{RuleObservation}
use operation_monitoring.Alerts.Lifecycle.{deliverable_key}
use operation_monitoring.Alerts.Resolution
use operation_monitoring.Alerts.Resolution.{
  resolve_rule_events_tx, resolve_instance, reset_metric_pending_states, acknowledge_event_tx,
  refresh_active_suppression_states,
}
use operation_monitoring.Alerts.Resolution.Soundness.{
  resolve_rule_events_tx-Sound, resolve_instance-Sound, reset_metric_pending_states-Sound,
  acknowledge_event_tx-Sound, refresh_active_suppression_states-Sound,
}
use operation_monitoring.Alerts.Evaluation.{process_rule_observation}
use operation_monitoring.Alerts.Evaluation.Soundness.{process_rule_observation-Sound}
use operation_monitoring.Alerts.Delivery
use operation_monitoring.Alerts.Delivery.{
  WebhookAttemptOutcome, claim_delivery, start_delivery_attempt,
}
use operation_monitoring.Alerts.Delivery.Soundness.{
  claim_delivery-Sound, start_delivery_attempt-Sound,
}
use operation_monitoring.Alerts.Completion.{
  release_delivery_claim, mark_delivery_suppressed, finish_delivery_attempt,
  reset_failed_delivery_tx,
}
use operation_monitoring.Alerts.Completion.Soundness.{
  release_delivery_claim-Sound, mark_delivery_suppressed-Sound, finish_delivery_attempt-Sound,
  reset_failed_delivery_tx-Sound,
}
use operation_monitoring.Alerts.Sound.{Distinct, Sound}

module _ (f : F64) where
  -- One transaction. The arguments of each are free: any worker may act on any delivery that it
  -- has read, also on one whose lease is gone. `configures` is whatever administrators change,
  -- and the evaluation states that this deletes.
  pub data Step : Db f.Value → Db f.Value → Type 0 where
    observes :
        (db : Db f.Value) (online : Bool) (r : RuleRow f.Value) (instance_id : ℕ)
        (observation : RuleObservation f.Value) (observed_at sample_at : ℤ)
        → Step db
            (process_rule_observation f db online r instance_id observation observed_at sample_at)
    resolves_rule :
        (db : Db f.Value) (rule_id : ℕ) (now : ℤ) (reason : String)
        → Step db (resolve_rule_events_tx db rule_id now reason)
    resolves_instance :
        (db : Db f.Value) (instance_id : ℕ) (now : ℤ) (reason : String)
        → Step db (resolve_instance db instance_id now reason)
    resets_pending :
        (db : Db f.Value) (instance_id : Option ℕ)
        → Step db (reset_metric_pending_states db instance_id)
    acknowledges :
        (db out : Db f.Value) (id : ℕ) (username user_id text : String) (now : ℤ)
        → acknowledge_event_tx db id username user_id text now ≡ Resolution.ok out
        → Step db out
    refreshes : (db : Db f.Value) (now : ℤ) → Step db (refresh_active_suppression_states db now)
    claims :
        (seen db : Db f.Value) (locked : ℕ → Bool) (now : ℤ)
        → Step db (claim_delivery seen db locked now).0
    starts :
        (db : Db f.Value) (delivery : DeliveryRow f.Value) (now : ℤ)
        → Step db (start_delivery_attempt db delivery now).0
    releases :
        (db : Db f.Value) (delivery : DeliveryRow f.Value) (retry_at : ℤ)
        → Step db (release_delivery_claim db delivery retry_at)
    suppresses :
        (db : Db f.Value) (delivery : DeliveryRow f.Value) (reason : SuppressionReason) (now : ℤ)
        → Step db (mark_delivery_suppressed db delivery reason now)
    finishes :
        (db : Db f.Value) (delivery : DeliveryRow f.Value) (outcome : WebhookAttemptOutcome)
        (now : ℤ)
        → Step db (finish_delivery_attempt db delivery outcome now)
    retries :
        (db out : Db f.Value) (id : ℕ) (now : ℤ)
        → reset_failed_delivery_tx db id now ≡ Delivery.ok out
        → Step db out
    configures :
        (db : Db f.Value) (rules : List (RuleRow f.Value))
        (rule_targets rule_channels : List (ℕ × ℕ)) (instances : List Instance)
        (windows : List MaintenanceRow) (window_targets : List (ℕ × ℕ)) (channels : List ChannelRow)
        (states : List (EvaluationRow f.Value))
        → Step db (record db {
          rules = rules;
          rule_targets = rule_targets;
          rule_channels = rule_channels;
          instances = instances;
          windows = windows;
          window_targets = window_targets;
          channels = channels;
          states = states;
        })

  pub data Reach (db : Db f.Value) : Db f.Value → Type 0 where
    here : Reach db db
    next : {a b : Db f.Value} → Reach db a → Step a b → Reach db b

  Step-Sound : {a b : Db f.Value} → Step a b → Sound a → Sound b
  Step-Sound (observes db online r i o observed_at sample_at) s =
      process_rule_observation-Sound f db online r i o observed_at sample_at s
  Step-Sound (resolves_rule db rule_id now reason) s =
      resolve_rule_events_tx-Sound db rule_id now reason s
  Step-Sound (resolves_instance db i now reason) s = resolve_instance-Sound db i now reason s
  Step-Sound (resets_pending db i) s = reset_metric_pending_states-Sound db i s
  Step-Sound (acknowledges db out id username user_id text now h) s =
      acknowledge_event_tx-Sound db id username user_id text now h s
  Step-Sound (refreshes db now) s = refresh_active_suppression_states-Sound db now s
  Step-Sound (claims seen db locked now) s = claim_delivery-Sound seen db locked now s
  Step-Sound (starts db delivery now) s = start_delivery_attempt-Sound db delivery now s
  Step-Sound (releases db delivery retry_at) s = release_delivery_claim-Sound db delivery retry_at s
  Step-Sound (suppresses db delivery reason now) s =
      mark_delivery_suppressed-Sound db delivery reason now s
  Step-Sound (finishes db delivery outcome now) s =
      finish_delivery_attempt-Sound db delivery outcome now s
  Step-Sound (retries db out id now h) s = reset_failed_delivery_tx-Sound db id now h s
  Step-Sound (configures db rules rt rc instances windows wt channels states) s = record {
    one_active = s.one_active;
    one_id = s.one_id;
    drawn_ids = s.drawn_ids;
    outgoing = s.outgoing;
    distinct = s.distinct;
  }

  pub Reach-Sound : {a b : Db f.Value} → Reach a b → Sound a → Sound b
  Reach-Sound here s = s
  Reach-Sound (next r st) s = Step-Sound st (Reach-Sound r s)

  unfoldable pub empty : (ℕ → ℕ) → Db f.Value
  empty uuids = record {
    rules = [];
    rule_targets = [];
    rule_channels = [];
    instances = [];
    states = [];
    events = [];
    event_channels = [];
    timeline = [];
    windows = [];
    window_targets = [];
    channels = [];
    deliveries = [];
    attempts = [];
    uuids = uuids;
    drawn = 0;
  }

  pub empty-Sound : (uuids : ℕ → ℕ) → Distinct uuids → Sound (empty uuids)
  unfolding empty
  empty-Sound uuids distinct = record {
    one_active = λ r i. omega arith;
    one_id = λ k. omega arith;
    drawn_ids = tt;
    outgoing = record {
      one_each = λ e c k. omega arith;
      one_id = λ k. omega arith;
      drawn_ids = tt;
    };
    distinct = distinct;
  }

  -- In every database reached from the empty one, by transactions of `Step` in any order and with
  -- identifiers that do not repeat: each rule has at most one unresolved event for each instance,
  -- and each event has at most one delivery that is not suppressed for each channel and kind. So the
  -- two unique indexes are never violated.
  pub unique_indexes_hold :
      (uuids : ℕ → ℕ) (db : Db f.Value)
      → Distinct uuids
      → Reach (empty uuids) db
      → ((rule_id instance_id : ℕ) → count (is_active_event rule_id instance_id) db.events ≤ 1)
        × ((event_id channel_id : ℕ) (kind : DeliveryKind)
            → count (deliverable_key event_id channel_id kind) db.deliveries ≤ 1)
  unique_indexes_hold uuids db distinct r =
      let s = Reach-Sound r (empty-Sound uuids distinct) in (s.one_active, s.outgoing.one_each)
