-- ===== src/Alerts/Sound.antt =====
-- What the tables of backend/src/alerts.rs keep between two transactions: the unique indexes that
-- `ensure_schema` declares, which the code must never run into, and identifiers that were drawn.
use operation_monitoring.Base.{ℕ, ◌≤◌, All, count, List, ◌==◌}
pub use operation_monitoring.Base.Ids.{Distinct, IsDrawn, IsDrawn-later, fresh_id}
use operation_monitoring.Alerts.Model.{
  Db, EventRow, DeliveryRow, DeliveryKind, is_active_event, has_id,
}
use operation_monitoring.Alerts.Lifecycle.{deliverable_key}

module _ {V : Type 0} where
  -- `idx_alert_events_active`: one unresolved event for a rule and an instance.
  abbrev pub OneActive : List (EventRow V) → Type 0
  OneActive events =
      (rule_id instance_id : ℕ) → count (is_active_event rule_id instance_id) events ≤ 1

  abbrev pub OneId : List (EventRow V) → Type 0
  OneId events = (k : ℕ) → count (has_id k) events ≤ 1

  -- `idx_alert_deliveries_deliverable_lifecycle`: one delivery that is not suppressed for an event,
  -- a channel and a kind. With the primary key.
  pub record DeliveriesOk (uuids : ℕ → ℕ) (drawn : ℕ) (deliveries : List (DeliveryRow V))
      : Type 0 where
    pub one_each :
        (event_id channel_id : ℕ) (kind : DeliveryKind)
        → count (deliverable_key event_id channel_id kind) deliveries ≤ 1
    pub one_id : (k : ℕ) → count (λ d. d.id == k) deliveries ≤ 1
    pub drawn_ids : All (IsDrawn (λ d. d.id) uuids drawn) deliveries

  pub DeliveriesOk-later :
      (uuids : ℕ → ℕ) (m n : ℕ) (deliveries : List (DeliveryRow V))
      → m ≤ n
      → DeliveriesOk uuids m deliveries
      → DeliveriesOk uuids n deliveries
  DeliveriesOk-later uuids m n deliveries h ok = record {
    one_each = ok.one_each;
    one_id = ok.one_id;
    drawn_ids = IsDrawn-later (λ d. d.id) uuids m n deliveries h ok.drawn_ids;
  }

  pub record Sound (db : Db V) : Type 0 where
    pub one_active : OneActive db.events
    pub one_id : OneId db.events
    pub drawn_ids : All (IsDrawn (λ e. e.id) db.uuids db.drawn) db.events
    pub outgoing : DeliveriesOk db.uuids db.drawn db.deliveries
    pub distinct : Distinct db.uuids
