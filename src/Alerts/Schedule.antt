-- ===== src/Alerts/Schedule.antt =====
-- backend/src/alerts.rs: when a failed delivery is tried again (`finish_delivery_attempt`).
use Prim.Native.String.{String}
use operation_monitoring.Base.{
  ℕ, zero, suc, ◌+◌, ◌≡◌, refl, ap, ◌∙◌, Bool, true, false, Option, none, some, List, [], ◌∷◌,
  arith, not, ◌&&◌, find, update_where, find-update_same, any_of_find, get_elem?, ◌==◌, length,
  length-append,
}
use operation_monitoring.Base.Int.{ℤ, pos, ◌+ℤ◌}
use operation_monitoring.Alerts.Model.{DeliveryStatus, pending, failed, ChannelRow, DeliveryRow, Db}
use operation_monitoring.Alerts.Lifecycle.{is_firing_kind}
use operation_monitoring.Alerts.Delivery.{
  WebhookAttemptOutcome, holds_lease, delivery_id_is, retry_delay_after, in_status,
}
use operation_monitoring.Alerts.Completion.{
  finish_delivery_attempt, finish_row, retry_or_fail, retry_row, fail_row, cool_down, channel_row,
  event_is_resolved, inactive_channel_error,
}

-- After so many earlier attempts of the cycle: one minute, five, fifteen, an hour, then no more.
abbrev retry_delays : List ℕ
retry_delays = 60 ∷ 300 ∷ 900 ∷ 3600 ∷ []

abbrev in_seconds : ℤ → Option ℕ → DeliveryStatus × Option ℤ
in_seconds now none = (failed, none)
in_seconds now (some seconds) = (pending, some (now +ℤ pos seconds))

abbrev pub planned : ℤ → ℕ → DeliveryStatus × Option ℤ
planned now earlier = in_seconds now (get_elem? retry_delays earlier)

abbrev pub plan : {V : Type 0} → DeliveryRow V → DeliveryStatus × Option ℤ
plan d = (d.status, d.next_attempt_at)

plan-retry_or_fail :
    {V : Type 0} (error : String) (now : ℤ) (earlier : ℕ) (d : DeliveryRow V)
    → plan (retry_or_fail error now (retry_delay_after (pos (suc earlier))) d) ≡ planned now earlier
unfolding retry_or_fail retry_row fail_row retry_delay_after
plan-retry_or_fail error now zero d = refl
plan-retry_or_fail error now (suc zero) d = refl
plan-retry_or_fail error now (suc (suc zero)) d = refl
plan-retry_or_fail error now (suc (suc (suc zero))) d = refl
plan-retry_or_fail error now (suc (suc (suc (suc n)))) d = ground arith

Bool-and_false : (a : Bool) {b : Bool} → b ≡ false → (a && b) ≡ false
Bool-and_false a h = ground arith

module _ {V : Type 0} where
  -- The cooldown moves only deliveries that wait.
  find-cool_down :
      (db : Db V) (channel_id id : ℕ) (now : ℤ) (delay : Option ℤ) (d : DeliveryRow V)
      → find (delivery_id_is id) db.deliveries ≡ some d
      → in_status d.status pending ≡ false
      → find (delivery_id_is id) (cool_down db channel_id now delay).deliveries ≡ some d
  unfolding cool_down
  find-cool_down db channel_id id now none d h e = h
  find-cool_down db channel_id id now (some delay) d h e =
      find-update_same (delivery_id_is id) _ _ (λ x _. refl) db.deliveries
      ∙ rw (h, Bool-and_false (d.channel_id == channel_id) e) refl

  -- A leased delivery is not pending.
  leased :
      (delivery d : DeliveryRow V)
      → holds_lease delivery d ≡ true
      → in_status d.status pending ≡ false
  leased delivery d h = ground arith

  attempts-cool_down :
      (db : Db V) (channel_id : ℕ) (now : ℤ) (delay : Option ℤ)
      → (cool_down db channel_id now delay).attempts ≡ db.attempts
  unfolding cool_down
  attempts-cool_down db channel_id now none = refl
  attempts-cool_down db channel_id now (some delay) = refl

  given_up :
      (error : String) (now : ℤ) (delay : Option ℤ) (d : DeliveryRow V)
      → (retry_or_fail error now delay d).lease_token ≡ none
  unfolding retry_or_fail retry_row fail_row
  given_up error now none d = refl
  given_up error now (some delay) d = refl

  failed_row :
      (delivery d : DeliveryRow V) (outcome : WebhookAttemptOutcome) (now : ℤ) (earlier : ℕ)
      (event_resolved : Bool) (inactive : Option String)
      → outcome.succeeded ≡ false
      → delivery.cycle_attempts ≡ pos (suc earlier)
      → event_resolved ≡ false
      → inactive ≡ none
      → (plan (finish_row delivery outcome event_resolved inactive now d) ≡ planned now earlier)
        × ((finish_row delivery outcome event_resolved inactive now d).lease_token ≡ none)
  unfolding finish_row
  failed_row delivery d outcome now earlier event_resolved inactive failure cycle unresolved
        working =
      rw (failure, cycle, unresolved, working)
        (plan-retry_or_fail outcome.error now earlier d, given_up outcome.error now _ d)

  finish_row_id :
      (delivery d : DeliveryRow V) (outcome : WebhookAttemptOutcome) (event_resolved : Bool)
      (inactive : Option String) (now : ℤ)
      → (finish_row delivery outcome event_resolved inactive now d).id ≡ d.id
  unfolding finish_row
  finish_row_id delivery d outcome event_resolved inactive now = ground arith

  active_channel :
      (db : Db V) (c : ChannelRow) (channel_id : ℕ)
      → channel_row db channel_id ≡ some c
      → c.enabled ≡ true
      → c.deleted_at ≡ none
      → inactive_channel_error (channel_row db channel_id) ≡ none
  active_channel db c channel_id row enabled kept = rw (row, enabled, kept) refl

  find-held :
      (delivery d : DeliveryRow V) (f : DeliveryRow V → DeliveryRow V) (ds : List (DeliveryRow V))
      → ((x : DeliveryRow V) → (f x).id ≡ x.id)
      → find (delivery_id_is delivery.id) ds ≡ some d
      → holds_lease delivery d ≡ true
      → find (delivery_id_is delivery.id) (update_where (holds_lease delivery) f ds) ≡ some (f d)
  find-held delivery d f ds keeps found held =
      find-update_same (delivery_id_is delivery.id) (holds_lease delivery) f
        (λ x _. ap (λ k. k == delivery.id) (keeps x)) ds
      ∙ rw (found, held) refl

  -- An attempt that failed, by the worker that holds the lease of the delivery, for an event that is
  -- not resolved, on a channel that is enabled and not deleted, where `earlier` attempts of the cycle
  -- came before it: the lease is given up, the attempt is recorded, and the delivery waits for one,
  -- five, fifteen or sixty minutes after the first four attempts and has failed after any later one.
  pub failed_attempt_is_rescheduled :
      (db : Db V) (delivery d : DeliveryRow V) (c : ChannelRow) (outcome : WebhookAttemptOutcome)
      (now : ℤ) (earlier : ℕ)
      → find (delivery_id_is delivery.id) db.deliveries ≡ some d
      → holds_lease delivery d ≡ true
      → delivery.cycle_attempts ≡ pos (suc earlier)
      → outcome.succeeded ≡ false
      → event_is_resolved db delivery.event_id ≡ false
      → channel_row db delivery.channel_id ≡ some c
      → c.enabled ≡ true
      → c.deleted_at ≡ none
      → (out : DeliveryRow V) × (find
            (delivery_id_is delivery.id)
            (finish_delivery_attempt db delivery outcome now).deliveries
          ≡ some out)
        × (plan out ≡ planned now earlier)
        × (out.lease_token ≡ none)
        × (length (finish_delivery_attempt db delivery outcome now).attempts
            ≡ length db.attempts + 1)
  unfolding finish_delivery_attempt finish_row
  failed_attempt_is_rescheduled db delivery d c outcome now earlier found held cycle failure
        unresolved row enabled kept =
      let inactive = inactive_channel_error (channel_row db delivery.channel_id) in
      let event_resolved =
        not outcome.succeeded
        && (is_firing_kind delivery.kind && event_is_resolved db delivery.event_id) in
      let unresolved_flag : event_resolved ≡ false = ground (arith, unresolved) in
      let (done, released) =
        failed_row delivery d outcome now earlier event_resolved inactive failure cycle
          unresolved_flag (active_channel db c delivery.channel_id row enabled kept) in
      rw (any_of_find _ (holds_lease delivery) db.deliveries d found held) (
        finish_row delivery outcome event_resolved inactive now d,
        find-held delivery d _ _ (λ x. finish_row_id delivery x outcome event_resolved inactive now)
            (find-cool_down _ delivery.channel_id delivery.id now _ d found
              (leased delivery d held))
            held,
        done,
        released,
        ap length (attempts-cool_down _ delivery.channel_id now _) ∙ length-append db.attempts _,
      )
