-- ===== src/Updates/Sound/Offering.antt =====
-- backend/src/updates.rs: the writes behind an offer keep the tables sound.
use operation_monitoring.Base.{
  ℕ, ◌≡◌, ◌∙◌, refl, sym, arith, Bool, true, false, any, update_where, All-update_under, if-holds,
  count-update_le, count-update_same,
}
use operation_monitoring.Base.Int.{ℤ}
use operation_monitoring.Updates.Model.{
  Versions, AttemptStatus, pending, AttemptRecord, InstanceRow, Fleet,
}
use operation_monitoring.Updates.Status.{is_terminal, is_status}
use operation_monitoring.Updates.Attempts.{attempt_id_is}
use operation_monitoring.Updates.Eligibility.{Candidate}
use operation_monitoring.Updates.Rollback.{is_active_of, is_rollback_for, is_upgrade_to}
use operation_monitoring.Updates.Offering.{
  is_rematched, rematch_row, rematch_attempt, is_deliverable, delivered_row, deliver_upgrade,
  reconciled_status, is_rematchable,
}
use operation_monitoring.Updates.Polls.{
  offered_attempt, insert_offered, is_pending_id, deliver_rollback,
}
use operation_monitoring.Updates.Sound.{
  IsStamped, Keeps, keeps_id, keeps_rollback, keeps_drawn, Sound,
}
use operation_monitoring.Updates.Sound.Reports.{Sound-attempts}
use operation_monitoring.Updates.Sound.Queues.{SoundFirst, Sound-drawn, insert_attempt-Sound}

-- Rows that are not over move to where they are not over either.
module _ (f : AttemptRecord → AttemptRecord) (keeps : Keeps f) (q : AttemptRecord → Bool)
    (was_open : (a : AttemptRecord) → q a ≡ true → is_terminal a.status ≡ false)
    (stamps : (a : AttemptRecord) → q a ≡ true → IsStamped a → IsStamped (f a)) where
  open_before :
      (k : ℕ) (a : AttemptRecord)
      → q a ≡ true
      → is_active_of k (f a) ≡ true
      → is_active_of k a ≡ true
  open_before k a hit e =
      let still = was_open a hit in let e' = rw (keeps.instance_id a) at e in ground arith

  moved-Sound :
      (db : Fleet) → Sound db → Sound (record db { attempts = update_where q f db.attempts })
  moved-Sound db sound =
      let ok = sound.attempts_ok in
      Sound-attempts db _
        (record {
          one_active = λ k. omega (
            arith,
            count-update_le (is_active_of k) q f (λ a hit. open_before k a hit) db.attempts,
            ok.one_active k,
          );
          one_rollback = λ k.
              rw
                (count-update_same (is_rollback_for k) q f
                  (λ a _. keeps_rollback db.uuids db.drawn f keeps k a) db.attempts)
                (ok.one_rollback k);
          one_id = λ k.
              rw
                (count-update_same (attempt_id_is k) q f
                  (λ a _. keeps_id db.uuids db.drawn f keeps k a) db.attempts)
                (ok.one_id k);
          stamped = All-update_under IsStamped q f stamps db.attempts ok.stamped;
          drawn_ids = keeps_drawn db.uuids db.drawn f keeps q db.attempts ok.drawn_ids;
        })
        sound

rematchable_open : (s : AttemptStatus) → is_rematchable s ≡ true → is_terminal s ≡ false
rematchable_open s h = ground arith

reconciled_open : (s : AttemptStatus) → is_terminal (reconciled_status s) ≡ false
reconciled_open s = ground arith

pending_open :
    (a : AttemptRecord) → is_status a.status pending ≡ true → is_terminal a.status ≡ false
pending_open a h = ground arith

pub rematch_attempt-Sound :
    (db : Fleet) (attempt_id : ℕ) (status : AttemptStatus) (artifact_id : ℕ) (now : ℤ)
    → Sound db
    → Sound (rematch_attempt db attempt_id status artifact_id now).0
unfolding rematch_attempt
rematch_attempt-Sound db attempt_id status artifact_id now sound =
    moved-Sound (rematch_row artifact_id status now)
      (record {
        id = λ a. refl;
        instance_id = λ a. refl;
        operation = λ a. refl;
        parent_attempt_id = λ a. refl;
      })
      (is_rematched attempt_id status) (λ a hit. rematchable_open a.status (ground arith))
      (λ a hit (stamp, few).
        (stamp ∙ (rematchable_open a.status (ground arith) ∙ sym (reconciled_open status)), few))
      db sound

delivered_row-Keeps : (now : ℤ) → Keeps (delivered_row now)
delivered_row-Keeps now = record {
  id = λ a. refl;
  instance_id = λ a. refl;
  operation = λ a. refl;
  parent_attempt_id = λ a. refl;
}

pub deliver_upgrade-Sound :
    (db : Fleet) (attempt_id : ℕ) (now : ℤ) → Sound db → Sound (deliver_upgrade db attempt_id now).0
unfolding deliver_upgrade
deliver_upgrade-Sound db attempt_id now sound =
    moved-Sound (delivered_row now) (delivered_row-Keeps now) (is_deliverable db attempt_id)
      (λ a hit. pending_open a (ground arith))
      (λ a hit (stamp, few). (stamp ∙ pending_open a (ground arith), few)) db sound

pub deliver_rollback-Sound :
    (db : Fleet) (attempt_id : ℕ) (now : ℤ)
    → Sound db
    → Sound (deliver_rollback db attempt_id now).0
unfolding deliver_rollback
deliver_rollback-Sound db attempt_id now sound =
    moved-Sound (delivered_row now) (delivered_row-Keeps now) (is_pending_id attempt_id)
      (λ a hit. pending_open a (ground arith))
      (λ a hit (stamp, few). (stamp ∙ pending_open a (ground arith), few)) db sound

pub insert_offered-Sound :
    (v : Versions) (db : Fleet) (i : InstanceRow) (c : Candidate v) (now : ℤ)
    → Sound db
    → Sound (insert_offered v db i c now).0
unfolding insert_offered
insert_offered-Sound v db i c now sound =
    if-holds SoundFirst (any (is_upgrade_to c.release_id i.id) db.attempts) _ _
      (λ _. Sound-drawn db sound)
      (λ _. insert_attempt-Sound db (offered_attempt v db i c now) refl (refl, refl) sound)
