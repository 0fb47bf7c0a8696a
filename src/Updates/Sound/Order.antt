-- ===== src/Updates/Sound/Order.antt =====
-- backend/src/updates.rs: the order in which the status of an attempt moves
-- (`update_status_transition_allowed`).
use operation_monitoring.Base.{◌≡◌, ◌∙◌, refl, sym, true, ◌&&◌, leb, ==_iff}
use operation_monitoring.Updates.Model.{
  AttemptStatus, pending, waiting, downloading, verifying, waiting_idle, installing,
  awaiting_restart, succeeded, rollback_succeeded, failed, cancelled, unknown, Operation, upgrade,
  rollback,
}
use operation_monitoring.Updates.Status.{
  status_code, is_status, is_terminal, update_status_transition_allowed,
}
use operation_monitoring.Updates.Attempts.{confirmed_status}

terminal_code :
    (s : AttemptStatus) → is_terminal s ≡ (leb 7 (status_code s) && leb (status_code s) 10)
terminal_code pending = refl
terminal_code waiting = refl
terminal_code downloading = refl
terminal_code verifying = refl
terminal_code waiting_idle = refl
terminal_code installing = refl
terminal_code awaiting_restart = refl
terminal_code succeeded = refl
terminal_code rollback_succeeded = refl
terminal_code failed = refl
terminal_code cancelled = refl
terminal_code unknown = refl

pub same_terminal :
    (s t : AttemptStatus) → is_status s t ≡ true → is_terminal s ≡ true → is_terminal t ≡ true
same_terminal s t same over =
    let codes = (==_iff (status_code s) (status_code t)).0 same in
    terminal_code t ∙ rw (sym codes) (sym (terminal_code s) ∙ over)

-- A final status is left for no other one.
pub ends_again :
    (s t : AttemptStatus)
    → update_status_transition_allowed s t ≡ true
    → is_terminal s ≡ true
    → is_terminal t ≡ true
unfolding update_status_transition_allowed
ends_again s t allowed over = same_terminal s t (rw over at allowed) over

pub confirmed_ends : (o : Operation) → is_terminal (confirmed_status o) ≡ true
confirmed_ends upgrade = refl
confirmed_ends rollback = refl
