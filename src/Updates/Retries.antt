-- ===== src/Updates/Retries.antt =====
-- backend/src/updates.rs: which attempts `admin_retry_agent_update` tries again.
use text.Mathlib.Text.{◌==◌ as str_eq}
use mathlib.Core.Option.{some-injective}
use mathlib.Core.List.{Memᴰ}
use operation_monitoring.Base.{
  ℕ, ◌≡◌, ◌∙◌, sym, subst, arith, true, ◌&&◌, some, ◌==◌, find, inl, inr, ◌⊎◌,
}
use operation_monitoring.Base.Int.{ℤ}
use operation_monitoring.Updates.Model.{
  Versions, ReleaseRow, AttemptRecord, InstanceRow, ArtifactRow, Fleet, RolloutState, canary_paused,
  full_paused, full_active, canary_active, included, ok, attempt_not_found, instance_not_found,
  no_candidate, superseded,
}
use operation_monitoring.Updates.Status.{is_upgrade}
use operation_monitoring.Updates.Attempts.{attempt_id_is, opt_eq}
use operation_monitoring.Updates.Eligibility.{Candidate, select_update_candidate, is_in}
use operation_monitoring.Updates.Instances.{
  require_latest_retry_candidate, retry_artifact, admin_retry_agent_update,
}
use operation_monitoring.Updates.Answers.{
  Ensures, Ensures-bind, result, ok_or-some, Ensures-require,
}
use operation_monitoring.Updates.Offers.{IsOpenTo, select_update_candidate-IsOffer}

-- The instance of the attempt is in the tables, and they hold its release open to that instance, with
-- the package of the attempt.
abbrev pub IsStillOffered : Fleet → AttemptRecord → Type 0
IsStillOffered seen a =
    (i : InstanceRow) × (r : ReleaseRow) × (p : ArtifactRow) × (find (λ x. x.id == a.instance_id)
        seen.instances
      ≡ some i)
    × IsOpenTo seen i r p
    × (r.id ≡ a.release_id)
    × (opt_eq (some p.id) a.artifact_id ≡ true)

module _ (v : Versions) (seen : Fleet) (a : AttemptRecord) where
  chosen-IsStillOffered :
      (i : InstanceRow) (c : Candidate v)
      → select_update_candidate v seen i ≡ some c
      → find (λ x. x.id == a.instance_id) seen.instances ≡ some i
      → ((c.release_id == a.release_id)
          && (opt_eq (some c.artifact_id) a.artifact_id && str_eq c.version a.target_version))
        ≡ true
      → IsStillOffered seen a
  chosen-IsStillOffered i c selected own same =
      let (r, p, is_open, release_id, version, artifact_id) =
        select_update_candidate-IsOffer v seen i c selected in
      let of_release : c.release_id ≡ a.release_id = ground arith in
      let of_package : opt_eq (some c.artifact_id) a.artifact_id ≡ true = ground arith in
      (
        i,
        r,
        p,
        own,
        is_open,
        sym release_id ∙ of_release,
        subst (λ k. opt_eq (some k) a.artifact_id ≡ true) artifact_id of_package,
      )

  latest-IsStillOffered :
      Ensures (λ _. IsStillOffered seen a) (require_latest_retry_candidate v seen a)
  unfolding require_latest_retry_candidate
  latest-IsStillOffered =
      Ensures-bind (λ _. IsStillOffered seen a) _ _
        (λ i read.
          Ensures-bind (λ _. IsStillOffered seen a) _ _
            (λ c selected.
              Ensures-require (λ _. IsStillOffered seen a) _ superseded
                (chosen-IsStillOffered i c (ok_or-some _ no_candidate c selected)
                  (ok_or-some _ instance_not_found i read))))

  retry_artifact-IsStillOffered :
      (db : Fleet)
      → is_upgrade a.operation ≡ true
      → Ensures (λ _. IsStillOffered seen a) (retry_artifact v seen db a)
  unfolding retry_artifact
  retry_artifact-IsStillOffered db is_up = rw is_up (
      Ensures-bind (λ _. IsStillOffered seen a) (require_latest_retry_candidate v seen a) _
        (λ u latest. result (λ _. IsStillOffered seen a) _ u latest-IsStillOffered latest))

paused_or_open :
    (s : RolloutState) (P : Type 0)
    → (s ≡ canary_paused) ⊎ (s ≡ full_paused)
    → (s ≡ full_active) ⊎ ((s ≡ canary_active) × P)
    → ⊥
paused_or_open s P (inl e) (inl e') = cc
paused_or_open s P (inl e) (inr (e', _)) = cc
paused_or_open s P (inr e) (inl e') = cc
paused_or_open s P (inr e) (inr (e', _)) = cc

-- What holds of every result of a retry of this attempt.
module _ (v : Versions) (seen db : Fleet) (attempt_id : ℕ) (now : ℤ) (a : AttemptRecord)
    (found : find (attempt_id_is attempt_id) db.attempts ≡ some a)
    (is_up : is_upgrade a.operation ≡ true) where
  retried-IsStillOffered :
      Ensures (λ _. IsStillOffered seen a) (admin_retry_agent_update v seen db attempt_id now)
  unfolding admin_retry_agent_update
  retried-IsStillOffered =
      let P : Fleet → Type 0 = λ _. IsStillOffered seen a in
      Ensures-bind P _ _ (λ _ _. Ensures-bind P _ _ (λ r _. Ensures-bind P _ _ (λ b read.
        Ensures-bind P _ _ (λ _ _. Ensures-bind P _ _ (λ _ _. Ensures-bind P _ _ (λ _ _.
          Ensures-bind P _ _ (λ _ _.
            Ensures-bind P (retry_artifact v seen db b) _ (λ artifact_id allowed.
              let same = some-injective b a (sym (ok_or-some _ attempt_not_found b read) ∙ found) in
              let offered =
                result (λ _. IsStillOffered seen a) _ artifact_id
                  (retry_artifact-IsStillOffered v seen a db is_up)
                  (subst (λ x. retry_artifact v seen db x ≡ ok artifact_id) same allowed) in
              Ensures-bind P _ _ (λ _ _. Ensures-bind P _ _ (λ _ _. offered))))))))))

  pub retried_upgrade-IsStillOffered :
      (out : Fleet)
      → admin_retry_agent_update v seen db attempt_id now ≡ ok out
      → IsStillOffered seen a
  retried_upgrade-IsStillOffered out h =
      result (λ _. IsStillOffered seen a) _ out retried-IsStillOffered h

  -- An upgrade of a release that is paused in the tables that the handler reads is never tried again.
  pub paused_upgrade_not_retried :
      ((r : ReleaseRow)
        → Memᴰ r seen.releases
        → r.id ≡ a.release_id
        → (r.rollout_state ≡ canary_paused) ⊎ (r.rollout_state ≡ full_paused))
      → (out : Fleet) → ¬ (admin_retry_agent_update v seen db attempt_id now ≡ ok out)
  paused_upgrade_not_retried held out h =
      let (i, r, p, _, is_open, release_id, _) = retried_upgrade-IsStillOffered out h in
      paused_or_open r.rollout_state (is_in seen included r.id i.id ≡ true)
        (held r is_open.release release_id) is_open.open_state
