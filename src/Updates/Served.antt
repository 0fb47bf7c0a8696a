-- ===== src/Updates/Served.antt =====
-- backend/src/updates.rs: what the offer to an agent holds (`find_update_for_instance`).
use text.Mathlib.Text.{◌==◌ as str_eq}
use mathlib.Core.Option.{some-injective}
use operation_monitoring.Base.{
  ℕ, ◌≡◌, refl, arith, subst, Bool, true, false, ◌||◌, not, Option, none, some, is_some, if-holds,
  find-holds, find,
}
use operation_monitoring.Base.Int.{ℤ}
use operation_monitoring.Updates.Model.{
  Versions, TargetOs, ArtifactRow, InstanceRow, Fleet, pending,
}
use operation_monitoring.Updates.Status.{is_status, is_active_rollout}
use operation_monitoring.Updates.Eligibility.{
  same_os, is_empty, update_target_os, target_matches, select_update_candidate, Candidate,
  published_artifacts,
}
use operation_monitoring.Updates.Offering.{
  RetriedUpdateCandidate, AgentUpdateOffer, active_candidate, active_offer_matches_instance,
  is_rematchable, replacement, rematch_attempt, deliver_upgrade, rematched, take_package, if_one,
  delivered, with_offer, offer_from, active_upgrade_offer,
}
use operation_monitoring.Updates.Polls.{
  insert_offered, offer_inserted, new_offer, unless_offered, find_update_for_instance,
}

-- The instance may replace itself, and the package is for its system, in its format and for its
-- architecture.
abbrev pub Suits : InstanceRow → AgentUpdateOffer → Type 0
Suits i o =
    (i.update_privileged ≡ true)
    × (update_target_os i.package_type i.os ≡ some o.target_os)
    × (str_eq o.package_type i.package_type ≡ true)
    × (str_eq o.native_arch i.native_arch ≡ true)
    × (o.instance_id ≡ i.id)

-- Of a result that may be nothing.
abbrev Holds : {A : Type 0} → (A → Type 0) → Fleet × Option A → Type 0
Holds P (db, none) = Unit
Holds P (db, some a) = P a

same_os-eq : (a b : TargetOs) → same_os a b ≡ true → a ≡ b
same_os-eq a b h = ground arith

module _ (i : InstanceRow) where
  abbrev Matches : RetriedUpdateCandidate → Type 0
  Matches c = target_matches i.os i.package_type i.native_arch c.artifact ≡ true

  if_one-Matches :
      (c : RetriedUpdateCandidate) (p : Fleet × Bool) → Matches c → Holds Matches (if_one c p)
  if_one-Matches c (db, true) h = h
  if_one-Matches c (db, false) h = tt

  take_package-Matches :
      (db : Fleet) (c : RetriedUpdateCandidate) (o : Option ArtifactRow) (now : ℤ)
      → ((a : ArtifactRow) → o ≡ some a → target_matches i.os i.package_type i.native_arch a ≡ true)
      → Holds Matches (take_package db c o now)
  take_package-Matches db c none now h = tt
  take_package-Matches db c (some a) now h =
      if_one-Matches _ (rematch_attempt db c.attempt_id c.status a.id now) (h a refl)

  rematched-Matches :
      (seen db : Fleet) (c : RetriedUpdateCandidate) (now : ℤ)
      → Holds Matches (rematched seen db i c now)
  unfolding rematched active_offer_matches_instance replacement
  rematched-Matches seen db c now =
      if-holds (Holds Matches) (target_matches i.os i.package_type i.native_arch c.artifact) _ _
        (λ fits. fits)
        (λ _.
          if-holds (Holds Matches) (not (is_rematchable c.status)) _ _ (λ _. tt)
            (λ _.
              take_package-Matches db c
                (find (target_matches i.os i.package_type i.native_arch)
                  (published_artifacts seen c.release_id))
                now
                (λ a found.
                  find-holds (target_matches i.os i.package_type i.native_arch)
                    (published_artifacts seen c.release_id) a found)))

  delivered-Matches :
      (now : ℤ) (p : Fleet × Option RetriedUpdateCandidate)
      → Holds Matches p
      → Holds Matches (delivered now p)
  unfolding delivered
  delivered-Matches now (db, none) h = tt
  delivered-Matches now (db, some c) h =
      if-holds (Holds Matches) (not (is_status c.status pending)) _ _ (λ _. h)
        (λ _.
          if-holds (Holds Matches) (not (is_active_rollout c.rollout_state)) _ _ (λ _. tt)
            (λ _. if_one-Matches c (deliver_upgrade db c.attempt_id now) h))

  os-of :
      (a : ArtifactRow) (o : Option TargetOs)
      → update_target_os i.package_type i.os ≡ o
      → target_matches i.os i.package_type i.native_arch a ≡ true
      → o ≡ some a.os
  unfolding target_matches
  os-of a none e h = let h' = rw e at h in absurd (cc)
  os-of a (some os) e h =
      let h' = rw e at h in
      let same : same_os a.os os ≡ true = ground (arith, h') in rw (same_os-eq a.os os same) refl

  with_offer-Suits :
      (p : Fleet × Option RetriedUpdateCandidate)
      → i.update_privileged ≡ true
      → Holds Matches p
      → Holds (Suits i) (with_offer i p)
  unfolding with_offer target_matches
  with_offer-Suits (db, none) may h = tt
  with_offer-Suits (db, some c) may h =
      (may, os-of c.artifact _ refl h, ground (arith, h), ground (arith, h), refl)

  offer_from-Suits :
      (seen db : Fleet) (o : Option RetriedUpdateCandidate) (now : ℤ)
      → i.update_privileged ≡ true
      → Holds (Suits i) (offer_from seen db i o now)
  unfolding offer_from
  offer_from-Suits seen db none now may = tt
  offer_from-Suits seen db (some c) now may =
      with_offer-Suits _ may (delivered-Matches now _ (rematched-Matches seen db c now))

  active_upgrade_offer-Suits :
      (seen db : Fleet) (attempt_id : Option ℕ) (now : ℤ)
      → Holds (Suits i) (active_upgrade_offer seen db i attempt_id now)
  unfolding active_upgrade_offer
  active_upgrade_offer-Suits seen db attempt_id now =
      if-holds (Holds (Suits i))
        (not i.update_privileged
          || (not (is_some (update_target_os i.package_type i.os)) || is_empty i.native_arch))
        _ _ (λ _. tt)
        (λ may.
          offer_from-Suits seen db (active_candidate seen i attempt_id) now (ground (arith, may)))

  module _ (v : Versions) where
    offer_inserted-Suits :
        (attempt_id : ℕ) (now : ℤ) (p : Fleet × Bool)
        → Holds (Suits i) (offer_inserted v i attempt_id now p)
    offer_inserted-Suits attempt_id now (db, true) =
        active_upgrade_offer-Suits db db (some attempt_id) now
    offer_inserted-Suits attempt_id now (db, false) = tt

    new_offer-Suits :
        (db : Fleet) (now : ℤ) (o : Option (Candidate v)) → Holds (Suits i) (new_offer v db i now o)
    new_offer-Suits db now none = tt
    new_offer-Suits db now (some c) = offer_inserted-Suits _ now (insert_offered v db i c now)

    unless_offered-Suits :
        (seen : Fleet) (now : ℤ) (p : Fleet × Option AgentUpdateOffer)
        → Holds (Suits i) p
        → Holds (Suits i) (unless_offered v seen i now p)
    unfolding unless_offered
    unless_offered-Suits seen now (db, some o) h = h
    unless_offered-Suits seen now (db, none) h =
        new_offer-Suits db now (select_update_candidate v seen i)

    poll-Suits :
        (seen db : Fleet) (now : ℤ) → Holds (Suits i) (find_update_for_instance v seen db i now)
    unfolding find_update_for_instance
    poll-Suits seen db now =
        unless_offered-Suits seen now _ (active_upgrade_offer-Suits seen db none now)

held : {A : Type 0} (P : A → Type 0) (p : Fleet × Option A) (a : A) → Holds P p → p.1 ≡ some a → P a
held P (db, none) a h e = absurd (cc)
held P (db, some b) a h e = subst P (some-injective b a e) h

-- Whatever an agent is offered when it asks for an update, as a new upgrade or one under way, and
-- whatever other tables were read for it, suits the instance as it is now: it may replace itself,
-- and the package is for its system, in its format and for its architecture.
pub find_update_for_instance-Suits :
    (v : Versions) (seen db : Fleet) (i : InstanceRow) (now : ℤ) (o : AgentUpdateOffer)
    → (find_update_for_instance v seen db i now).1 ≡ some o
    → Suits i o
find_update_for_instance-Suits v seen db i now o h =
    held (Suits i) (find_update_for_instance v seen db i now) o (poll-Suits i v seen db now) h
