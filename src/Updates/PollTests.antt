-- ===== src/Updates/PollTests.antt =====
-- backend/src/updates.rs: the agent of Fixtures asks for its update.
use operation_monitoring.Base.{◌≡◌, refl, ap, some, none, [], ◌∷◌}
use operation_monitoring.Base.Int.{pos}
use operation_monitoring.Updates.Model.{
  for_linux, macos, for_macos, waiting, downloading, AttemptRecord, InstanceRow, ArtifactRow, Fleet,
}
use operation_monitoring.Updates.Eligibility.{
  update_target_os, target_matches, candidates, best, select_update_candidate,
}
use operation_monitoring.Updates.Rollback.{insert_attempt}
use operation_monitoring.Updates.Offering.{
  AgentUpdateOffer, joined, active_candidate, active_offer_matches_instance, replacement,
  rematch_attempt, deliver_upgrade, rematched, delivered, with_offer, offer_from,
  active_upgrade_offer,
}
use operation_monitoring.Updates.Polls.{insert_offered, unless_offered, find_update_for_instance}
use operation_monitoring.Updates.Served.{Suits, find_update_for_instance-Suits}
use operation_monitoring.Updates.Fixtures.{
  digits, agent, live, failing, first_upgrade, live_package,
}

abbrev offer : AgentUpdateOffer
offer = record {
  attempt_id = 2;
  instance_id = 7;
  release_id = 0;
  version = "2";
  artifact_id = 1;
  package_type = "standalone";
  native_arch = "x86_64";
  target_os = for_linux;
  retry_count = pos 0;
}

-- The pending attempt is delivered.
abbrev handed_over : Fleet
handed_over = record live {
  attempts = record first_upgrade { status = waiting; updated_at = pos 25 } ∷ [];
}

delivers_it : find_update_for_instance digits live live agent (pos 25) ≡ (handed_over, some offer)
unfolding find_update_for_instance unless_offered active_upgrade_offer active_candidate joined
    offer_from rematched delivered with_offer active_offer_matches_instance deliver_upgrade
    target_matches update_target_os
delivers_it = refl

find_update_for_instance-Suits_example : Suits agent offer
find_update_for_instance-Suits_example =
    find_update_for_instance-Suits digits live live agent (pos 25) offer (ap (λ p. p.1) delivers_it)

-- Without an attempt one is inserted, and delivered at once.
abbrev unqueued : Fleet
unqueued = record live { attempts = []; drawn = 2 }

inserts_it : (find_update_for_instance digits unqueued unqueued agent (pos 25)).1 ≡ some offer
unfolding find_update_for_instance unless_offered active_upgrade_offer active_candidate joined
    offer_from rematched delivered with_offer active_offer_matches_instance deliver_upgrade
    target_matches update_target_os insert_offered insert_attempt select_update_candidate candidates
    best
inserts_it = refl

-- An attempt that has failed stands in the way of a new one for its release.
not_again : (find_update_for_instance digits failing failing agent (pos 35)).1 ≡ none
unfolding find_update_for_instance unless_offered active_upgrade_offer active_candidate joined
    offer_from rematched delivered with_offer active_offer_matches_instance deliver_upgrade
    target_matches update_target_os insert_offered insert_attempt select_update_candidate candidates
    best
not_again = refl

-- The agent that downloads its package has become another system: it gets the package for that one,
-- and waits again.
abbrev mac_package : ArtifactRow
mac_package = record live_package { id = 9; os = for_macos }

abbrev on_mac : InstanceRow
on_mac = record agent { os = macos }

abbrev fetching : AttemptRecord
fetching = record first_upgrade { status = downloading }

abbrev moving : Fleet
moving = record live { artifacts = live_package ∷ mac_package ∷ []; attempts = fetching ∷ [] }

abbrev moved : Fleet
moved = record moving {
  attempts =
      record fetching {
        artifact_id = some 9;
        status = waiting;
        message = "实例能力变化，已重新匹配更新包";
        updated_at = pos 25;
      }
      ∷ [];
}

rematches_it :
    active_upgrade_offer moving moving on_mac none (pos 25)
    ≡ (moved, some (record offer { artifact_id = 9; target_os = for_macos }))
unfolding active_upgrade_offer active_candidate joined offer_from rematched delivered with_offer
    active_offer_matches_instance replacement rematch_attempt deliver_upgrade target_matches
    update_target_os
rematches_it = refl
