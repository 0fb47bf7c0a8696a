-- ===== src/Updates/Offers.antt =====
-- backend/src/updates.rs: the candidate for a new upgrade of an instance, when none is under way
-- (`select_update_candidate`).
use mathlib.Core.Option.{some-injective}
use mathlib.Core.List.{Memᴰ}
use mathlib.Core.List.Memᴰ.{head, tail}
use operation_monitoring.Base.{
  ◌≡◌, ◌==◌, refl, sym, ap, subst, arith, Bool, true, false, Option, none, some, is_some, List, [],
  ◌∷◌, ◌++◌, ==_refl, if◌then◌else◌, Bool-cases, inl, inr, ◌⊎◌, All, All-append,
}
use operation_monitoring.Updates.Model.{
  Versions, InstanceRow, ReleaseRow, ArtifactRow, Fleet, RolloutState, canary_active, full_active,
  included, excluded,
}
use operation_monitoring.Updates.Eligibility.{
  Candidate, candidates, candidates_of, best, candidate_of, is_offered, select_update_candidate,
  is_in, is_empty, update_target_os, is_published, target_matches, state_offers,
}
use operation_monitoring.Updates.Candidates.{IsUpgrade, NotNewer, NotUpgrade, BestOf, best-BestOf}

-- A release and a package of it that the tables hold for an instance: both published, the package
-- for the system of the instance, and the release open to it, that is, fully rolled out, or under a
-- canary of which the instance is a target; never one from which it is excluded.
pub record IsOpenTo (db : Fleet) (i : InstanceRow) (r : ReleaseRow) (a : ArtifactRow) : Type 0 where
  pub release : Memᴰ r db.releases
  pub artifact : Memᴰ a db.artifacts
  pub of_release : a.release_id ≡ r.id
  pub published_release : is_published r.status ≡ true
  pub published_artifact : is_published a.status ≡ true
  pub fits : target_matches i.os i.package_type i.native_arch a ≡ true
  pub open_state :
      (r.rollout_state ≡ full_active)
      ⊎ ((r.rollout_state ≡ canary_active) × (is_in db included r.id i.id ≡ true))
  pub not_excluded : is_in db excluded r.id i.id ≡ false

offers_state :
    (s : RolloutState) (is_target : Bool)
    → state_offers s is_target ≡ true
    → (s ≡ full_active) ⊎ ((s ≡ canary_active) × (is_target ≡ true))
offers_state full_active is_target h = inl refl
offers_state canary_active is_target h = inr (refl, h)
offers_state _ is_target h = cc

module _ (v : Versions) (db : Fleet) (i : InstanceRow) where
  -- The offer of a candidate.
  abbrev pub IsOffer : Candidate v → Type 0
  IsOffer c =
      (r : ReleaseRow) × (a : ArtifactRow) × IsOpenTo db i r a
      × (c.release_id ≡ r.id)
      × (c.version ≡ r.version)
      × (c.artifact_id ≡ a.id)

  offered-IsOpenTo :
      (r : ReleaseRow) (a : ArtifactRow)
      → Memᴰ r db.releases
      → Memᴰ a db.artifacts
      → is_offered v db i r a ≡ true
      → IsOpenTo db i r a
  offered-IsOpenTo r a in_releases in_artifacts h = record {
    release = in_releases;
    artifact = in_artifacts;
    of_release = ground arith;
    published_release = ground arith;
    published_artifact = ground arith;
    fits = ground arith;
    open_state = offers_state r.rollout_state (is_in db included r.id i.id) (ground arith);
    not_excluded = ground arith;
  }

  candidates_of-IsOffer :
      (r : ReleaseRow) (artifacts : List ArtifactRow)
      → Memᴰ r db.releases
      → ((a : ArtifactRow) → Memᴰ a artifacts → Memᴰ a db.artifacts)
      → All IsOffer (candidates_of v db i r artifacts)
  candidates_of-IsOffer r [] in_releases within = tt
  candidates_of-IsOffer r (a ∷ rest) in_releases within =
      let others = candidates_of-IsOffer r rest in_releases (λ x m. within x (tail m)) in
      elim (Bool-cases (is_offered v db i r a)) [
        | inl hit ↦
            let offer : IsOffer
                (record { release_id = r.id; version = r.version; artifact_id = a.id }) =
              (
                r,
                a,
                offered-IsOpenTo r a in_releases (within a (head refl)) hit,
                refl,
                refl,
                refl,
              ) in
            rw hit (offer, others)
        | inr miss ↦ rw miss others
      ]

  candidates-IsOffer :
      (releases : List ReleaseRow)
      → ((r : ReleaseRow) → Memᴰ r releases → Memᴰ r db.releases)
      → All IsOffer (candidates v db i releases)
  unfolding candidates
  candidates-IsOffer [] within = tt
  candidates-IsOffer (r ∷ rest) within =
      All-append IsOffer (candidates_of v db i r db.artifacts) (candidates v db i rest)
        (candidates_of-IsOffer r db.artifacts (within r (head refl)) (λ a m. m))
        (candidates-IsOffer rest (λ x m. within x (tail m)))

All-Memᴰ {ℓ κ} : {A : Type ℓ} (P : A → Type κ) (xs : List A) (x : A) → All P xs → Memᴰ x xs → P x
All-Memᴰ P [] x every m = elim m [ ]
All-Memᴰ P (y ∷ ys) x every (head e) = subst P (sym e) every.0
All-Memᴰ P (y ∷ ys) x every (tail m) = All-Memᴰ P ys x every.1 m

All-first {ℓ κ} : {A : Type ℓ} (P : A → Type κ) (xs ys : List A) → All P (xs ++ ys) → All P xs
All-first P [] ys h = tt
All-first P (x ∷ xs) ys h = (h.0, All-first P xs ys h.1)

All-rest {ℓ κ} : {A : Type ℓ} (P : A → Type κ) (xs ys : List A) → All P (xs ++ ys) → All P ys
All-rest P [] ys h = h
All-rest P (x ∷ xs) ys h = All-rest P xs ys h.1

open_offers :
    (s : RolloutState) (is_target : Bool)
    → (s ≡ full_active) ⊎ ((s ≡ canary_active) × (is_target ≡ true))
    → state_offers s is_target ≡ true
open_offers s is_target (inl e) = rw e refl
open_offers s is_target (inr (e, hit)) = rw (e, hit) refl

-- No release that is open to the instance is left out of the candidates.
module _ (v : Versions) (db : Fleet) (i : InstanceRow) where
  IsOpenTo-offered :
      (r : ReleaseRow) (a : ArtifactRow) → IsOpenTo db i r a → is_offered v db i r a ≡ true
  IsOpenTo-offered r a is_open =
      let same : (a.release_id == r.id) ≡ true = rw is_open.of_release (==_refl r.id) in
      rw
        (
          same,
          is_open.published_release,
          is_open.published_artifact,
          is_open.fits,
          open_offers r.rollout_state (is_in db included r.id i.id) is_open.open_state,
          is_open.not_excluded,
        )
        refl

  module _ (P : Candidate v → Type 0) (r : ReleaseRow) (a : ArtifactRow)
      (hit : is_offered v db i r a ≡ true) where
    abbrev the_candidate : Candidate v
    the_candidate = record { release_id = r.id; version = r.version; artifact_id = a.id }

    in_candidates_of :
        (artifacts : List ArtifactRow)
        → Memᴰ a artifacts
        → All P (candidates_of v db i r artifacts)
        → P the_candidate
    in_candidates_of [] m every = elim m [ ]
    in_candidates_of (b ∷ rest) (head e) every =
        let first = subst (λ x. is_offered v db i r x ≡ true) e hit in
        let every' = rw first at every in
        subst (λ x. P (record { release_id = r.id; version = r.version; artifact_id = x.id }))
          (sym e) every'.0
    in_candidates_of (b ∷ rest) (tail m) every = elim (Bool-cases (is_offered v db i r b)) [
      | inl e ↦ let every' = rw e at every in in_candidates_of rest m every'.1
      | inr e ↦ let every' = rw e at every in in_candidates_of rest m every'
    ]

    in_candidates :
        (releases : List ReleaseRow)
        → Memᴰ r releases
        → Memᴰ a db.artifacts
        → All P (candidates v db i releases)
        → P the_candidate
    unfolding candidates
    in_candidates [] m m' every = elim m [ ]
    in_candidates (s ∷ rest) (head e) m' every = in_candidates_of db.artifacts m' (
        subst (λ x. All P (candidates_of v db i x db.artifacts)) (sym e)
          (All-first P (candidates_of v db i s db.artifacts) _ every))
    in_candidates (s ∷ rest) (tail m) m' every =
        in_candidates rest m m'
          (All-rest P (candidates_of v db i s db.artifacts) (candidates v db i rest) every)

  every_open :
      (P : Candidate v → Type 0)
      → All P (candidates v db i db.releases)
      → (r : ReleaseRow) (a : ArtifactRow) → IsOpenTo db i r a
      → P (record { release_id = r.id; version = r.version; artifact_id = a.id })
  every_open P every r a is_open =
      in_candidates P r a (IsOpenTo-offered r a is_open) db.releases is_open.release
        is_open.artifact every

not_skipped {ℓ} :
    {A : Type ℓ} (b : Bool) (o : Option A) (a : A) → (if b then none else o) ≡ some a → o ≡ some a
not_skipped true o a h = cc
not_skipped false o a h = h

candidate_of-some :
    (v : Versions) (o : Option (v.Version × Candidate v)) (c : Candidate v)
    → candidate_of v o ≡ some c
    → (p : v.Version) × (o ≡ some (p, c))
candidate_of-some v none c h = absurd (cc)
candidate_of-some v (some (p, d)) c h = (p, ap (λ x. some (p, x)) (some-injective d c h))

module _ (v : Versions) (db : Fleet) (i : InstanceRow) (c : Candidate v)
    (selected : select_update_candidate v db i ≡ some c) where
  found_best :
      (p : v.Version) × (best v (v.parse i.agent_version) (candidates v db i db.releases)
        ≡ some (p, c))
  unfolding select_update_candidate
  found_best = candidate_of-some v _ c (not_skipped _ _ c selected)

  BestOf-all :
      (p : v.Version) × BestOf v
        (v.parse i.agent_version)
        (candidates v db i db.releases)
        (some (p, c))
  BestOf-all =
      let (p, e) = found_best in
      (
        p,
        subst (BestOf v (v.parse i.agent_version) (candidates v db i db.releases)) e
            (best-BestOf v (v.parse i.agent_version) (candidates v db i db.releases)),
      )

  -- The candidate that `select_update_candidate` picks for an instance, for a new upgrade when none is
  -- under way, is a package of a release that the tables hold for it: both are published, the
  -- package fits the instance, and the release is fully rolled out, or under a canary that the
  -- instance is a target of, and does not exclude it.
  pub select_update_candidate-IsOffer : IsOffer v db i c
  select_update_candidate-IsOffer =
      let (p, (member, _, _, _)) = BestOf-all in
      All-Memᴰ (IsOffer v db i) (candidates v db i db.releases) c
        (candidates-IsOffer v db i db.releases (λ r m. m)) member

  -- The version of the candidate that `select_update_candidate` picks for an instance is newer than
  -- the one it runs, unless that one cannot be parsed; and of all the releases that the tables hold
  -- open to the instance, with a package for it, none has a newer version.
  pub select_update_candidate-newest :
      (p : v.Version) × (v.parse c.version ≡ some p)
      × IsUpgrade v (v.parse i.agent_version) p
      × ((r : ReleaseRow) (a : ArtifactRow) (q : v.Version)
          → IsOpenTo db i r a
          → v.parse r.version ≡ some q
          → v.newer q p ≡ false)
  select_update_candidate-newest =
      let (p, (_, parsed, up, every)) = BestOf-all in
      (p, parsed, up, λ r a q is_open. every_open v db i (NotNewer v p) every r a is_open q)

skipped_none {ℓ} :
    {A : Type ℓ} (b : Bool) (o : Option A) → b ≡ false → (if b then none else o) ≡ none → o ≡ none
skipped_none true o e h = cc
skipped_none false o e h = h

candidate_of-none :
    (v : Versions) (o : Option (v.Version × Candidate v)) → candidate_of v o ≡ none → o ≡ none
candidate_of-none v none h = refl
candidate_of-none v (some (p, d)) h = cc

-- For an instance that may replace itself, of a known system and architecture,
-- `select_update_candidate` picks nothing only when every release that the tables hold open to the
-- instance, with a package for it, has a version that cannot be parsed or is not newer than its own.
pub select_update_candidate-none :
    (v : Versions) (db : Fleet) (i : InstanceRow)
    → i.update_privileged ≡ true
    → is_some (update_target_os i.package_type i.os) ≡ true
    → is_empty i.native_arch ≡ false
    → select_update_candidate v db i ≡ none
    → (r : ReleaseRow) (a : ArtifactRow) (q : v.Version) → IsOpenTo db i r a
    → v.parse r.version ≡ some q
    → ¬ IsUpgrade v (v.parse i.agent_version) q
unfolding select_update_candidate
select_update_candidate-none v db i privileged known native nothing r a q is_open =
    every_open v db i (NotUpgrade v (v.parse i.agent_version))
      (subst (BestOf v (v.parse i.agent_version) (candidates v db i db.releases))
        (candidate_of-none v _ (skipped_none _ _ (rw (privileged, known, native) refl) nothing))
        (best-BestOf v (v.parse i.agent_version) (candidates v db i db.releases)))
      r a is_open q
