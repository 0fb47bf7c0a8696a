-- ===== src/Updates/Sound/Releases.antt =====
-- backend/src/updates.rs: what changes the rollout of a release. At most one release is controlled,
-- that is, under a canary, paused or rolling back: a transaction that makes one so has looked for
-- others with `ensure_no_other_controlled_release`.
use operation_monitoring.Base.{
  ℕ, ◌+◌, ◌≤◌, ◌≡◌, ◌∙◌, refl, arith, Bool, true, false, ◌&&◌, not, some, List, [], ◌∷◌, ◌++◌, ◌==◌,
  count, find, any, retain, update_where, All, All-append, All-update, All-retain, count-append,
  count-update_le, count-update_same, count-update_found_le, count-update_one, count-retain_le,
}
use operation_monitoring.Base.Ids.{Distinct, IsDrawn, IsDrawn-later, count-append_fresh}
use operation_monitoring.Updates.Model.{ReleaseRow, Fleet, ok, other_release_controlled}
use operation_monitoring.Updates.Rollout.{other_controlled, ensure_no_other_controlled_release}
use operation_monitoring.Updates.Answers.{require-true}
use operation_monitoring.Updates.Sound.{ReleasesOk, is_controlled_row}

abbrev pub KeepsId : (ReleaseRow → ReleaseRow) → Type 0
KeepsId f = (r : ReleaseRow) → (f r).id ≡ r.id

module _ (uuids : ℕ → ℕ) (drawn : ℕ) (f : ReleaseRow → ReleaseRow) (keeps : KeepsId f) where
  same_release : (k : ℕ) (r : ReleaseRow) → ((f r).id == k) ≡ (r.id == k)
  same_release k r = rw (keeps r) refl

  drawn_releases :
      (q : ReleaseRow → Bool) (releases : List ReleaseRow)
      → All (IsDrawn (λ r. r.id) uuids drawn) releases
      → All (IsDrawn (λ r. r.id) uuids drawn) (update_where q f releases)
  drawn_releases q =
      All-update (IsDrawn (λ r. r.id) uuids drawn) q f (λ r (n, lt, e). (n, lt, keeps r ∙ e))

  one_release :
      (q : ReleaseRow → Bool) (releases : List ReleaseRow)
      → ((k : ℕ) → count (λ r. r.id == k) releases ≤ 1)
      → (k : ℕ) → count (λ r. r.id == k) (update_where q f releases) ≤ 1
  one_release q releases one k =
      rw (count-update_same (λ r. r.id == k) q f (λ r _. same_release k r) releases) (one k)

  -- No release becomes controlled.
  pub ReleasesOk-update :
      (q : ReleaseRow → Bool)
      → ((r : ReleaseRow)
          → q r ≡ true
          → is_controlled_row (f r) ≡ true
          → is_controlled_row r ≡ true)
      → (releases : List ReleaseRow) → ReleasesOk uuids drawn releases
      → ReleasesOk uuids drawn (update_where q f releases)
  ReleasesOk-update q less releases sound = record {
    one_controlled =
        omega (arith, count-update_le is_controlled_row q f less releases, sound.one_controlled);
    one_id = one_release q releases sound.one_id;
    drawn_ids = drawn_releases q releases sound.drawn_ids;
  }

  -- The one release that was found becomes controlled only if it was.
  pub ReleasesOk-found :
      (id : ℕ) (r : ReleaseRow) (releases : List ReleaseRow)
      → find (λ x. x.id == id) releases ≡ some r
      → (is_controlled_row (f r) ≡ true → is_controlled_row r ≡ true)
      → ReleasesOk uuids drawn releases
      → ReleasesOk uuids drawn (update_where (λ x. x.id == id) f releases)
  ReleasesOk-found id r releases found less sound = record {
    one_controlled = omega (
      arith,
      count-update_found_le is_controlled_row (λ x. x.id == id) f releases r found (sound.one_id id)
          less,
      sound.one_controlled,
    );
    one_id = one_release (λ x. x.id == id) releases sound.one_id;
    drawn_ids = drawn_releases (λ x. x.id == id) releases sound.drawn_ids;
  }

  any_controlled :
      (id : ℕ) (releases : List ReleaseRow)
      → any (other_controlled id) releases ≡ false
      → any (λ r. is_controlled_row r && not (r.id == id)) releases ≡ false
  any_controlled id [] h = refl
  any_controlled id (r ∷ rest) h = ground (arith, any_controlled id rest)

  -- The release becomes controlled when no other one is.
  pub ReleasesOk-alone :
      (id : ℕ) (releases : List ReleaseRow)
      → any (other_controlled id) releases ≡ false
      → ReleasesOk uuids drawn releases
      → ReleasesOk uuids drawn (update_where (λ x. x.id == id) f releases)
  ReleasesOk-alone id releases alone sound = record {
    one_controlled = omega (
      arith,
      count-update_one is_controlled_row (λ x. x.id == id) f releases
          (any_controlled id releases alone),
      sound.one_id id,
    );
    one_id = one_release (λ x. x.id == id) releases sound.one_id;
    drawn_ids = drawn_releases (λ x. x.id == id) releases sound.drawn_ids;
  }

pub ReleasesOk-retain :
    (uuids : ℕ → ℕ) (drawn : ℕ) (q : ReleaseRow → Bool) (releases : List ReleaseRow)
    → ReleasesOk uuids drawn releases
    → ReleasesOk uuids drawn (retain q releases)
ReleasesOk-retain uuids drawn q releases sound = record {
  one_controlled =
      omega (arith, count-retain_le is_controlled_row q releases, sound.one_controlled);
  one_id = λ k. omega (arith, count-retain_le (λ r. r.id == k) q releases, sound.one_id k);
  drawn_ids = All-retain (IsDrawn (λ r. r.id) uuids drawn) q releases sound.drawn_ids;
}

pub ReleasesOk-insert :
    (uuids : ℕ → ℕ) (drawn : ℕ) (r : ReleaseRow) (releases : List ReleaseRow)
    → Distinct uuids
    → r.id ≡ uuids drawn
    → is_controlled_row r ≡ false
    → ReleasesOk uuids drawn releases
    → ReleasesOk uuids (drawn + 1) (releases ++ r ∷ [])
ReleasesOk-insert uuids drawn r releases distinct new calm sound = record {
  one_controlled =
      rw (count-append is_controlled_row releases (r ∷ []))
        (rw calm (omega (arith, sound.one_controlled)));
  one_id =
      count-append_fresh (λ x. x.id) uuids drawn releases r distinct sound.drawn_ids new
        sound.one_id;
  drawn_ids =
      All-append (IsDrawn (λ x. x.id) uuids (drawn + 1)) releases (r ∷ [])
        (IsDrawn-later (λ x. x.id) uuids drawn (drawn + 1) releases (omega arith) sound.drawn_ids)
        ((drawn, omega arith, new), tt);
}

-- What the check has found when it lets the transaction go on.
pub alone_of_ensure :
    (db : Fleet) (release_id : ℕ) (u : Unit {0})
    → ensure_no_other_controlled_release db release_id ≡ ok u
    → any (other_controlled release_id) db.releases ≡ false
unfolding ensure_no_other_controlled_release
alone_of_ensure db release_id u h =
    let free =
      require-true (not (any (other_controlled release_id) db.releases)) other_release_controlled u
        h in
    ground arith
