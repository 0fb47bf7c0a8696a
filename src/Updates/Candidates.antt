-- ===== src/Updates/Candidates.antt =====
-- backend/src/updates.rs: the choice among candidates, `filter_map` and `max_by` in
-- `select_update_candidate`.
use mathlib.Core.Option.{some-injective}
use mathlib.Core.List.{Memᴰ}
use mathlib.Core.List.Memᴰ.{head, tail}
use operation_monitoring.Base.{
  ◌≡◌, ◌∙◌, refl, sym, subst, true, false, Option, none, some, List, [], ◌∷◌, if-holds, Bool-cases,
  Bool-no_false, inl, inr, All, All-map,
}
use operation_monitoring.Updates.Model.{Versions}
use operation_monitoring.Updates.Eligibility.{Candidate, best, greatest, upgrades_from}

module _ (v : Versions) where
  -- Newer than the version that the instance runs, or that one cannot be parsed.
  abbrev pub IsUpgrade : Option v.Version → v.Version → Type 0
  IsUpgrade none p = Unit
  IsUpgrade (some current) p = v.newer p current ≡ true

  -- No newer one than `p`.
  abbrev pub NotNewer : v.Version → Candidate v → Type 0
  NotNewer p c = (q : v.Version) → v.parse c.version ≡ some q → v.newer q p ≡ false

  abbrev pub NotUpgrade : Option v.Version → Candidate v → Type 0
  NotUpgrade current c = (q : v.Version) → v.parse c.version ≡ some q → IsUpgrade current q → ⊥

  -- What `best` yields on a list.
  abbrev pub BestOf :
      Option v.Version → List (Candidate v) → Option (v.Version × Candidate v) → Type 0
  BestOf current cs none = All (NotUpgrade current) cs
  BestOf current cs (some (p, c)) =
      Memᴰ c cs × (v.parse c.version ≡ some p) × IsUpgrade current p × All (NotNewer p) cs

  below : (p q : v.Version) → v.newer p q ≡ true → (c : Candidate v) → NotNewer q c → NotNewer p c
  below p q lt c h r parsed = elim (Bool-cases (v.newer r p)) [
    | inl more ↦ absurd (Bool-no_false (v.newer r q) (v.newer_trans r p q more lt) (h r parsed))
    | inr less ↦ less
  ]

  no_upgrade_below :
      (current : Option v.Version) (p : v.Version)
      → IsUpgrade current p
      → (c : Candidate v) → NotUpgrade current c
      → NotNewer p c
  no_upgrade_below none p up c idle q parsed = absurd (idle q parsed tt)
  no_upgrade_below (some current) p up c idle q parsed = elim (Bool-cases (v.newer q p)) [
    | inl more ↦ absurd (idle q parsed (v.newer_trans q p current more up))
    | inr less ↦ less
  ]

  self-NotNewer : (c : Candidate v) (p : v.Version) → v.parse c.version ≡ some p → NotNewer p c
  self-NotNewer c p parsed q parsed' =
      subst (λ r. v.newer r p ≡ false) (some-injective p q (sym parsed ∙ parsed'))
        (v.newer_irrefl p)

  skipped :
      (current : Option v.Version) (c : Candidate v) (rest : List (Candidate v))
      (found : Option (v.Version × Candidate v))
      → NotUpgrade current c
      → BestOf current rest found
      → BestOf current (c ∷ rest) found
  skipped current c rest none idle b = (idle, b)
  skipped current c rest (some (p, d)) idle (m, parsed, up, b) =
      (tail m, parsed, up, (no_upgrade_below current p up c idle, b))

  taken :
      (current : Option v.Version) (c : Candidate v) (rest : List (Candidate v)) (p : v.Version)
      (found : Option (v.Version × Candidate v))
      → v.parse c.version ≡ some p
      → IsUpgrade current p
      → BestOf current rest found
      → BestOf current (c ∷ rest) (greatest v (some (p, c)) found)
  taken current c rest p none parsed up b = (
    head refl,
    parsed,
    up,
    (
      self-NotNewer c p parsed,
      All-map (NotUpgrade current) (NotNewer p) (no_upgrade_below current p up) rest b,
    ),
  )
  taken current c rest p (some (q, d)) parsed up (m, parsed', up', b) =
      if-holds (BestOf current (c ∷ rest)) (v.newer p q) _ _
        (λ lt. (
          head refl,
          parsed,
          up,
          (self-NotNewer c p parsed, All-map (NotNewer q) (NotNewer p) (below p q lt) rest b),
        ))
        (λ ge. (
          tail m,
          parsed',
          up',
          (
            (λ r parsed_r.
                subst (λ x. v.newer x q ≡ false) (some-injective p r (sym parsed ∙ parsed_r)) ge),
            b,
          ),
        ))

  considered :
      (current : Option v.Version) (c : Candidate v) (rest : List (Candidate v))
      (found : Option (v.Version × Candidate v)) (o : Option v.Version)
      → v.parse c.version ≡ o
      → BestOf current rest found
      → BestOf current (c ∷ rest) (greatest v (upgrades_from v current c o) found)
  considered current c rest found none garbled b =
      skipped current c rest found (λ q parsed _. absurd (cc)) b
  considered none c rest found (some p) parsed b = taken none c rest p found parsed tt b
  considered (some current) c rest found (some p) parsed b = elim (Bool-cases (v.newer p current)) [
    | inl lt ↦ rw lt (taken (some current) c rest p found parsed lt b)
    | inr ge ↦ rw ge (
        skipped (some current) c rest found
          (λ q parsed' up.
            Bool-no_false (v.newer q current) up (
              subst (λ x. v.newer x current ≡ false) (some-injective p q (sym parsed ∙ parsed'))
                ge))
          b)
  ]

  pub best-BestOf :
      (current : Option v.Version) (cs : List (Candidate v)) → BestOf current cs (best v current cs)
  unfolding best
  best-BestOf current [] = tt
  best-BestOf current (c ∷ rest) =
      considered current c rest (best v current rest) (v.parse c.version) refl
        (best-BestOf current rest)
