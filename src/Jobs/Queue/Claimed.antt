-- ===== src/Jobs/Queue/Claimed.antt =====
-- ClaimJob in terms of the rows (internal/store/jobs.go).
use mathlib.Core.List.{Memᴰ}
use muesli.Base.{
  ℕ, ◌+◌, ◌≤◌, ◌<◌, ◌≡◌, ◌≢◌, ◌⊎◌, refl, sym, subst, Bool, true, false, not, ◌&&◌, ltb, Option,
  none, some, [], ◌∷◌, inl, inr, All, Bool-cases, Option-cases, arith,
}
use muesli.Base.Text.{text_eq_iff}
use muesli.Jobs.{Job, Table, pending, running, is_running}
use muesli.Jobs.Queue.{
  claimable, before, first_of_rows, update_where, with_id, claimed, claim_job, lease_expired,
  is_null,
}
use muesli.Jobs.Queue.Rows.{
  HasLapsed, Pairwise, update_where-Pairwise, lapsed, lapses, running_status, pending_status,
}
use muesli.Jobs.Queue.Claim.{
  Unbeaten, IsFirst, free, none_fits, first_of_rows-IsFirst, claim_job-none, claim_job-some,
}

-- A job that a worker may take: pending without a lease that lasts, or running with one that has
-- passed, and in neither case held by another transaction.
abbrev pub IsFree : (Job → Bool) → ℕ → Job → Type 0
IsFree locked db_now j =
    (locked j ≡ false)
    × (((j.status ≡ pending) × ((j.lease_expires_at ≡ none) ⊎ HasLapsed db_now j))
        ⊎ ((j.status ≡ running) × HasLapsed db_now j))

-- The row once it is claimed.
abbrev pub as_claimed : ℕ → ℕ → ℕ → Job → Job
as_claimed db_now app_now lease j = record j {
  status = running;
  attempts = j.attempts + 1;
  lease_expires_at = some (app_now + lease);
  started_at = some db_now;
  finished_at = none;
  updated_at = db_now;
}

-- A lower priority, or the same and no greater age.
abbrev pub Yields : Job → Job → Type 0
Yields j chosen =
    (j.priority < chosen.priority)
    ⊎ ((j.priority ≡ chosen.priority) × (chosen.created_at ≤ j.created_at))

-- The job taken from a table, the row that the caller gets, and the table that is left.
pub record IsClaim (locked : Job → Bool) (db_now app_now lease : ℕ) (t : Table) (k : Job)
    (t' : Table) : Type 0 where
  pub chosen : Job
  pub member : Memᴰ chosen t
  pub available : IsFree locked db_now chosen
  pub first : All (λ j. ¬ IsFree locked db_now j ⊎ Yields j chosen) t
  pub returned : k ≡ as_claimed db_now app_now lease chosen
  pub written :
      Pairwise
        (λ j j'.
          ((j.id ≡ chosen.id) × (j' ≡ as_claimed db_now app_now lease j))
          ⊎ ((j.id ≢ chosen.id) × (j' ≡ j)))
        t
        t'

abbrev pub Claims : (Job → Bool) → ℕ → ℕ → ℕ → Table → Option Job → Table → Type 0
Claims locked db_now app_now lease t none t' = All (λ j. ¬ IsFree locked db_now j) t × (t' ≡ t)
Claims locked db_now app_now lease t (some k) t' = IsClaim locked db_now app_now lease t k t'

module _ (locked : Job → Bool) (db_now : ℕ) where
  null_lease : (lease : Option ℕ) → is_null lease ≡ true → lease ≡ none
  null_lease none h = refl
  null_lease (some x) h = absurd cc

  claimable-IsFree :
      (j : Job) → (claimable db_now j && not (locked j)) ≡ true → IsFree locked db_now j
  unfolding claimable
  claimable-IsFree j h =
      let lease = j.lease_expires_at in
      (
        ground (arith, h),
        elim (Bool-cases (is_running j.status && lease_expired db_now lease)) [
          | inl r ↦
              inr (running_status j.status (ground (arith, r)), lapsed db_now j (ground (arith, r)))
          | inr n ↦
              let waits = pending_status j.status (ground (arith, h, n)) in
              elim (Bool-cases (is_null lease)) [
                | inl e ↦ inl (waits, inl (null_lease lease e))
                | inr e ↦ inl (waits, inr (lapsed db_now j (ground (arith, h, n, e))))
              ]
        ],
      )

  IsFree-claimable :
      (j : Job) → IsFree locked db_now j → (claimable db_now j && not (locked j)) ≡ true
  unfolding claimable
  IsFree-claimable j (open_row, inl (waits, inl nothing)) = ground (arith, open_row, waits, nothing)
  IsFree-claimable j (open_row, inl (waits, inr late)) =
      let over = lapses db_now j late in ground (arith, open_row, waits, over)
  IsFree-claimable j (open_row, inr (runs, late)) =
      let over = lapses db_now j late in ground (arith, open_row, runs, over)

  yields :
      (chosen j : Job)
      → ((claimable db_now j && not (locked j)) ≡ true → before j chosen ≡ false)
      → ¬ IsFree locked db_now j ⊎ Yields j chosen
  unfolding before
  yields chosen j h = elim (Bool-cases (claimable db_now j && not (locked j))) [
    | inl e ↦
        let after = h e in
        elim (Bool-cases (ltb j.priority chosen.priority)) [
          | inl lower ↦ inr (inl (ground (arith, lower)))
          | inr same ↦ inr (inr (ground (arith, after, same), ground (arith, after, same)))
        ]
    | inr e ↦ inl (λ f. cc (e, IsFree-claimable j f))
  ]

  all_yield :
      (chosen : Job) (t : Table)
      → Unbeaten (λ j. claimable db_now j && not (locked j)) chosen t
      → All (λ j. ¬ IsFree locked db_now j ⊎ Yields j chosen) t
  all_yield chosen [] h = tt
  all_yield chosen (j ∷ t) h = (yields chosen j h.0, all_yield chosen t h.1)

  nowhere_available :
      (t : Table)
      → All (λ j. (claimable db_now j && not (locked j)) ≡ false) t
      → All (λ j. ¬ IsFree locked db_now j) t
  nowhere_available [] h = tt
  nowhere_available (j ∷ t) h =
      ((λ f. let e = IsFree-claimable j f in cc (e, h.0)), nowhere_available t h.1)

  module _ (app_now lease : ℕ) (t : Table) where
    chosen-IsClaim :
        (j : Job)
        → IsFirst (λ j. claimable db_now j && not (locked j)) j t
        → IsClaim locked db_now app_now lease t
            (claimed db_now app_now lease j)
            (update_where (with_id j.id) (claimed db_now app_now lease) t)
    unfolding claimed
    chosen-IsClaim j h = record {
      chosen = j;
      member = h.member;
      available = claimable-IsFree j h.fit;
      first = all_yield j t h.unbeaten;
      returned = refl;
      written =
          update_where-Pairwise
            (λ i i'.
              ((i.id ≡ j.id) × (i' ≡ as_claimed db_now app_now lease i))
              ⊎ ((i.id ≢ j.id) × (i' ≡ i)))
            (with_id j.id) (claimed db_now app_now lease) t
            (λ i e. inl ((text_eq_iff i.id j.id).0 e, refl))
            (λ i e. inr ((λ same. cc (e, (text_eq_iff i.id j.id).1 same)), refl));
    }

    -- A claim takes a job that is free, pending without a lease that lasts or running with one that
    -- has passed and not held by another transaction, such that every other free job of the table
    -- has a lower priority, or the same and no greater age. That job comes back, and its row is
    -- written, as running, with one more attempt, a lease from the process's clock and a fresh start;
    -- every row with another id stays as it is. Where no job is free, none comes back and the table
    -- stays as it is.
    pub claim_job-Claims :
        let (k, t') = claim_job locked db_now app_now lease t in
        Claims locked db_now app_now lease t k t'
    claim_job-Claims = elim (Option-cases (first_of_rows (free locked db_now app_now lease t) t)) [
      | inl n ↦
          subst (λ r. Claims locked db_now app_now lease t r.0 r.1)
            (sym (claim_job-none locked db_now app_now lease t n))
            (nowhere_available t (none_fits (free locked db_now app_now lease t) t n), refl)
      | inr (j, e) ↦
          subst (λ r. Claims locked db_now app_now lease t r.0 r.1)
            (sym (claim_job-some locked db_now app_now lease t j e))
            (chosen-IsClaim j (first_of_rows-IsFirst (free locked db_now app_now lease t) t j e))
    ]
