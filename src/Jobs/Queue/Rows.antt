-- ===== src/Jobs/Queue/Rows.antt =====
-- What a statement of internal/store/jobs.go does to each row, in terms of the columns.
use muesli.Base.{
  ℕ, ◌<◌, ◌≡◌, refl, Bool, true, false, none, some, [], ◌∷◌, inl, inr, Bool-cases, arith, Option,
}
use muesli.Jobs.{Job, Table, pending, running, is_pending, is_running, JobStatus}
use muesli.Jobs.Queue.{update_where, lease_expired}

-- The lease had an end, and it has passed.
abbrev pub HasLapsed : ℕ → Job → Type 0
HasLapsed db_now j = (expires : ℕ) × (j.lease_expires_at ≡ some expires) × (expires < db_now)

-- The rows of two tables stand in a relation, one by one.
abbrev pub Pairwise : (Job → Job → Type 0) → Table → Table → Type 0
Pairwise R [] [] = Unit {0}
Pairwise R (j ∷ t) (k ∷ u) = R j k × Pairwise R t u
Pairwise R _ _ = ⊥

pub update_where-Pairwise :
    (R : Job → Job → Type 0) (fits : Job → Bool) (change : Job → Job) (t : Table)
    → ((j : Job) → fits j ≡ true → R j (change j))
    → ((j : Job) → fits j ≡ false → R j j)
    → Pairwise R t (update_where fits change t)
unfolding update_where
update_where-Pairwise R fits change [] h k = tt
update_where-Pairwise R fits change (j ∷ t) h k = elim (Bool-cases (fits j)) [
  | inl e ↦ rw e (h j e, update_where-Pairwise R fits change t h k)
  | inr e ↦ rw e (k j e, update_where-Pairwise R fits change t h k)
]

lapsed_cases :
    (db_now : ℕ) (lease : Option ℕ)
    → lease_expired db_now lease ≡ true
    → (expires : ℕ) × (lease ≡ some expires) × (expires < db_now)
lapsed_cases db_now none h = absurd cc
lapsed_cases db_now (some x) h = (x, refl, ground arith)

pub lapsed :
    (db_now : ℕ) (j : Job) → lease_expired db_now j.lease_expires_at ≡ true → HasLapsed db_now j
lapsed db_now j h = lapsed_cases db_now j.lease_expires_at h

lapses_lease :
    (db_now expires : ℕ) (lease : Option ℕ)
    → lease ≡ some expires
    → expires < db_now
    → lease_expired db_now lease ≡ true
lapses_lease db_now expires none e h = absurd cc
lapses_lease db_now expires (some x) e h = let same : x ≡ expires = cc e in ground (arith, same, h)

pub lapses :
    (db_now : ℕ) (j : Job) → HasLapsed db_now j → lease_expired db_now j.lease_expires_at ≡ true
lapses db_now j (expires, e, h) = lapses_lease db_now expires j.lease_expires_at e h

pub running_status : (s : JobStatus) → is_running s ≡ true → s ≡ running
running_status s h = ground arith

pub pending_status : (s : JobStatus) → is_pending s ≡ true → s ≡ pending
pending_status s h = ground arith
