-- ===== src/Jobs/Queue/Claim.antt =====
-- Which job ClaimJob takes, and which it leaves (internal/store/jobs.go).
use mathlib.Core.List.{Memᴰ}
use muesli.Base.{
  ℕ, ◌≡◌, ◌↔◌, refl, ap, subst, Bool, true, false, not, ◌&&◌, Option, none, some, [], ◌∷◌, inl, inr,
  All, Bool-cases, Option-cases, if◌then◌else◌, arith,
}
use muesli.Jobs.{Job, Table}
use muesli.Jobs.Queue.{claimable, before, first_of_rows, update_where, with_id, claimed, claim_job}

-- No row that fits stands before this one.
abbrev pub Unbeaten : (Job → Bool) → Job → Table → Type 0
Unbeaten fits b t = All (λ k. fits k ≡ true → before k b ≡ false) t

before_irrefl : (a : Job) → before a a ≡ false
unfolding before
before_irrefl a = ground arith

-- What does not stand before a row does not stand before what that row does not follow.
before_trans : (a b c : Job) → before a b ≡ false → before b c ≡ false → before a c ≡ false
unfolding before
before_trans a b c h k = ground arith

before_asym : (a b : Job) → before a b ≡ true → before b a ≡ false
unfolding before
before_asym a b h = ground arith

Unbeaten-trans :
    (fits : Job → Bool) (b c : Job) (t : Table)
    → Unbeaten fits b t
    → before b c ≡ false
    → Unbeaten fits c t
Unbeaten-trans fits b c [] h k = tt
Unbeaten-trans fits b c (j ∷ t) h k =
    (λ f. before_trans j b c (h.0 f) k, Unbeaten-trans fits b c t h.1 k)

-- A selected row fits, is in the table, and is unbeaten.
pub record IsFirst (fits : Job → Bool) (b : Job) (t : Table) : Type 0 where
  pub fit : fits b ≡ true
  pub member : Memᴰ b t
  pub unbeaten : Unbeaten fits b t

-- One row against the selection from the rest.
first_step : (fits : Job → Bool) (j : Job) (t : Table) → Option Job → Option Job
first_step fits j t none = if fits j then some j else none
first_step fits j t (some b) = if fits j then (if before b j then some b else some j) else some b

first_of_rows_step :
    (fits : Job → Bool) (j : Job) (t : Table)
    → first_of_rows fits (j ∷ t) ≡ first_step fits j t (first_of_rows fits t)
unfolding first_of_rows first_step
first_of_rows_step fits j t = ground arith

pub none_fits :
    (fits : Job → Bool) (t : Table) → first_of_rows fits t ≡ none → All (λ k. fits k ≡ false) t
unfolding first_step
none_fits fits [] e = tt
none_fits fits (j ∷ t) e =
    let rest : first_of_rows fits t ≡ none = ground (arith, first_of_rows_step fits j t) in
    (ground (arith, first_of_rows_step fits j t), none_fits fits t rest)

first_of_rows-none :
    (fits : Job → Bool) (t : Table) → All (λ k. fits k ≡ false) t → first_of_rows fits t ≡ none
unfolding first_step
first_of_rows-none fits [] h = unfold first_of_rows in refl
first_of_rows-none fits (j ∷ t) h =
    rw (first_of_rows_step fits j t, first_of_rows-none fits t h.1, h.0)

Unbeaten-none :
    (fits : Job → Bool) (b : Job) (t : Table) → All (λ k. fits k ≡ false) t → Unbeaten fits b t
Unbeaten-none fits b [] h = tt
Unbeaten-none fits b (j ∷ t) h = (λ f. cc, Unbeaten-none fits b t h.1)

IsFirst-head :
    (fits : Job → Bool) (j : Job) (t : Table)
    → fits j ≡ true
    → Unbeaten fits j t
    → IsFirst fits j (j ∷ t)
IsFirst-head fits j t f u = record {
  fit = f;
  member = Memᴰ.head refl;
  unbeaten = (λ _. before_irrefl j, u);
}

IsFirst-tail :
    (fits : Job → Bool) (j c : Job) (t : Table)
    → IsFirst fits c t
    → (fits j ≡ true → before j c ≡ false)
    → IsFirst fits c (j ∷ t)
IsFirst-tail fits j c t h k = record {
  fit = h.fit;
  member = Memᴰ.tail h.member;
  unbeaten = (k, h.unbeaten);
}

-- The selection of a row and the first of the rest.
abbrev Selected : (Job → Bool) → Table → Option Job → Type 0
Selected fits t none = Unit {0}
Selected fits t (some b) = IsFirst fits b t

first_step-Selected :
    (fits : Job → Bool) (j : Job) (t : Table) (o : Option Job)
    → first_of_rows fits t ≡ o
    → Selected fits t o
    → Selected fits (j ∷ t) (first_step fits j t o)
unfolding first_step
first_step-Selected fits j t none e h = elim (Bool-cases (fits j)) [
  | inl f ↦ rw f (IsFirst-head fits j t f (Unbeaten-none fits j t (none_fits fits t e)))
  | inr n ↦ rw n tt
]
first_step-Selected fits j t (some c) e h = elim (Bool-cases (fits j)) [
  | inl f ↦ elim (Bool-cases (before c j)) [
    | inl b ↦ rw (f, b) (IsFirst-tail fits j c t h (λ _. before_asym c j b))
    | inr n ↦ rw (f, n) (IsFirst-head fits j t f (Unbeaten-trans fits c j t h.unbeaten n))
  ]
  | inr n ↦ rw n (IsFirst-tail fits j c t h (λ f. cc))
]

first_of_rows-Selected : (fits : Job → Bool) (t : Table) → Selected fits t (first_of_rows fits t)
first_of_rows-Selected fits [] = unfold first_of_rows in tt
first_of_rows-Selected fits (j ∷ t) =
    rw (first_of_rows_step fits j t)
      (first_step-Selected fits j t (first_of_rows fits t) refl (first_of_rows-Selected fits t))

pub first_of_rows-IsFirst :
    (fits : Job → Bool) (t : Table) (b : Job) → first_of_rows fits t ≡ some b → IsFirst fits b t
first_of_rows-IsFirst fits t b e = subst (Selected fits t) e (first_of_rows-Selected fits t)

-- The job that ClaimJob takes from a table, as the caller gets it.
pub record Takes (locked : Job → Bool) (db_now app_now lease : ℕ) (t : Table) (k : Job)
    : Type 0 where
  pub chosen : Job
  pub first : IsFirst (λ j. claimable db_now j && not (locked j)) chosen t
  pub returned : k ≡ claimed db_now app_now lease chosen

module _ (locked : Job → Bool) (db_now app_now lease : ℕ) (t : Table) where
  abbrev pub free : Job → Bool
  free j = claimable db_now j && not (locked j)

  pub claim_job-none :
      first_of_rows free t ≡ none → claim_job locked db_now app_now lease t ≡ (none, t)
  unfolding claim_job
  claim_job-none e = rw (e, claim_job)

  pub claim_job-some :
      (j : Job)
      → first_of_rows free t ≡ some j
      → claim_job locked db_now app_now lease t ≡ (
        some (claimed db_now app_now lease j),
        update_where (with_id j.id) (claimed db_now app_now lease) t,
      )
  unfolding claim_job
  claim_job-some j e = rw (e, claim_job)

  -- A claimed job was claimable and not held by another transaction, and no such job stands
  -- before it by priority and then by age; it comes back as running, with one more attempt and a
  -- lease from the process's clock.
  pub claim_job-Takes :
      (k : Job)
      → (claim_job locked db_now app_now lease t).0 ≡ some k
      → Takes locked db_now app_now lease t k
  claim_job-Takes k e = elim (Option-cases (first_of_rows free t)) [
    | inl n ↦ absurd (cc (claim_job-none n))
    | inr (j, s) ↦ record {
      chosen = j;
      first = first_of_rows-IsFirst free t j s;
      returned = cc (claim_job-some j s);
    }
  ]

  -- ClaimJob returns no job exactly when every job is held or not claimable.
  pub claim_job-none_iff :
      ((claim_job locked db_now app_now lease t).0 ≡ none) ↔ All (λ j. free j ≡ false) t
  claim_job-none_iff = (
    λ e. elim (Option-cases (first_of_rows free t)) [
      | inl n ↦ none_fits free t n
      | inr (j, s) ↦ absurd (cc (claim_job-some j s))
    ],
    λ h. ap (λ (r : Option Job × Table). r.0) (claim_job-none (first_of_rows-none free t h)),
  )

  -- The row that is left in the table: the claimed one for the id taken, and the old one elsewhere.
  pub claim_job-rows :
      (k : Job)
      → (claim_job locked db_now app_now lease t).0 ≡ some k
      → (claim_job locked db_now app_now lease t).1
        ≡ update_where (with_id k.id) (claimed db_now app_now lease) t
  unfolding claimed
  claim_job-rows k e = elim (Option-cases (first_of_rows free t)) [
    | inl n ↦ absurd (cc (claim_job-none n))
    | inr (j, s) ↦
        let taken : k ≡ claimed db_now app_now lease j = cc (claim_job-some j s) in
        let same : k.id ≡ j.id = ap (λ (x : Job). x.id) taken in rw (claim_job-some j s) (rw same)
  ]
