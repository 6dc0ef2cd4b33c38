-- ===== src/Webhook/Worker/Steps.antt =====
-- Every step of the worker and the server keeps the table consistent
-- (internal/webhook/deliver.go, internal/store/webhooks.go).
use muesli.Base.{
  ℕ, ◌≡◌, ◌≢◌, refl, sym, ap, subst, ◌∙◌, Bool, true, false, ◌&&◌, Option, some, List, [], ◌∷◌, inl,
  inr, ◌⊎◌, Bool-cases, Option-cases, arith, All, All-map, All-both, All-append, update_rows,
  count_rows, update_rows-All, find_row, find_row-All, find_row-fits, ◌==◌,
}
use muesli.Base.Text.{Text, text_eq, text_eq_iff}
use muesli.Webhook.{
  WebhookDelivery, Tables, ok, with_id, pending, in_flight, delivered, failed, is_in_flight,
  is_pending, claim_delivery, reset_inflight_deliveries, create_delivery, new_delivery,
  retry_delivery, retried_delivery, is_owned, DeliveryStatus,
}
use muesli.Webhook.Worker.{
  World, Worker, Event, ticks, dispatches, dies, restarts, creates, retries, step, run, dispatch,
  kept, logged,
}
use muesli.Webhook.Worker.Outcome.{
  claimable_row, claimed_row, dispatch-Settled, logged-update_deliveries,
}
use muesli.Webhook.Worker.Snapshot.{
  IsKeyed, Matches, IsSnapshot, KeepsId, update_rows-IsKeyed, append-Matches, append-IsKeyed,
  list_pending_deliveries-IsSnapshot,
}
use muesli.Webhook.Worker.Attempts.{
  IsWithin, IsConsistent, settled-IsConsistent, tail-IsSnapshot, update_rows-IsSnapshot,
}

-- A poll that is over, or has not begun.
empty_snapshot : (rows : List WebhookDelivery) → IsSnapshot rows []
unfolding count_rows
empty_snapshot rows = record { matching = tt; pending_rows = tt; keyed = λ id. omega arith }

dispatch-IsConsistent :
    (w : World) (d : WebhookDelivery) (ds : List WebhookDelivery) (t : Tables)
    → IsConsistent t (d ∷ ds)
    → IsConsistent (dispatch w d t).0 ds
dispatch-IsConsistent w d ds t h = elim (dispatch-Settled w d t) [
  | inl same ↦
      subst (λ u. IsConsistent u ds) (sym same)
        (record {
          keyed = h.keyed;
          within = h.within;
          snapshot = tail-IsSnapshot t.deliveries d ds h.snapshot;
        })
  | inr (change, s, same) ↦
      subst (λ u. IsConsistent u ds) (sym same) (settled-IsConsistent w d ds t h change s)
]

-- An UPDATE that keeps ids, the counts' bound and the snapshot.
updated-IsConsistent :
    (fits : WebhookDelivery → Bool) (change : WebhookDelivery → WebhookDelivery) (t : Tables)
    (todo : List WebhookDelivery)
    → KeepsId change
    → ((r : WebhookDelivery) → IsWithin r → fits r ≡ true → IsWithin (change r))
    → IsSnapshot (update_rows fits change t.deliveries) todo
    → IsKeyed t.deliveries
    → All IsWithin t.deliveries
    → IsConsistent (record t { deliveries = update_rows fits change t.deliveries }) todo
updated-IsConsistent fits change t todo keeps within snapshot key h = record {
  keyed = update_rows-IsKeyed fits change t.deliveries keeps key;
  within = update_rows-All IsWithin fits change t.deliveries within h;
  snapshot = snapshot;
}

restart-IsConsistent :
    (now : ℕ) (t : Tables) (todo : List WebhookDelivery)
    → IsConsistent t todo
    → IsConsistent (reset_inflight_deliveries now t) []
unfolding reset_inflight_deliveries
restart-IsConsistent now t todo h =
    updated-IsConsistent _ _ t [] (λ r. refl)
      (λ r q e. (q.0, (λ _. q.1 (λ f. not_failed r e f)), q.2)) (empty_snapshot _) h.keyed h.within
  where
    not_failed : (r : WebhookDelivery) → is_in_flight r.status ≡ true → r.status ≡ failed → ⊥
    not_failed r e f = let no = subst (λ s. is_in_flight s ≡ true) f e in cc

create-IsConsistent :
    (now : ℕ) (id webhook_id payload : Text) (t : Tables) (todo : List WebhookDelivery)
    → count_rows (with_id id) t.deliveries ≡ 0
    → IsConsistent t todo
    → IsConsistent (create_delivery now id webhook_id payload t) todo
unfolding create_delivery new_delivery
create-IsConsistent now id webhook_id payload t todo fresh h =
    let new = new_delivery now id webhook_id payload in
    record {
      keyed = append-IsKeyed t.deliveries new fresh h.keyed;
      within =
          All-append IsWithin t.deliveries (new ∷ []) h.within
            ((omega arith, (λ _. omega arith), omega arith), tt);
      snapshot = record {
        matching =
            All-map _ _ (λ d m. append-Matches t.deliveries new d fresh m) todo h.snapshot.matching;
        pending_rows = h.snapshot.pending_rows;
        keyed = h.snapshot.keyed;
      };
    }

abbrev pub found : Text → Text → Tables → Option WebhookDelivery
found owner_id id t = find_row (λ d. text_eq d.id id && is_owned owner_id t d) t.deliveries

status-cases :
    (s : DeliveryStatus) → (s ≡ failed) ⊎ (s ≡ delivered) ⊎ (s ≡ pending) ⊎ (s ≡ in_flight)
status-cases failed = inl refl
status-cases delivered = inr (inl refl)
status-cases pending = inr (inr (inl refl))
status-cases in_flight = inr (inr (inr refl))

failed_retry :
    (now : ℕ) (owner_id id : Text) (t : Tables) {d : WebhookDelivery}
    → found owner_id id t ≡ some d
    → d.status ≡ failed
    → retry_delivery now owner_id id t
      ≡ ok (
        pending,
        record t { deliveries = update_rows (with_id id) (retried_delivery now) t.deliveries },
      )
unfolding retry_delivery
failed_retry now owner_id id t e s = rw (retry_delivery, e, s) refl

-- A retry changes nothing unless the delivery that it finds has failed.
pub retry_effect :
    (now : ℕ) (owner_id id : Text) (t : Tables)
    → (kept t (retry_delivery now owner_id id t) ≡ t)
      ⊎ ((d : WebhookDelivery) × (found owner_id id t ≡ some d)
          × (d.status ≡ failed)
          × (kept t (retry_delivery now owner_id id t) ≡ record t {
            deliveries = update_rows (with_id id) (retried_delivery now) t.deliveries;
          }))
unfolding retry_delivery
retry_effect now owner_id id t = elim (Option-cases (found owner_id id t)) [
  | inl e ↦ rw (retry_delivery, e) (inl refl)
  | inr (d, e) ↦ elim (status-cases d.status) [
    | inl s ↦ inr (d, e, s, ap (kept t) (failed_retry now owner_id id t e s))
    | inr (inl s) ↦ rw (retry_delivery, e, s) (inl refl)
    | inr (inr (inl s)) ↦ rw (retry_delivery, e, s) (inl refl)
    | inr (inr (inr s)) ↦ rw (retry_delivery, e, s) (inl refl)
  ]
]

-- The delivery that a retry restarts is none that the poll in progress still has to do.
pub retried_apart :
    (owner_id id : Text) (t : Tables) {d : WebhookDelivery}
    → found owner_id id t ≡ some d
    → d.status ≡ failed
    → (e : WebhookDelivery) → (e.status ≢ failed) × Matches t.deliveries e
    → with_id id e ≡ false
retried_apart owner_id id t {d} f s e (p, m) = elim (Bool-cases (text_eq e.id id)) [
  | inr miss ↦ miss
  | inl hit ↦
      let fits = find_row-fits (λ r. text_eq r.id id && is_owned owner_id t r) t.deliveries f in
      let here : d.id ≡ id = (text_eq_iff d.id id).0 (ground arith) in
      let there = (text_eq_iff e.id id).0 hit in
      let same : d ≡ e =
        find_row-All (λ r. r.id ≡ e.id → r ≡ e) _ t.deliveries m.current f (here ∙ sym there) in
      absurd (p (ap (λ r. r.status) (sym same) ∙ s))
]

retry-IsConsistent :
    (now : ℕ) (owner_id id : Text) (t : Tables) (todo : List WebhookDelivery)
    → IsConsistent t todo
    → IsConsistent (kept t (retry_delivery now owner_id id t)) todo
retry-IsConsistent now owner_id id t todo h = elim (retry_effect now owner_id id t) [
  | inl same ↦ subst (λ u. IsConsistent u todo) (sym same) h
  | inr (d, e, s, same) ↦
      subst (λ u. IsConsistent u todo) (sym same)
        (updated-IsConsistent (with_id id) (retried_delivery now) t todo (λ r. refl)
          (λ r q e. (omega arith, (λ _. q.2), q.2))
          (update_rows-IsSnapshot (with_id id) (retried_delivery now) t.deliveries todo (λ r. refl)
            (All-map _ _ (retried_apart owner_id id t e s) todo (
              All-both _ _ todo (All-map _ _ (λ e p f. cc) todo h.snapshot.pending_rows)
                h.snapshot.matching))
            h.snapshot)
          h.keyed h.within)
]

claim-IsConsistent :
    (now : ℕ) (d : WebhookDelivery) (t : Tables) (todo : List WebhookDelivery)
    → IsConsistent t todo
    → IsConsistent (logged t (claim_delivery now d.id t)) []
unfolding claim_delivery
claim-IsConsistent now d t todo h =
    rw (logged-update_deliveries (claimable_row d.id) (claimed_row now) t) (
      updated-IsConsistent (claimable_row d.id) (claimed_row now) t [] (λ r. refl)
        (λ r q e. (q.0, (λ _. q.1 (λ f. not_failed r e f)), q.2)) (empty_snapshot _) h.keyed
        h.within)
  where
    not_failed : (r : WebhookDelivery) → claimable_row d.id r ≡ true → r.status ≡ failed → ⊥
    not_failed r e f =
        let no : is_pending r.status ≡ true = ground arith in
        let never = subst (λ s. is_pending s ≡ true) f no in cc

pub todo-cases :
    (xs : List WebhookDelivery)
    → (xs ≡ []) ⊎ ((d : WebhookDelivery) × (ds : List WebhookDelivery) × (xs ≡ d ∷ ds))
todo-cases [] = inl refl
todo-cases (d ∷ ds) = inr (d, ds, refl)

pub step-IsConsistent :
    (e : Event) (s : Worker)
    → IsConsistent s.tables s.todo
    → IsConsistent (step e s).tables (step e s).todo
unfolding step
step-IsConsistent (ticks locked now) s h = elim (todo-cases s.todo) [
  | inl e ↦
      rw (step, e)
        (record {
          keyed = h.keyed;
          within = h.within;
          snapshot = list_pending_deliveries-IsSnapshot locked now 10 s.tables h.keyed;
        })
  | inr (d, ds, e) ↦ rw (step, e) h
]
step-IsConsistent (dispatches w) s h = elim (todo-cases s.todo) [
  | inl e ↦ rw (step, e) h
  | inr (d, ds, e) ↦
      rw (step, e) (dispatch-IsConsistent w d ds s.tables (subst (IsConsistent s.tables) e h))
]
step-IsConsistent (dies now) s h = elim (todo-cases s.todo) [
  | inl e ↦ rw (step, e) h
  | inr (d, ds, e) ↦ rw (step, e) (claim-IsConsistent now d s.tables s.todo h)
]
step-IsConsistent (restarts now) s h = restart-IsConsistent now s.tables s.todo h
step-IsConsistent (creates now id webhook_id payload) s h =
    elim (Bool-cases (count_rows (with_id id) s.tables.deliveries == 0)) [
      | inl e ↦
          rw (step, e)
            (create-IsConsistent now id webhook_id payload s.tables s.todo (ground arith) h)
      | inr e ↦ rw (step, e) h
    ]
step-IsConsistent (retries now owner_id id) s h =
    retry-IsConsistent now owner_id id s.tables s.todo h

-- From a consistent state, whatever the worker and the server do and in whatever order, and with
-- crashes and restarts of the worker in between: no delivery counts more attempts than its limit,
-- and one that has not failed for good has an attempt left. Every row that a poll still has
-- to do is in the table as it was read.
pub run-IsConsistent :
    (es : List Event) (s : Worker)
    → IsConsistent s.tables s.todo
    → IsConsistent (run es s).tables (run es s).todo
unfolding run
run-IsConsistent [] s h = h
run-IsConsistent (e ∷ es) s h = run-IsConsistent es (step e s) (step-IsConsistent e s h)
