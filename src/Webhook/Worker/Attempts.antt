-- ===== src/Webhook/Worker/Attempts.antt =====
-- The count of attempts and its limit, over every run of the worker and the server
-- (internal/webhook/deliver.go, internal/store/webhooks.go).
use muesli.Base.{
  ℕ, ◌≤◌, ◌<◌, ◌≡◌, ◌≢◌, refl, ap, subst, Bool, false, List, ◌∷◌, arith, All, All-map, All-both,
  update_rows, update_rows-change,
}
use muesli.Base.Text.{text_eq_iff}
use muesli.Webhook.{WebhookDelivery, Tables, with_id, pending, failed, failed_delivery}
use muesli.Webhook.Worker.{World}
use muesli.Webhook.Worker.Outcome.{
  Settles, settles_delivered, settles_failed, settles_requeued, claimable_row, claimed_row,
  claimed_rows,
}
use muesli.Webhook.Worker.Snapshot.{
  IsKeyed, Matches, IsSnapshot, KeepsId, update_rows-IsKeyed, update_rows-Matches, others,
  tail-IsKeyed,
}

-- The attempts are at most the limit, and below it unless the delivery has failed for good; the
-- limit is at least one.
abbrev pub IsWithin : WebhookDelivery → Type 0
IsWithin r =
    (r.attempts ≤ r.max_attempts)
    × (r.status ≢ failed → r.attempts < r.max_attempts)
    × (0 < r.max_attempts)

pub record IsConsistent (t : Tables) (todo : List WebhookDelivery) : Type 0 where
  pub keyed : IsKeyed t.deliveries
  pub within : All IsWithin t.deliveries
  pub snapshot : IsSnapshot t.deliveries todo

pub tail-IsSnapshot :
    (rows : List WebhookDelivery) (d : WebhookDelivery) (ds : List WebhookDelivery)
    → IsSnapshot rows (d ∷ ds)
    → IsSnapshot rows ds
tail-IsSnapshot rows d ds h = record {
  matching = h.matching.1;
  pending_rows = h.pending_rows.1;
  keyed = tail-IsKeyed d ds h.keyed;
}

module _ (fits : WebhookDelivery → Bool) (change : WebhookDelivery → WebhookDelivery) where
  -- An UPDATE that keeps ids and passes over the rows of a snapshot.
  pub update_rows-IsSnapshot :
      (rows todo : List WebhookDelivery)
      → KeepsId change
      → All (λ e. fits e ≡ false) todo
      → IsSnapshot rows todo
      → IsSnapshot (update_rows fits change rows) todo
  update_rows-IsSnapshot rows todo keeps miss h = record {
    matching =
        All-map (λ e. (fits e ≡ false) × Matches rows e) (Matches (update_rows fits change rows))
          (λ e p. update_rows-Matches fits change rows e keeps p.0 p.1) todo
          (All-both _ _ todo miss h.matching);
    pending_rows = h.pending_rows;
    keyed = h.keyed;
  }

module _ (now : ℕ) (d : WebhookDelivery) where
  -- What the claim leaves of the row: its counts, which have room for one more attempt.
  abbrev HasRoom : WebhookDelivery → Type 0
  HasRoom r =
      IsWithin r
      × (r.id ≡ d.id
          → (r.attempts ≡ d.attempts)
            × (r.max_attempts ≡ d.max_attempts)
            × (d.attempts < d.max_attempts))

  module _ (p : d.status ≡ pending) where
    room :
        (r : WebhookDelivery)
        → IsWithin r
        → r ≡ d
        → (r.attempts ≡ d.attempts)
          × (r.max_attempts ≡ d.max_attempts)
          × (d.attempts < d.max_attempts)
    room r h e =
        (ap (λ x. x.attempts) e, ap (λ x. x.max_attempts) e, (subst IsWithin e h).1 (λ f. cc))

    claimed_room :
        (r : WebhookDelivery)
        → IsWithin r × (r.id ≡ d.id → r ≡ d)
        → r ≡ d
        → HasRoom (claimed_row now r)
    claimed_room r q e =
        let facts = room r q.0 e in ((q.0.0, (λ _. omega (arith, facts)), q.0.2), (λ _. facts))

  claimed-HasRoom :
      (rows : List WebhookDelivery)
      → d.status ≡ pending
      → All IsWithin rows
      → Matches rows d
      → All HasRoom (claimed_rows now d.id rows)
  claimed-HasRoom rows p h m =
      update_rows-change (λ r. IsWithin r × (r.id ≡ d.id → r ≡ d)) HasRoom (claimable_row d.id)
        (claimed_row now) rows
        (λ x q c. let e = (text_eq_iff x.id d.id).0 (ground arith) in claimed_room p x q (q.1 e))
        (λ x q c. (q.0, λ e. room p x q.0 (q.1 e))) (All-both _ _ rows h m.current)

  settled-IsWithin :
      {change : WebhookDelivery → WebhookDelivery}
      → Settles now d change
      → (r : WebhookDelivery) → HasRoom r
      → r.id ≡ d.id
      → IsWithin (change r)
  unfolding failed_delivery
  settled-IsWithin settles_delivered r h e = ground (arith, h.1 e)
  settled-IsWithin (settles_failed message) r h e = ground (arith, h.1 e)
  settled-IsWithin (settles_requeued message next room) r h e = ground (arith, h.1 e)

pub Settles-KeepsId :
    {now : ℕ} {d : WebhookDelivery} {change : WebhookDelivery → WebhookDelivery}
    → Settles now d change
    → KeepsId change
unfolding failed_delivery
Settles-KeepsId settles_delivered r = refl
Settles-KeepsId (settles_failed message) r = refl
Settles-KeepsId (settles_requeued message next room) r = refl

-- A claim and a settlement of the first delivery of a poll.
pub settled-IsConsistent :
    (w : World) (d : WebhookDelivery) (ds : List WebhookDelivery) (t : Tables)
    → IsConsistent t (d ∷ ds)
    → (change : WebhookDelivery → WebhookDelivery) → Settles w.db_now d change
    → IsConsistent
        (record t {
          deliveries = update_rows (with_id d.id) change (claimed_rows w.db_now d.id t.deliveries);
        })
        ds
settled-IsConsistent w d ds t h change s =
    let claimed = claimed_rows w.db_now d.id t.deliveries in
    let apart = others d ds h.snapshot.keyed in
    let p = h.snapshot.pending_rows.0 in
    let keeps = Settles-KeepsId s in
    record {
      keyed = update_rows-IsKeyed (with_id d.id) change claimed keeps (
          update_rows-IsKeyed (claimable_row d.id) (claimed_row w.db_now) t.deliveries (λ r. refl)
            h.keyed);
      within =
          update_rows-change (HasRoom w.db_now d) IsWithin (with_id d.id) change claimed
            (λ r room e. settled-IsWithin w.db_now d s r room ((text_eq_iff r.id d.id).0 e))
            (λ r room e. room.0)
            (claimed-HasRoom w.db_now d t.deliveries p h.within h.snapshot.matching.0);
      snapshot = update_rows-IsSnapshot (with_id d.id) change claimed ds keeps apart (
          update_rows-IsSnapshot (claimable_row d.id) (claimed_row w.db_now) t.deliveries ds
            (λ r. refl) (All-map _ _ (λ e q. rw q refl) ds apart)
            (tail-IsSnapshot t.deliveries d ds h.snapshot));
    }
