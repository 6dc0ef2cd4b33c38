-- ===== src/Webhook/Worker/Final.antt =====
-- A delivery that has been delivered stays so and is not sent again (internal/webhook/deliver.go,
-- internal/store/webhooks.go).
use muesli.Base.{
  ℕ, ◌≡◌, refl, sym, ap, subst, ◌∙◌, false, List, [], ◌∷◌, ◌++◌, inl, inr, Bool-cases, arith, All,
  All-map, count_rows, count_rows-append, count_rows-witness, All-both, ◌==◌,
}
use muesli.Base.Text.{Text, text_eq, text_eq_iff}
use muesli.Webhook.{
  WebhookDelivery, Tables, with_id, pending, delivered, retried_delivery, reset_inflight_deliveries,
  create_delivery, new_delivery, claim_delivery, is_in_flight,
}
use muesli.Webhook.Worker.{
  World, Worker, Post, Event, ticks, dispatches, dies, restarts, creates, retries, step, run,
  dispatch,
}
use muesli.Webhook.Worker.Outcome.{
  claimable_row, claimed_row, claimed_rows, dispatch-Settled, logged-update_deliveries,
}
use muesli.Webhook.Worker.Snapshot.{Matches, IsSnapshot, update_rows-Matches, append-Matches}
use muesli.Webhook.Worker.Attempts.{IsConsistent, Settles-KeepsId}
use muesli.Webhook.Worker.Steps.{step-IsConsistent, todo-cases, retry_effect, retried_apart}
use muesli.Webhook.Worker.Posts.{IsChecked, dispatch-IsChecked}

-- How many requests were sent for a delivery.
abbrev pub posts_of : Text → List Post → ℕ
posts_of id = count_rows (λ p. text_eq p.delivery_id id)

posts_of_others :
    (id : Text) (posts : List Post)
    → All (λ p. text_eq p.delivery_id id ≡ false) posts
    → posts_of id posts ≡ 0
unfolding count_rows
posts_of_others id [] h = refl
posts_of_others id (p ∷ ps) h = ground (arith, posts_of_others id ps h.1)

differs : (a b c : Text) → text_eq a b ≡ false → c ≡ b → text_eq c a ≡ false
differs a b c other same = elim (Bool-cases (text_eq c a)) [
  | inr e ↦ e
  | inl e ↦ let equal = (text_eq_iff a b).1 (sym ((text_eq_iff c a).0 e) ∙ same) in absurd cc
]

-- Two rows that match and have one id are the same.
Matches-unique :
    (rows : List WebhookDelivery) (a b : WebhookDelivery)
    → Matches rows a
    → Matches rows b
    → a.id ≡ b.id
    → a ≡ b
Matches-unique rows a b ma mb e =
    let p = ma.present in
    let (x, same, hit) =
      count_rows-witness (λ r. (r.id ≡ a.id → r ≡ a) × (r.id ≡ b.id → r ≡ b)) (with_id a.id) rows
        (All-both _ _ rows ma.current mb.current) (omega (arith, p)) in
    let here = (text_eq_iff x.id a.id).0 hit in sym (same.0 here) ∙ same.1 (here ∙ e)

-- A delivery that is delivered, and how often it was sent.
pub record IsFinal (r : WebhookDelivery) (n : ℕ) (t : Tables) (posts : List Post) : Type 0 where
  pub kept_row : Matches t.deliveries r
  pub sent : posts_of r.id posts ≡ n

module _ (r : WebhookDelivery) (done : r.status ≡ delivered) where
  -- A row that a poll has read is not this one: it was pending.
  apart :
      (t : Tables) (d : WebhookDelivery)
      → Matches t.deliveries r
      → Matches t.deliveries d
      → d.status ≡ pending
      → text_eq r.id d.id ≡ false
  apart t d m m' p = elim (Bool-cases (text_eq r.id d.id)) [
    | inr e ↦ e
    | inl e ↦
        let same = Matches-unique t.deliveries r d m m' ((text_eq_iff r.id d.id).0 e) in
        absurd (let status = ap (λ x. x.status) same in cc)
  ]

  dispatch-Matches :
      (w : World) (d : WebhookDelivery) (t : Tables)
      → text_eq r.id d.id ≡ false
      → Matches t.deliveries r
      → Matches (dispatch w d t).0.deliveries r
  dispatch-Matches w d t other m = elim (dispatch-Settled w d t) [
    | inl same ↦ subst (λ u. Matches u.deliveries r) (sym same) m
    | inr (change, s, same) ↦
        subst (λ u. Matches u.deliveries r) (sym same)
          (update_rows-Matches (with_id d.id) change (claimed_rows w.db_now d.id t.deliveries) r
            (Settles-KeepsId s) other
            (update_rows-Matches (claimable_row d.id) (claimed_row w.db_now) t.deliveries r
              (λ x. refl) (rw other refl) m))
  ]

  dispatch_sends_others :
      (w : World) (d : WebhookDelivery) (t : Tables)
      → text_eq r.id d.id ≡ false
      → posts_of r.id (dispatch w d t).1 ≡ 0
  dispatch_sends_others w d t other = posts_of_others r.id (dispatch w d t).1 (
      All-map (IsChecked w d) _ (λ p c. differs r.id d.id p.delivery_id other c.own)
        (dispatch w d t).1 (dispatch-IsChecked w d t))

  sent_after :
      (w : World) (d : WebhookDelivery) (t : Tables) (posts : List Post) (n : ℕ)
      → text_eq r.id d.id ≡ false
      → posts_of r.id posts ≡ n
      → posts_of r.id (posts ++ (dispatch w d t).1) ≡ n
  sent_after w d t posts n other sent =
      let all = count_rows-append (λ p. text_eq p.delivery_id r.id) posts (dispatch w d t).1 in
      let none_sent = dispatch_sends_others w d t other in omega (arith, all, none_sent, sent)

  not_claimable : (id : Text) → claimable_row id r ≡ false
  not_claimable id = ground arith

  step-IsFinal :
      (n : ℕ) (e : Event) (s : Worker)
      → IsConsistent s.tables s.todo
      → IsFinal r n s.tables s.posts
      → IsFinal r n (step e s).tables (step e s).posts
  unfolding step reset_inflight_deliveries create_delivery new_delivery claim_delivery
  step-IsFinal n (ticks locked now) s h f = elim (todo-cases s.todo) [
    | inl e ↦ rw (step, e) f
    | inr (d, ds, e) ↦ rw (step, e) f
  ]
  step-IsFinal n (dispatches w) s h f = elim (todo-cases s.todo) [
    | inl e ↦ rw (step, e) f
    | inr (d, ds, e) ↦
        let snapshot = subst (IsSnapshot s.tables.deliveries) e h.snapshot in
        let other = apart s.tables d f.kept_row snapshot.matching.0 snapshot.pending_rows.0 in
        rw (step, e)
          (record {
            kept_row = dispatch-Matches w d s.tables other f.kept_row;
            sent = sent_after w d s.tables s.posts n other f.sent;
          })
  ]
  step-IsFinal n (dies now) s h f = elim (todo-cases s.todo) [
    | inl e ↦ rw (step, e) f
    | inr (d, ds, e) ↦
        rw (step, e)
          (record {
            kept_row =
                rw
                  (
                    claim_delivery,
                    logged-update_deliveries (claimable_row d.id) (claimed_row now) s.tables,
                  )
                  (update_rows-Matches (claimable_row d.id) (claimed_row now) s.tables.deliveries r
                    (λ x. refl) (not_claimable d.id) f.kept_row);
            sent = f.sent;
          })
  ]
  step-IsFinal n (restarts now) s h f = record {
    kept_row =
        update_rows-Matches (λ x. is_in_flight x.status) _ s.tables.deliveries r (λ x. refl)
          (rw done refl) f.kept_row;
    sent = f.sent;
  }
  step-IsFinal n (creates now id webhook_id payload) s h f =
      elim (Bool-cases (count_rows (with_id id) s.tables.deliveries == 0)) [
        | inl e ↦
            rw (step, e)
              (record {
                kept_row =
                    append-Matches s.tables.deliveries (new_delivery now id webhook_id payload) r
                      (ground arith) f.kept_row;
                sent = f.sent;
              })
        | inr e ↦ rw (step, e) f
      ]
  step-IsFinal n (retries now owner_id id) s h f = elim (retry_effect now owner_id id s.tables) [
    | inl same ↦ record {
      kept_row = subst (λ u. Matches u.deliveries r) (sym same) f.kept_row;
      sent = f.sent;
    }
    | inr (d, e, st, same) ↦ record {
      kept_row =
          subst (λ u. Matches u.deliveries r) (sym same)
            (update_rows-Matches (with_id id) (retried_delivery now) s.tables.deliveries r
              (λ x. refl) (retried_apart owner_id id s.tables e st r ((λ no. cc), f.kept_row))
              f.kept_row);
      sent = f.sent;
    }
  ]

-- A delivery that has been delivered is final: whatever the worker and the server do afterwards, a
-- manual retry included, its row stays as it is and no further request is sent for it. The state
-- is consistent, as every state is that the system reaches from an empty table.
pub run-IsFinal :
    (es : List Event) (s : Worker) (r : WebhookDelivery)
    → IsConsistent s.tables s.todo
    → Matches s.tables.deliveries r
    → r.status ≡ delivered
    → let s' = run es s in
      Matches s'.tables.deliveries r × (posts_of r.id s'.posts ≡ posts_of r.id s.posts)
unfolding run
run-IsFinal es s r h m done =
    let f = go es s h (record { kept_row = m; sent = refl }) in (f.kept_row, f.sent)
  where
    go :
        (es : List Event) (t : Worker)
        → IsConsistent t.tables t.todo
        → IsFinal r (posts_of r.id s.posts) t.tables t.posts
        → IsFinal r (posts_of r.id s.posts) (run es t).tables (run es t).posts
    go [] t h f = f
    go (e ∷ es) t h f = go es (step e t) (step-IsConsistent e t h) (step-IsFinal r done _ e t h f)
