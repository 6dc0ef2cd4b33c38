-- ===== src/Webhook/Worker/Outcome.antt =====
-- What one dispatch does to the table: internal/webhook/deliver.go.
use muesli.Base.{
  ℕ, ◌+◌, ◌<◌, ◌≡◌, refl, Bool, ◌&&◌, none, some, List, inl, inr, ◌⊎◌, Bool-cases, Option-cases,
  arith, leb, ltb, ◌==◌, if_cases, update_rows, count_rows, update_rows_none,
}
use muesli.Base.Text.{Text, text_eq}
use muesli.Webhook.{
  WebhookDelivery, Webhook, Tables, StoreError, Result, ok, err, with_id, is_pending, in_flight,
  delivered, failed_delivery, update_deliveries, claim_delivery, mark_delivered, mark_failed,
  get_delivery_webhook,
}
use muesli.Webhook.Worker.{
  World, Reply, http_error, response, logged, give_up, fail, interpret, send, deliver, dispatch,
}

pub logged-update_deliveries :
    (fits : WebhookDelivery → Bool) (change : WebhookDelivery → WebhookDelivery) (t : Tables)
    → logged t (update_deliveries fits change t)
      ≡ record t { deliveries = update_rows fits change t.deliveries }
logged-update_deliveries fits change t = elim (Bool-cases (count_rows fits t.deliveries == 0)) [
  | inl e ↦
      let same = update_rows_none fits change t.deliveries (ground arith) in
      rw (update_deliveries, e, same) refl
  | inr e ↦ rw (update_deliveries, e) refl
]

abbrev pub claimable_row : Text → WebhookDelivery → Bool
claimable_row id d = text_eq d.id id && is_pending d.status

abbrev pub claimed_row : ℕ → WebhookDelivery → WebhookDelivery
claimed_row now d = record d { status = in_flight; updated_at = now }

abbrev pub delivered_row : ℕ → WebhookDelivery → WebhookDelivery
delivered_row now d = record d { status = delivered; updated_at = now }

-- How a claimed delivery is settled: what is written on its row.
pub data Settles (now : ℕ) (d : WebhookDelivery)
    : (WebhookDelivery → WebhookDelivery) → Type 0 where
  settles_delivered : Settles now d (delivered_row now)
  settles_failed : (message : Text) → Settles now d (failed_delivery now message none)
  settles_requeued :
      (message : Text) (next : ℕ)
      → d.attempts + 1 < d.max_attempts
      → Settles now d (failed_delivery now message (some next))

-- The rows after the claim, and after the settlement.
abbrev pub claimed_rows : ℕ → Text → List WebhookDelivery → List WebhookDelivery
claimed_rows now id = update_rows (claimable_row id) (claimed_row now)

abbrev pub Settled : World → WebhookDelivery → Tables → Tables → Type 0
Settled w d t t' =
    (change : WebhookDelivery → WebhookDelivery) × Settles w.db_now d change
    × (t' ≡ record t { deliveries = update_rows (with_id d.id) change t.deliveries })

pub Result-cases :
    {A : Type 0} (r : Result A) → ((e : StoreError) × (r ≡ err e)) ⊎ ((a : A) × (r ≡ ok a))
Result-cases (err e) = inl (e, refl)
Result-cases (ok a) = inr (a, refl)

module _ (w : World) (d : WebhookDelivery) where
  give_up-Settled : (message : Text) (t : Tables) → Settled w d t (give_up w d message t)
  unfolding give_up mark_failed
  give_up-Settled message t =
      (_, settles_failed message, logged-update_deliveries (with_id d.id) _ t)

  fail-Settled : (message : Text) (t : Tables) → Settled w d t (fail w d message t)
  unfolding fail mark_failed
  fail-Settled message t =
      if_cases (Settled w d t) (leb d.max_attempts (d.attempts + 1))
        (λ _. give_up-Settled message t)
        (λ e. (
          _,
          settles_requeued message _ (ground arith),
          logged-update_deliveries (with_id d.id) _ t,
        ))

  interpret-Settled : (reply : Reply) (t : Tables) → Settled w d t (interpret w d reply t)
  unfolding interpret mark_delivered
  interpret-Settled (http_error e) t = fail-Settled _ t
  interpret-Settled (response status) t =
      if_cases (Settled w d t) (leb 200 status && ltb status 300)
        (λ _. (_, settles_delivered, logged-update_deliveries (with_id d.id) _ t))
        (λ _. fail-Settled _ t)

  send-Settled : (wh : Webhook) (t : Tables) → Settled w d t (send w d wh t).0
  unfolding send
  send-Settled wh t = elim (Option-cases (w.request_error wh.url)) [
    | inl e ↦ rw (send, e) (interpret-Settled _ t)
    | inr (message, e) ↦ rw (send, e) (fail-Settled _ t)
  ]

  deliver-Settled : (t : Tables) → Settled w d t (deliver w d t).0
  unfolding deliver
  deliver-Settled t = elim (Result-cases (get_delivery_webhook d.id t)) [
    | inl (error, e) ↦ rw (deliver, e) (fail-Settled _ t)
    | inr (wh, e) ↦ elim (Option-cases (w.validate_url wh.url)) [
      | inl v ↦ rw (deliver, e, v) (send-Settled wh t)
      | inr (message, v) ↦ rw (deliver, e, v) (give_up-Settled _ t)
    ]
  ]

  -- A dispatch leaves the tables, or claims the delivery, which was pending, and settles it.
  pub dispatch-Settled :
      (t : Tables)
      → ((dispatch w d t).0 ≡ t)
        ⊎ Settled w d
            (record t { deliveries = claimed_rows w.db_now d.id t.deliveries })
            (dispatch w d t).0
  unfolding dispatch claim_delivery
  dispatch-Settled t = elim (Bool-cases (w.parses_id d.id)) [
    | inl p ↦ elim (Bool-cases (count_rows (claimable_row d.id) t.deliveries == 0)) [
      | inl e ↦ rw (dispatch, p, claim_delivery, update_deliveries, e) (inl refl)
      | inr e ↦ rw (dispatch, p, claim_delivery, update_deliveries, e) (inr (deliver-Settled _))
    ]
    | inr p ↦ rw (dispatch, p) (inl refl)
  ]
