-- ===== src/Webhook.antt =====
-- Outbound webhooks: the statements of internal/store/webhooks.go on the two tables of
-- internal/model/model.go, and under them the worker and the address guard of internal/webhook.
--
-- A table is the list of its rows and a statement is one function on it. A NULL text is `none`.
-- The database's clock (`NOW()`) is an argument, in nanoseconds; the database does not fail.
pub mod Worker
pub mod Address
use muesli.Base.{
  ℕ, ◌+◌, ◌==◌, Bool, true, false, not, ◌&&◌, Option, none, some, List, [], ◌∷◌, ◌++◌, leb, ltb,
  take, if◌then◌else◌, update_rows, count_rows, select_rows, find_row,
}
use muesli.Base.Text.{Text, text_eq}

pub data DeliveryStatus : Type 0 where
  pending in_flight delivered failed : DeliveryStatus

pub record Webhook : Type 0 where
  pub id : Text
  pub owner_id : Text
  pub url : Text
  pub secret : Text
  pub enabled : Bool
  pub created_at : ℕ
  pub updated_at : ℕ

pub record WebhookDelivery : Type 0 where
  pub id : Text
  pub webhook_id : Text
  pub payload : Text
  pub status : DeliveryStatus
  pub attempts : ℕ
  pub max_attempts : ℕ
  pub next_attempt_at : Option ℕ
  pub last_error : Option Text
  pub created_at : ℕ
  pub updated_at : ℕ

pub record Tables : Type 0 where
  pub webhooks : List Webhook
  pub deliveries : List WebhookDelivery

pub data StoreError : Type 0 where
  not_found invalid_state : StoreError

pub data Result {ℓ} (A : Type ℓ) : Type ℓ where
  ok : A → Result A
  err : StoreError → Result A

abbrev pub is_pending : DeliveryStatus → Bool
is_pending pending = true
is_pending _ = false

abbrev pub is_in_flight : DeliveryStatus → Bool
is_in_flight in_flight = true
is_in_flight _ = false

abbrev pub with_id : Text → WebhookDelivery → Bool
with_id id d = text_eq d.id id

-- next_attempt_at IS NULL OR next_attempt_at <= NOW().
abbrev pub is_due : ℕ → Option ℕ → Bool
is_due now none = true
is_due now (some at) = leb at now

-- ORDER BY created_at, by insertion: rows created together stay in the table's order.
insert_by_age : WebhookDelivery → List WebhookDelivery → List WebhookDelivery
insert_by_age d [] = d ∷ []
insert_by_age d (x ∷ xs) =
    let rest = insert_by_age d xs in if leb d.created_at x.created_at then d ∷ x ∷ xs else x ∷ rest

oldest_first : List WebhookDelivery → List WebhookDelivery
oldest_first [] = []
oldest_first (d ∷ ds) = insert_by_age d (oldest_first ds)

-- The condition of ListPendingDeliveries: the rows that other transactions hold are skipped.
abbrev pub is_ready : (WebhookDelivery → Bool) → ℕ → WebhookDelivery → Bool
is_ready locked now d = is_pending d.status && is_due now d.next_attempt_at && not (locked d)

pub list_pending_deliveries : (WebhookDelivery → Bool) → ℕ → ℕ → Tables → List WebhookDelivery
list_pending_deliveries locked now limit t =
    take limit (oldest_first (select_rows (is_ready locked now) t.deliveries))

-- An UPDATE of the deliveries that fit; no row affected is ErrNotFound.
abbrev pub update_deliveries :
    (WebhookDelivery → Bool) → (WebhookDelivery → WebhookDelivery) → Tables → Result Tables
update_deliveries fits change t =
    if count_rows fits t.deliveries == 0
    then err not_found
    else ok (record t { deliveries = update_rows fits change t.deliveries })

pub claim_delivery : ℕ → Text → Tables → Result Tables
claim_delivery now id =
    update_deliveries (λ d. text_eq d.id id && is_pending d.status)
      (λ d. record d { status = in_flight; updated_at = now })

pub mark_delivered : ℕ → Text → Tables → Result Tables
mark_delivered now id =
    update_deliveries (with_id id) (λ d. record d { status = delivered; updated_at = now })

-- What MarkFailed writes: without a time for the next attempt the delivery has failed for good.
pub failed_delivery : ℕ → Text → Option ℕ → WebhookDelivery → WebhookDelivery
failed_delivery now message none d = record d {
  status = failed;
  attempts = d.attempts + 1;
  last_error = some message;
  next_attempt_at = none;
  updated_at = now;
}
failed_delivery now message (some next) d = record d {
  status = pending;
  attempts = d.attempts + 1;
  last_error = some message;
  next_attempt_at = some next;
  updated_at = now;
}

pub mark_failed : ℕ → Text → Text → Option ℕ → Tables → Result Tables
mark_failed now id message next = update_deliveries (with_id id) (failed_delivery now message next)

pub reset_inflight_deliveries : ℕ → Tables → Tables
reset_inflight_deliveries now t = record t {
  deliveries =
      update_rows (λ d. is_in_flight d.status)
        (λ d. record d { status = pending; updated_at = now }) t.deliveries;
}

pub list_enabled_webhooks_for_owner : Text → Tables → List Webhook
list_enabled_webhooks_for_owner owner_id t =
    select_rows (λ w. text_eq w.owner_id owner_id && w.enabled) t.webhooks

-- The row with the defaults of the table.
pub new_delivery : ℕ → Text → Text → Text → WebhookDelivery
new_delivery now id webhook_id payload = record {
  id = id;
  webhook_id = webhook_id;
  payload = payload;
  status = pending;
  attempts = 0;
  max_attempts = 5;
  next_attempt_at = none;
  last_error = none;
  created_at = now;
  updated_at = now;
}

pub create_delivery : ℕ → Text → Text → Text → Tables → Tables
create_delivery now id webhook_id payload t = record t {
  deliveries = t.deliveries ++ new_delivery now id webhook_id payload ∷ [];
}

-- The join of a delivery with its webhook.
pub webhook_of : WebhookDelivery → Tables → Option Webhook
webhook_of d t = find_row (λ w. text_eq w.id d.webhook_id) t.webhooks

pub get_delivery_webhook : Text → Tables → Result Webhook
get_delivery_webhook id t = elim (find_row (with_id id) t.deliveries) [
  | none ↦ err not_found
  | some d ↦ elim (webhook_of d t) [ none ↦ err not_found | some w ↦ ok w ]
]

-- w.owner_id = owner_id, through the join.
pub is_owned : Text → Tables → WebhookDelivery → Bool
is_owned owner_id t d = elim (webhook_of d t) [
  | none ↦ false
  | some w ↦ text_eq w.owner_id owner_id
]

newest_first : List WebhookDelivery → List WebhookDelivery
newest_first ds = reversed (oldest_first ds) []
  where
    reversed : List WebhookDelivery → List WebhookDelivery → List WebhookDelivery
    reversed [] acc = acc
    reversed (x ∷ xs) acc = reversed xs (x ∷ acc)

pub list_deliveries_for_owner : Text → ℕ → Tables → List WebhookDelivery
list_deliveries_for_owner owner_id limit t =
    take limit (newest_first (select_rows (is_owned owner_id t) t.deliveries))

-- What RetryDelivery writes on a failed delivery.
abbrev pub retried_delivery : ℕ → WebhookDelivery → WebhookDelivery
retried_delivery now d = record d {
  status = pending;
  attempts = 0;
  last_error = none;
  next_attempt_at = none;
  updated_at = now;
}

pub retry_delivery : ℕ → Text → Text → Tables → Result (DeliveryStatus × Tables)
retry_delivery now owner_id id t =
    elim (find_row (λ d. text_eq d.id id && is_owned owner_id t d) t.deliveries) [
      | none ↦ err not_found
      | some d ↦ elim d.status [
        | delivered ↦ ok (delivered, t)
        | failed ↦ ok (
          pending,
          record t { deliveries = update_rows (with_id id) (retried_delivery now) t.deliveries },
        )
        | pending ↦ err invalid_state
        | in_flight ↦ err invalid_state
      ]
    ]
