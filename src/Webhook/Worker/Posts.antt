-- ===== src/Webhook/Worker/Posts.antt =====
-- The requests that a dispatch sends (internal/webhook/deliver.go, validate.go).
use muesli.Base.{
  ◌≡◌, refl, none, some, [], inl, inr, Bool-cases, Option-cases, All, All-map, count_rows, ◌==◌,
}
use muesli.Base.Text.{Text}
use muesli.Webhook.{
  WebhookDelivery, Webhook, Tables, get_delivery_webhook, claim_delivery, update_deliveries,
}
use muesli.Webhook.Worker.{World, Post, send, deliver, dispatch, post_of}
use muesli.Webhook.Worker.Outcome.{claimable_row, Result-cases}
use muesli.Webhook.Address.{Net, Url, validate_webhook_url}
use muesli.Webhook.Address.Validated.{IsAllowed, validate_webhook_url-none_iff}

-- The request of `d` to a URL that the check of this dispatch passed, with the payload as its body.
pub record IsChecked (w : World) (d : WebhookDelivery) (p : Post) : Type 0 where
  pub own : p.delivery_id ≡ d.id
  pub body : p.body ≡ d.payload
  pub passed : w.validate_url p.url ≡ none

module _ (w : World) (d : WebhookDelivery) where
  send-IsChecked :
      (wh : Webhook) (t : Tables)
      → w.validate_url wh.url ≡ none
      → All (IsChecked w d) (send w d wh t).1
  unfolding send post_of
  send-IsChecked wh t v = elim (Option-cases (w.request_error wh.url)) [
    | inl e ↦ rw (send, e) (record { own = refl; body = refl; passed = v }, tt)
    | inr (message, e) ↦ rw (send, e) tt
  ]

  deliver-IsChecked : (t : Tables) → All (IsChecked w d) (deliver w d t).1
  unfolding deliver
  deliver-IsChecked t = elim (Result-cases (get_delivery_webhook d.id t)) [
    | inl (error, e) ↦ rw (deliver, e) tt
    | inr (wh, e) ↦ elim (Option-cases (w.validate_url wh.url)) [
      | inl v ↦ rw (deliver, e, v) (send-IsChecked wh t v)
      | inr (message, v) ↦ rw (deliver, e, v) tt
    ]
  ]

  -- A dispatch sends only its own delivery, to a URL that its check passed.
  pub dispatch-IsChecked : (t : Tables) → All (IsChecked w d) (dispatch w d t).1
  unfolding dispatch claim_delivery
  dispatch-IsChecked t = elim (Bool-cases (w.parses_id d.id)) [
    | inl p ↦ elim (Bool-cases (count_rows (claimable_row d.id) t.deliveries == 0)) [
      | inl e ↦ rw (dispatch, p, claim_delivery, update_deliveries, e) tt
      | inr e ↦ rw (dispatch, p, claim_delivery, update_deliveries, e) (deliver-IsChecked _)
    ]
    | inr p ↦ rw (dispatch, p) tt
  ]

  -- A dispatch whose delivery nobody has pending sends nothing and changes nothing.
  pub dispatch_lost :
      (t : Tables) → count_rows (claimable_row d.id) t.deliveries ≡ 0 → dispatch w d t ≡ (t, [])
  unfolding dispatch claim_delivery
  dispatch_lost t e = elim (Bool-cases (w.parses_id d.id)) [
    | inl p ↦ rw (dispatch, p, claim_delivery, update_deliveries, e) refl
    | inr p ↦ rw (dispatch, p) refl
  ]

-- Where the POST of a dispatch may go.
abbrev pub IsSafe : Net → Post → Type 0
IsSafe n p = (u : Url) × (n.parse_url p.url ≡ some u) × IsAllowed n u

-- With ValidateWebhookURL as its check, a dispatch posts only to a URL with scheme http or https,
-- without credentials, whose host resolved to public addresses only.
pub dispatch-IsSafe :
    (n : Net) (w : World) (d : WebhookDelivery) (t : Tables)
    → ((url : Text) → w.validate_url url ≡ none → validate_webhook_url n url ≡ none)
    → All (λ p. (p.delivery_id ≡ d.id) × (p.body ≡ d.payload) × IsSafe n p) (dispatch w d t).1
dispatch-IsSafe n w d t check =
    All-map _ _
      (λ p c. (c.own, c.body, (validate_webhook_url-none_iff n p.url).0 (check p.url c.passed)))
      (dispatch w d t).1 (dispatch-IsChecked w d t)
