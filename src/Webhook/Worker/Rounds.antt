-- ===== src/Webhook/Worker/Rounds.antt =====
-- The rounds of a delivery, each on what the table then holds: internal/webhook/deliver.go.
use muesli.Base.{
  ◌+◌, ◌≤◌, ◌<◌, ◌≡◌, refl, sym, ap, subst, ◌∙◌, none, some, List, [], ◌∷◌, inl, inr, arith, All,
  find_row, length,
}
use muesli.Base.Text.{Text}
use muesli.Webhook.{WebhookDelivery, Tables, with_id, pending, failed}
use muesli.Webhook.Worker.{World, dispatch}
use muesli.Webhook.Worker.Snapshot.{Matches}
use muesli.Webhook.Worker.Exhausted.{IsFailing, lost, read, charged}
use muesli.Webhook.Worker.Posts.{dispatch_lost}

-- One dispatch of the delivery with an id for each world, on the row as it then is.
pub attempts_on : Text → List World → Tables → Tables
attempts_on id [] t = t
attempts_on id (w ∷ ws) t = elim (find_row (with_id id) t.deliveries) [
  | none ↦ t
  | some d ↦ attempts_on id ws (dispatch w d t).0
]

attempts_on_step :
    (w : World) (ws : List World) (t : Tables) (d : WebhookDelivery)
    → Matches t.deliveries d
    → attempts_on d.id (w ∷ ws) t ≡ attempts_on d.id ws (dispatch w d t).0
unfolding attempts_on
attempts_on_step w ws t d m = rw (attempts_on, read t.deliveries d m) refl

-- A delivery that is not pending is left alone.
attempts_on_failed :
    (ws : List World) (t : Tables) (d : WebhookDelivery)
    → Matches t.deliveries d
    → d.status ≡ failed
    → attempts_on d.id ws t ≡ t
unfolding attempts_on
attempts_on_failed [] t d m f = refl
attempts_on_failed (w ∷ ws) t d m f =
    let same = dispatch_lost w d t (lost t.deliveries d m (λ p. let no = sym p ∙ f in cc)) in
    attempts_on_step w ws t d m
    ∙ ap (λ r. attempts_on d.id ws r.0) same
    ∙ attempts_on_failed ws t d m f

-- The row of `d` after its rounds: it has failed for good.
abbrev pub IsGivenUp : WebhookDelivery → Tables → Type 0
IsGivenUp d t =
    (d' : WebhookDelivery) × Matches t.deliveries d'
    × (d'.id ≡ d.id)
    × (d'.status ≡ failed)
    × (d'.attempts ≤ d.max_attempts)

given_up :
    (ws : List World) (t : Tables) (d : WebhookDelivery)
    → Matches t.deliveries d
    → d.status ≡ failed
    → d.attempts ≤ d.max_attempts
    → IsGivenUp d (attempts_on d.id ws t)
given_up ws t d m f within = rw (attempts_on_failed ws t d m f) (d, m, refl, f, within)

-- A pending delivery whose endpoint fails every time is given up, and not later than at its limit:
-- after as many dispatches as it has attempts left, or more, it has failed for good, with at most
-- `max_attempts` attempts counted.
pub attempts_on-IsGivenUp :
    (ws : List World) (t : Tables) (d : WebhookDelivery)
    → All IsFailing ws
    → Matches t.deliveries d
    → d.status ≡ pending
    → d.attempts < d.max_attempts
    → d.max_attempts ≤ d.attempts + length ws
    → IsGivenUp d (attempts_on d.id ws t)
attempts_on-IsGivenUp [] t d h m p room enough = absurd (omega arith)
attempts_on-IsGivenUp (w ∷ ws) t d h m p room enough =
    let (d', charge, m') = charged w d h.0 t m p in
    let (same_id, counted, same_max, outcome) = charge in
    let after : IsGivenUp d' (attempts_on d'.id ws (dispatch w d t).0) = elim outcome [
      | inl f ↦ given_up ws _ d' m' f (omega (arith, counted, same_max, room))
      | inr (p', room') ↦
          attempts_on-IsGivenUp ws (dispatch w d t).0 d' h.1 m' p' room'
            (omega (arith, counted, same_max, enough))
    ] in
    rw (attempts_on_step w ws t d m) (carried d' same_id same_max after)
  where
    carried :
        (d' : WebhookDelivery)
        → d'.id ≡ d.id
        → d'.max_attempts ≡ d.max_attempts
        → IsGivenUp d' (attempts_on d'.id ws (dispatch w d t).0)
        → IsGivenUp d (attempts_on d.id ws (dispatch w d t).0)
    carried d' e n g =
        let (r, m, same, f, within) = g in
        (
          r,
          subst (λ k. Matches (attempts_on k ws (dispatch w d t).0).deliveries r) e m,
          same ∙ e,
          f,
          omega (arith, n, within),
        )
