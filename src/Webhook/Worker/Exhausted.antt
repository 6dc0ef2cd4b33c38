-- ===== src/Webhook/Worker/Exhausted.antt =====
-- A delivery whose endpoint always fails: internal/webhook/deliver.go.
use muesli.Base.{
  ◌+◌, ◌<◌, ◌≡◌, ◌≢◌, refl, sym, ap, subst, ◌∙◌, Bool, true, false, ◌&&◌, none, some, List, inl,
  inr, ◌⊎◌, Bool-cases, Option-cases, arith, All-map, All-both, update_rows, count_rows,
  update_rows-change, count_rows-update_rows, count_rows-witness, find_row, find_row-All,
  find_row-some, find_row-fits, count_rows_zero, leb, ltb, ◌==◌, if_cases,
}
use muesli.Base.Text.{Text, text_eq, text_eq_iff}
use muesli.Webhook.{
  WebhookDelivery, Webhook, Tables, with_id, pending, failed, failed_delivery, get_delivery_webhook,
  claim_delivery, update_deliveries, mark_failed,
}
use muesli.Webhook.Worker.{
  World, Reply, http_error, response, give_up, fail, interpret, send, deliver, dispatch, add,
  backoff,
}
use muesli.Webhook.Worker.Outcome.{
  claimable_row, claimed_row, claimed_rows, logged-update_deliveries, Result-cases,
}
use muesli.Webhook.Worker.Snapshot.{Matches, KeepsId}

-- An endpoint that cannot be reached or does not answer 2xx.
abbrev pub Fails : Reply → Type 0
Fails (http_error e) = Unit
Fails (response status) = (leb 200 status && ltb status 300) ≡ false

-- Every request of this dispatch would fail.
pub record IsFailing (w : World) : Type 0 where
  pub readable : (id : Text) → w.parses_id id ≡ true
  pub fails : (url body : Text) → Fails (w.endpoint url body)

-- What a failed attempt writes on the delivery that was read.
abbrev pub IsCharged : WebhookDelivery → WebhookDelivery → Type 0
IsCharged d d' =
    (d'.id ≡ d.id)
    × (d'.attempts ≡ d.attempts + 1)
    × (d'.max_attempts ≡ d.max_attempts)
    × ((d'.status ≡ failed) ⊎ ((d'.status ≡ pending) × (d'.attempts < d'.max_attempts)))

module _ (fits : WebhookDelivery → Bool) (change : WebhookDelivery → WebhookDelivery) where
  -- An UPDATE of a row that matches: what it writes matches.
  updated-Matches :
      (rows : List WebhookDelivery) (d : WebhookDelivery)
      → KeepsId change
      → fits d ≡ true
      → Matches rows d
      → Matches (update_rows fits change rows) (change d)
  updated-Matches rows d keeps f m = record {
    present = rw (keeps d) (
        count_rows-update_rows (with_id d.id) fits change rows (λ r. rw (keeps r) refl)
        ∙ m.present);
    current =
        update_rows-change (λ r. r.id ≡ d.id → r ≡ d) (λ r. r.id ≡ (change d).id → r ≡ change d)
          fits change rows (λ r same hit e. ap change (same (sym (keeps r) ∙ e ∙ keeps d)))
          (λ r same miss e.
            absurd (let hit = subst (λ x. fits x ≡ false) (same (e ∙ keeps d)) miss in cc))
          m.current;
  }

module _ (rows : List WebhookDelivery) (d : WebhookDelivery) (m : Matches rows d) where
  -- An UPDATE that fits the row affects it, and one that only fits rows with its id, not it, none.
  affects : (fits : WebhookDelivery → Bool) → fits d ≡ true → (count_rows fits rows == 0) ≡ false
  affects fits f = elim (Bool-cases (count_rows fits rows == 0)) [
    | inr e ↦ e
    | inl e ↦
        let p = m.present in
        let none_fit = (count_rows_zero fits rows).0 (ground arith) in
        let (x, both, hit) =
          count_rows-witness (λ r. (r.id ≡ d.id → r ≡ d) × (fits r ≡ false)) (with_id d.id) rows
            (All-both _ _ rows m.current none_fit) (omega (arith, p)) in
        let same = both.0 ((text_eq_iff x.id d.id).0 hit) in
        absurd (let miss = subst (λ r. fits r ≡ false) same both.1 in cc)
  ]

  pub lost : d.status ≢ pending → count_rows (claimable_row d.id) rows ≡ 0
  lost n =
      (count_rows_zero (claimable_row d.id) rows).1
        (All-map (λ r. r.id ≡ d.id → r ≡ d) _ (λ r same. not_claimable r same) rows m.current)
    where
      not_claimable : (r : WebhookDelivery) → (r.id ≡ d.id → r ≡ d) → claimable_row d.id r ≡ false
      not_claimable r same = elim (Bool-cases (text_eq r.id d.id)) [
        | inr e ↦ rw e refl
        | inl e ↦
            let status = ap (λ x. x.status) (same ((text_eq_iff r.id d.id).0 e)) in
            ground (arith, n)
      ]

  pub read : find_row (with_id d.id) rows ≡ some d
  read =
      let p = m.present in
      let (x, e) = find_row-some (with_id d.id) rows (omega (arith, p)) in
      let hit = find_row-fits (with_id d.id) rows e in
      let same = find_row-All (λ r. r.id ≡ d.id → r ≡ d) (with_id d.id) rows m.current e in
      e ∙ ap some (same ((text_eq_iff x.id d.id).0 hit))

-- A settlement that charges an attempt.
abbrev Charged : World → WebhookDelivery → Tables → Tables → Type 0
Charged w d t t' =
    (change : WebhookDelivery → WebhookDelivery) × KeepsId change
    × IsCharged d (change (claimed_row w.db_now d))
    × (t' ≡ record t { deliveries = update_rows (with_id d.id) change t.deliveries })

module _ (w : World) (d : WebhookDelivery) where
  give_up-Charged : (message : Text) (t : Tables) → Charged w d t (give_up w d message t)
  unfolding give_up mark_failed failed_delivery
  give_up-Charged message t = (
    failed_delivery w.db_now message none,
    (λ r. refl),
    (refl, refl, refl, inl refl),
    logged-update_deliveries (with_id d.id) _ t,
  )

  fail-Charged : (message : Text) (t : Tables) → Charged w d t (fail w d message t)
  unfolding fail mark_failed failed_delivery
  fail-Charged message t =
      if_cases (Charged w d t) (leb d.max_attempts (d.attempts + 1))
        (λ _. give_up-Charged message t)
        (λ e. (
          failed_delivery w.db_now message (some (add w.now (backoff d.attempts))),
          (λ r. refl),
          (refl, refl, refl, inr (refl, ground arith)),
          logged-update_deliveries (with_id d.id) _ t,
        ))

  interpret-Charged :
      (reply : Reply) (t : Tables) → Fails reply → Charged w d t (interpret w d reply t)
  unfolding interpret
  interpret-Charged (http_error e) t h = fail-Charged _ t
  interpret-Charged (response status) t h = rw h (fail-Charged _ t)

  module _ (h : IsFailing w) where
    send-Charged : (wh : Webhook) (t : Tables) → Charged w d t (send w d wh t).0
    unfolding send
    send-Charged wh t = elim (Option-cases (w.request_error wh.url)) [
      | inl e ↦ rw (send, e) (interpret-Charged _ t (h.fails wh.url d.payload))
      | inr (message, e) ↦ rw (send, e) (fail-Charged _ t)
    ]

    deliver-Charged : (t : Tables) → Charged w d t (deliver w d t).0
    unfolding deliver
    deliver-Charged t = elim (Result-cases (get_delivery_webhook d.id t)) [
      | inl (error, e) ↦ rw (deliver, e) (fail-Charged _ t)
      | inr (wh, e) ↦ elim (Option-cases (w.validate_url wh.url)) [
        | inl v ↦ rw (deliver, e, v) (send-Charged wh t)
        | inr (message, v) ↦ rw (deliver, e, v) (give_up-Charged _ t)
      ]
    ]

    dispatch-Charged :
        (t : Tables)
        → (count_rows (claimable_row d.id) t.deliveries == 0) ≡ false
        → Charged w d
            (record t { deliveries = claimed_rows w.db_now d.id t.deliveries })
            (dispatch w d t).0
    unfolding dispatch claim_delivery
    dispatch-Charged t e =
        rw (dispatch, h.readable d.id, claim_delivery, update_deliveries, e) (deliver-Charged _)

    -- A failing dispatch of a pending delivery charges its row.
    pub charged :
        (t : Tables)
        → Matches t.deliveries d
        → d.status ≡ pending
        → (d' : WebhookDelivery) × IsCharged d d' × Matches (dispatch w d t).0.deliveries d'
    charged t m p =
        let fits : claimable_row d.id d ≡ true = ground (arith, text_eq_iff d.id d.id, p) in
        let (change, keeps, charge, same) =
          dispatch-Charged t (affects t.deliveries d m (claimable_row d.id) fits) in
        let claimed =
          updated-Matches (claimable_row d.id) (claimed_row w.db_now) t.deliveries d (λ r. refl)
            fits m in
        let settled =
          updated-Matches (with_id d.id) change (claimed_rows w.db_now d.id t.deliveries)
            (claimed_row w.db_now d) keeps ((text_eq_iff d.id d.id).1 refl) claimed in
        (
          change (claimed_row w.db_now d),
          charge,
          subst (λ u. Matches u.deliveries (change (claimed_row w.db_now d))) (sym same) settled,
        )
