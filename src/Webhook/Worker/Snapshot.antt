-- ===== src/Webhook/Worker/Snapshot.antt =====
-- The rows that a poll has read against the table: the worker acts on what it read at the poll's
-- start (internal/webhook/deliver.go, internal/store/webhooks.go).
use muesli.Base.{
  ℕ, ◌≤◌, ◌≡◌, ◌≢◌, refl, sym, subst, ◌∙◌, Bool, true, false, List, [], ◌∷◌, ◌++◌, inl, inr,
  Bool-cases, arith, All, update_rows, count_rows, select_rows, count_rows-select_rows,
  count_rows-take, select_rows-kept, take-All, All-append, All-map, select_rows-All,
  update_rows-change, count_rows-update_rows, count_rows-append,
}
use muesli.Base.Text.{Text, text_eq, text_eq_iff}
use muesli.Webhook.{
  WebhookDelivery, Tables, with_id, pending, insert_by_age, oldest_first, list_pending_deliveries,
  is_ready,
}

-- No two rows have one id.
abbrev pub IsKeyed : List WebhookDelivery → Type 0
IsKeyed rows = (id : Text) → count_rows (with_id id) rows ≤ 1

-- The row with the id of `d` is there, and it is `d`.
pub record Matches (rows : List WebhookDelivery) (d : WebhookDelivery) : Type 0 where
  pub present : count_rows (with_id d.id) rows ≡ 1
  pub current : All (λ r. r.id ≡ d.id → r ≡ d) rows

text_eq_refl : (s : Text) → text_eq s s ≡ true
text_eq_refl s = (text_eq_iff s s).1 refl

absent :
    (id : Text) (rows : List WebhookDelivery)
    → count_rows (with_id id) rows ≡ 0
    → All (λ r. r.id ≢ id) rows
unfolding count_rows
absent id [] h = tt
absent id (r ∷ rows) h = ground (arith, text_eq_iff r.id id, absent id rows)

-- The other rows of a table with a key have other ids.
pub others :
    (d : WebhookDelivery) (ds : List WebhookDelivery)
    → IsKeyed (d ∷ ds)
    → All (λ e. text_eq e.id d.id ≡ false) ds
unfolding count_rows
others d ds h =
    let k = h d.id in
    let zero : count_rows (with_id d.id) ds ≡ 0 = ground (arith, text_eq_refl d.id) in
    All-map (λ e. e.id ≢ d.id) (λ e. text_eq e.id d.id ≡ false)
      (λ e n. ground (arith, text_eq_iff e.id d.id)) ds (absent d.id ds zero)

pub tail-IsKeyed : (d : WebhookDelivery) (ds : List WebhookDelivery) → IsKeyed (d ∷ ds) → IsKeyed ds
unfolding count_rows
tail-IsKeyed d ds h id = let k = h id in ground arith

-- In a table with a key every row matches.
rows-Matches : (rows : List WebhookDelivery) → IsKeyed rows → All (Matches rows) rows
unfolding count_rows
rows-Matches [] h = tt
rows-Matches (r ∷ rows) h =
    (first, All-map (Matches rows) (Matches (r ∷ rows)) extended rows (rows-Matches rows later))
  where
    later : IsKeyed rows
    later = tail-IsKeyed r rows h

    none_later : count_rows (with_id r.id) rows ≡ 0
    none_later = let k = h r.id in ground (arith, text_eq_refl r.id)

    first : Matches (r ∷ rows) r
    first = record {
      present = ground (arith, text_eq_refl r.id, none_later);
      current = (
        (λ _. refl),
        All-map (λ x. x.id ≢ r.id) (λ x. x.id ≡ r.id → x ≡ r) (λ x n e. absurd (n e)) rows
            (absent r.id rows none_later),
      );
    }

    extended : (d : WebhookDelivery) → Matches rows d → Matches (r ∷ rows) d
    extended d m =
        let k = h d.id in
        let p = m.present in
        let other : text_eq r.id d.id ≡ false = ground arith in
        record {
          present = ground (arith, other);
          current = ((λ e. absurd (let same = (text_eq_iff r.id d.id).1 e in cc)), m.current);
        }

-- What an UPDATE must not do: change an id.
abbrev pub KeepsId : (WebhookDelivery → WebhookDelivery) → Type 0
KeepsId change = (r : WebhookDelivery) → (change r).id ≡ r.id

module _ (fits : WebhookDelivery → Bool) (change : WebhookDelivery → WebhookDelivery) where
  pub update_rows-IsKeyed :
      (rows : List WebhookDelivery)
      → KeepsId change
      → IsKeyed rows
      → IsKeyed (update_rows fits change rows)
  update_rows-IsKeyed rows keeps h id =
      let same = count_rows-update_rows (with_id id) fits change rows (λ r. rw (keeps r) refl) in
      rw same (h id)

  untouched :
      (d : WebhookDelivery) (rows : List WebhookDelivery)
      → KeepsId change
      → fits d ≡ false
      → All (λ r. r.id ≡ d.id → r ≡ d) rows
      → All (λ r. r.id ≡ d.id → r ≡ d) (update_rows fits change rows)
  untouched d rows keeps f h =
      update_rows-change (λ r. r.id ≡ d.id → r ≡ d) (λ r. r.id ≡ d.id → r ≡ d) fits change rows
        (λ r same hit e.
          absurd (let p = subst (λ x. fits x ≡ true) (same (sym (keeps r) ∙ e)) hit in cc))
        (λ r same miss e. same e) h

  -- An UPDATE that passes over a row that matches leaves it matching.
  pub update_rows-Matches :
      (rows : List WebhookDelivery) (d : WebhookDelivery)
      → KeepsId change
      → fits d ≡ false
      → Matches rows d
      → Matches (update_rows fits change rows) d
  update_rows-Matches rows d keeps f m = record {
    present =
        count_rows-update_rows (with_id d.id) fits change rows (λ r. rw (keeps r) refl) ∙ m.present;
    current = untouched d rows keeps f m.current;
  }

-- A new row with an id of its own.
pub append-Matches :
    (rows : List WebhookDelivery) (new d : WebhookDelivery)
    → count_rows (with_id new.id) rows ≡ 0
    → Matches rows d
    → Matches (rows ++ new ∷ []) d
unfolding count_rows
append-Matches rows new d fresh m =
    let p = m.present in
    let total = count_rows-append (with_id d.id) rows (new ∷ []) in
    let other : new.id ≢ d.id = (λ e.
      let zero = subst (λ k. count_rows (with_id k) rows ≡ 0) e fresh in omega (arith, zero, p)) in
    record {
      present = ground (arith, total, text_eq_iff new.id d.id, other);
      current =
          All-append (λ r. r.id ≡ d.id → r ≡ d) rows (new ∷ []) m.current
            ((λ e. absurd (other e)), tt);
    }

pub append-IsKeyed :
    (rows : List WebhookDelivery) (new : WebhookDelivery)
    → count_rows (with_id new.id) rows ≡ 0
    → IsKeyed rows
    → IsKeyed (rows ++ new ∷ [])
unfolding count_rows
append-IsKeyed rows new fresh h id = elim (Bool-cases (text_eq new.id id)) [
  | inl e ↦
      let same = (text_eq_iff new.id id).0 e in
      let zero = subst (λ k. count_rows (with_id k) rows ≡ 0) same fresh in
      let total = count_rows-append (with_id id) rows (new ∷ []) in ground (arith, total)
  | inr e ↦
      let total = count_rows-append (with_id id) rows (new ∷ []) in
      let k = h id in ground (arith, total)
]

insert_by_age-All :
    (P : WebhookDelivery → Type 0) (d : WebhookDelivery) (rows : List WebhookDelivery)
    → P d
    → All P rows
    → All P (insert_by_age d rows)
unfolding insert_by_age
insert_by_age-All P d [] p h = (p, tt)
insert_by_age-All P d (x ∷ xs) p h = ground (arith, insert_by_age-All P d xs p h.1)

oldest_first-All :
    (P : WebhookDelivery → Type 0) (rows : List WebhookDelivery)
    → All P rows
    → All P (oldest_first rows)
unfolding oldest_first
oldest_first-All P [] h = tt
oldest_first-All P (d ∷ ds) h =
    insert_by_age-All P d (oldest_first ds) h.0 (oldest_first-All P ds h.1)

module _ (fits : WebhookDelivery → Bool) where
  count_rows-insert_by_age :
      (d : WebhookDelivery) (rows : List WebhookDelivery)
      → count_rows fits (insert_by_age d rows) ≡ count_rows fits (d ∷ rows)
  unfolding count_rows insert_by_age
  count_rows-insert_by_age d [] = refl
  count_rows-insert_by_age d (x ∷ xs) = ground (arith, count_rows-insert_by_age d xs)

  count_rows-oldest_first :
      (rows : List WebhookDelivery) → count_rows fits (oldest_first rows) ≡ count_rows fits rows
  unfolding count_rows oldest_first
  count_rows-oldest_first [] = refl
  count_rows-oldest_first (d ∷ ds) =
      ground (arith, count_rows-insert_by_age d (oldest_first ds), count_rows-oldest_first ds)

-- What a poll reads: rows of the table that are pending, each once.
pub record IsSnapshot (rows todo : List WebhookDelivery) : Type 0 where
  pub matching : All (Matches rows) todo
  pub pending_rows : All (λ d. d.status ≡ pending) todo
  pub keyed : IsKeyed todo

pub list_pending_deliveries-IsSnapshot :
    (locked : WebhookDelivery → Bool) (now limit : ℕ) (t : Tables)
    → IsKeyed t.deliveries
    → IsSnapshot t.deliveries (list_pending_deliveries locked now limit t)
unfolding list_pending_deliveries
list_pending_deliveries-IsSnapshot locked now limit t h = record {
  matching =
      take-All _ limit _
        (oldest_first-All _ _ (select_rows-kept _ _ _ (rows-Matches t.deliveries h)));
  pending_rows =
      take-All _ limit _ (oldest_first-All _ _ (select_rows-All _ _ _ (λ x e. ground arith)));
  keyed = λ id.
      let rows = select_rows (is_ready locked now) t.deliveries in
      let a = count_rows-take (with_id id) limit (oldest_first rows) in
      let b = count_rows-oldest_first (with_id id) rows in
      let c = count_rows-select_rows (with_id id) (is_ready locked now) t.deliveries in
      let k = h id in omega (arith, a, b, c, k);
}
