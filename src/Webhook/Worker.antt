-- ===== src/Webhook/Worker.antt =====
-- The delivery worker: internal/webhook/deliver.go.
--
-- `World` is what one dispatch meets outside: the clocks, uuid.Parse, validateURL, the construction
-- of the request, HMAC-SHA256 in hexadecimal, and the endpoint. Times are nanoseconds.
pub mod Outcome
pub mod Snapshot
pub mod Attempts
pub mod Steps
pub mod Posts
pub mod Final
pub mod Backoff
pub mod Exhausted
pub mod Rounds
mod Tests
use muesli.Base.{
  ℕ, zero, suc, ◌+◌, ◌-◌, ◌*◌, ◌/◌, ◌^◌, Bool, true, false, not, ◌&&◌, Option, none, some, List, [],
  ◌∷◌, ◌++◌, leb, ltb, ◌==◌, if◌then◌else◌, count_rows,
}
use muesli.Base.Int.{ℤ, pos, negsuc, ◌*ℤ◌, int64, ltb_ℤ}
use muesli.Base.Text.{Text, text_eq, codes, is_empty, decimal}
use muesli.Webhook.{
  WebhookDelivery, Webhook, Tables, Result, ok, err, with_id, list_pending_deliveries,
  claim_delivery, mark_delivered, mark_failed, reset_inflight_deliveries, get_delivery_webhook,
  create_delivery, retry_delivery,
}

pub data Reply : Type 0 where
  http_error : Text → Reply
  response : ℕ → Reply

pub record World : Type 0 where
  pub db_now : ℕ
  pub now : ℕ
  pub parses_id : Text → Bool
  pub validate_url : Text → Option Text
  pub request_error : Text → Option Text
  pub hmac_sha256 : Text → Text → Text
  pub endpoint : Text → Text → Reply

-- One request: the signature's headers are there when the webhook has a secret.
pub record Post : Type 0 where
  pub delivery_id : Text
  pub url : Text
  pub body : Text
  pub timestamp : Option ℕ
  pub signature : Option Text

abbrev pub second : ℕ
second = 1_000_000_000

abbrev pub max_backoff : ℕ
max_backoff = 3600 * second

-- 5<<attempts seconds, in the arithmetic of int and then of time.Duration.
pub backoff : ℕ → ℤ
backoff attempts =
    let delay = int64 (int64 (pos (5 * 2 ^ attempts)) *ℤ pos second) in
    if ltb_ℤ (pos max_backoff) delay then pos max_backoff else delay

-- time.Now().Add(d); the clock is later than any delay is long.
abbrev pub add : ℕ → ℤ → ℕ
add now (pos d) = now + d
add now (negsuc d) = now - suc d

-- A failed statement is logged, and the tables are as they were.
abbrev pub logged : Tables → Result Tables → Tables
logged t (ok t') = t'
logged t (err e) = t

pub give_up : World → WebhookDelivery → Text → Tables → Tables
give_up w d message t = logged t (mark_failed w.db_now d.id message none t)

pub fail : World → WebhookDelivery → Text → Tables → Tables
fail w d message t =
    if leb d.max_attempts (d.attempts + 1)
    then give_up w d message t
    else logged t (mark_failed w.db_now d.id message (some (add w.now (backoff d.attempts))) t)

pub sign_payload : (Text → Text → Text) → Text → ℕ → Text → Text
sign_payload hmac secret timestamp body =
    codes "sha256=" ++ hmac secret (decimal timestamp ++ codes "." ++ body)

-- Unix seconds.
abbrev pub unix : ℕ → ℕ
unix now = now / second

-- The request of a dispatch.
pub post_of : World → WebhookDelivery → Webhook → Post
post_of w d wh =
    let signed = not (is_empty wh.secret) in
    record {
      delivery_id = d.id;
      url = wh.url;
      body = d.payload;
      timestamp = if signed then some (unix w.now) else none;
      signature =
          if signed
          then some (sign_payload w.hmac_sha256 wh.secret (unix w.now) d.payload)
          else none;
    }

-- What the endpoint's reply makes of the delivery.
pub interpret : World → WebhookDelivery → Reply → Tables → Tables
interpret w d (http_error e) t = fail w d (codes "http: " ++ e) t
interpret w d (response status) t =
    if leb 200 status && ltb status 300
    then logged t (mark_delivered w.db_now d.id t)
    else fail w d (codes "non-2xx response: " ++ decimal status) t

pub send : World → WebhookDelivery → Webhook → Tables → Tables × List Post
send w d wh t = elim (w.request_error wh.url) [
  | some e ↦ (fail w d (codes "build request: " ++ e) t, [])
  | none ↦ (interpret w d (w.endpoint wh.url d.payload) t, post_of w d wh ∷ [])
]

-- After the claim: the webhook is loaded and its address validated again.
pub deliver : World → WebhookDelivery → Tables → Tables × List Post
deliver w d t = elim (get_delivery_webhook d.id t) [
  | err e ↦ (fail w d (codes "get webhook: not found") t, [])
  | ok wh ↦ elim (w.validate_url wh.url) [
    | some e ↦ (give_up w d (codes "ssrf validation: " ++ e) t, [])
    | none ↦ send w d wh t
  ]
]

pub dispatch : World → WebhookDelivery → Tables → Tables × List Post
dispatch w d t =
    if w.parses_id d.id
    then elim (claim_delivery w.db_now d.id t) [
      | err e ↦ (t, [])
      | ok claimed ↦ deliver w d claimed
    ]
    else (t, [])

-- The worker between two of its calls: `todo` is what is left of the poll in progress.
pub record Worker : Type 0 where
  pub tables : Tables
  pub todo : List WebhookDelivery
  pub posts : List Post

-- A tick while a poll is in progress waits for it, so it does nothing yet. `dies` is a worker that
-- goes down after its claim, and `restarts` the start of Run. The other two come from the server.
pub data Event : Type 0 where
  ticks : (WebhookDelivery → Bool) → ℕ → Event
  dispatches : World → Event
  dies : ℕ → Event
  restarts : ℕ → Event
  creates : ℕ → Text → Text → Text → Event
  retries : ℕ → Text → Text → Event

abbrev pub kept : {A : Type 0} → Tables → Result (A × Tables) → Tables
kept t (ok (_, t')) = t'
kept t (err e) = t

pub step : Event → Worker → Worker
step (ticks locked now) s = elim s.todo [
  | [] ↦ record s { todo = list_pending_deliveries locked now 10 s.tables }
  | d ∷ ds ↦ s
]
step (dispatches w) s = elim s.todo [
  | [] ↦ s
  | d ∷ ds ↦
      let (t, sent) = dispatch w d s.tables in
      record { tables = t; todo = ds; posts = s.posts ++ sent }
]
step (dies now) s = elim s.todo [
  | [] ↦ s
  | d ∷ ds ↦ record s { tables = logged s.tables (claim_delivery now d.id s.tables); todo = [] }
]
step (restarts now) s = record s { tables = reset_inflight_deliveries now s.tables; todo = [] }
step (creates now id webhook_id payload) s =
    if count_rows (with_id id) s.tables.deliveries == 0
    then record s { tables = create_delivery now id webhook_id payload s.tables }
    else s
step (retries now owner_id id) s = record s {
  tables = kept s.tables (retry_delivery now owner_id id s.tables);
}

pub run : List Event → Worker → Worker
run [] s = s
run (e ∷ es) s = run es (step e s)
