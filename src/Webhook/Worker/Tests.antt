-- ===== src/Webhook/Worker/Tests.antt =====
-- Runs of the delivery worker: internal/webhook/deliver.go and internal/store/webhooks.go.
use muesli.Base.{
  ℕ, ◌-◌, ◌*◌, ◌^◌, ◌≡◌, refl, Bool, true, false, Option, none, some, List, [], ◌∷◌, All, arith,
  update_rows, count_rows, select_rows, find_row, map,
}
use muesli.Base.Int.{negsuc, int64, ◌*ℤ◌}
use muesli.Base.Text.{Text, codes}
use muesli.Webhook.{
  WebhookDelivery, Webhook, Tables, DeliveryStatus, pending, delivered, new_delivery,
  list_pending_deliveries, oldest_first, insert_by_age, claim_delivery, mark_failed, mark_delivered,
  failed_delivery, get_delivery_webhook, webhook_of, create_delivery, reset_inflight_deliveries,
}
use muesli.Webhook.Address.{Net, UrlError, validate_webhook_url}
use muesli.Webhook.Worker.{
  World, Worker, Event, ticks, dispatches, dies, restarts, creates, retries, step, run, dispatch,
  response, backoff, second, post_of, send, deliver, interpret, fail, give_up, sign_payload,
}
use muesli.Webhook.Worker.Snapshot.{Matches}
use muesli.Webhook.Worker.Attempts.{IsConsistent}
use muesli.Webhook.Worker.Steps.{run-IsConsistent}
use muesli.Webhook.Worker.Final.{run-IsFinal, posts_of}
use muesli.Webhook.Worker.Posts.{IsSafe, dispatch-IsSafe}
use muesli.Webhook.Worker.Rounds.{IsGivenUp, attempts_on, attempts_on-IsGivenUp}

abbrev hook : Webhook
hook = record {
  id = codes "w";
  owner_id = codes "o";
  url = codes "u";
  secret = codes "s";
  enabled = true;
  created_at = 0;
  updated_at = 0;
}

-- An endpoint that answers with a status.
abbrev world : ℕ → World
world status = record {
  db_now = 100;
  now = 100;
  parses_id = λ id. true;
  validate_url = λ u. none;
  request_error = λ u. none;
  hmac_sha256 = λ key message. message;
  endpoint = λ u body. response status;
}

abbrev delivery : WebhookDelivery
delivery = new_delivery 1 (codes "d") (codes "w") (codes "{}")

abbrev start : Worker
start = record { tables = record { webhooks = hook ∷ []; deliveries = [] }; todo = []; posts = [] }

abbrev tables : List WebhookDelivery → Tables
tables rows = record { webhooks = hook ∷ []; deliveries = rows }

abbrev statuses : Worker → List DeliveryStatus
statuses s = map (λ r. r.status) s.tables.deliveries

abbrev unlocked : WebhookDelivery → Bool
unlocked d = false

-- One attempt fails, the worker dies in the second, and the third after the restart succeeds.
abbrev history : List Event
history =
    creates 1 (codes "d") (codes "w") (codes "{}")
    ∷ ticks unlocked 2
    ∷ dispatches (world 500)
    ∷ ticks unlocked 6_000_000_000
    ∷ dies 6_000_000_000
    ∷ restarts 7_000_000_000
    ∷ ticks unlocked 7_000_000_000
    ∷ dispatches (world 204)
    ∷ []

history_delivers : statuses (run history start) ≡ delivered ∷ []
unfolding run step list_pending_deliveries oldest_first insert_by_age claim_delivery mark_failed
    mark_delivered failed_delivery get_delivery_webhook webhook_of create_delivery new_delivery
    reset_inflight_deliveries update_rows count_rows select_rows find_row dispatch deliver send
    interpret fail give_up post_of backoff int64 ◌*ℤ◌ sign_payload
history_delivers = refl

-- The product wraps around at the thirty-first attempt, far beyond the limit of a delivery.
backoff_wraps : backoff 31 ≡ negsuc (2 ^ 64 - 5 * 2 ^ 31 * second - 1)
unfolding backoff int64 ◌*ℤ◌
backoff_wraps = refl

start-IsConsistent : IsConsistent start.tables start.todo
unfolding count_rows
start-IsConsistent = record {
  keyed = λ id. omega arith;
  within = tt;
  snapshot = record { matching = tt; pending_rows = tt; keyed = λ id. omega arith };
}

run-IsConsistent_example : IsConsistent (run history start).tables (run history start).todo
run-IsConsistent_example = run-IsConsistent history start start-IsConsistent

abbrev done : WebhookDelivery
done = record {
  id = codes "d";
  webhook_id = codes "w";
  payload = codes "{}";
  status = delivered;
  attempts = 1;
  max_attempts = 5;
  next_attempt_at = none;
  last_error = none;
  created_at = 1;
  updated_at = 1;
}

abbrev settled : Worker
settled = record { tables = tables (done ∷ []); todo = []; posts = [] }

done-Matches : Matches (tables (done ∷ [])).deliveries done
unfolding count_rows
done-Matches = record { present = refl; current = ((λ e. refl), tt) }

settled-IsConsistent : IsConsistent settled.tables settled.todo
unfolding count_rows
settled-IsConsistent = record {
  keyed = λ id. ground arith;
  within = ((omega arith, (λ _. omega arith), omega arith), tt);
  snapshot = record { matching = tt; pending_rows = tt; keyed = λ id. omega arith };
}

abbrev later : List Event
later =
    retries 2 (codes "o") (codes "d") ∷ ticks unlocked 2 ∷ dispatches (world 204) ∷ restarts 3 ∷ []

run-IsFinal_example :
    Matches (run later settled).tables.deliveries done
    × (posts_of (codes "d") (run later settled).posts ≡ posts_of (codes "d") settled.posts)
run-IsFinal_example = run-IsFinal later settled done settled-IsConsistent done-Matches refl

abbrev waiting : WebhookDelivery
waiting = record done { status = pending; attempts = 3 }

waiting-Matches : Matches (tables (waiting ∷ [])).deliveries waiting
unfolding count_rows
waiting-Matches = record { present = refl; current = ((λ e. refl), tt) }

attempts_on-IsGivenUp_example :
    IsGivenUp waiting (attempts_on (codes "d") (world 500 ∷ world 404 ∷ []) (tables (waiting ∷ [])))
attempts_on-IsGivenUp_example =
    attempts_on-IsGivenUp (world 500 ∷ world 404 ∷ []) (tables (waiting ∷ [])) waiting
      (
        record { readable = λ id. refl; fails = λ u b. refl },
        (record { readable = λ id. refl; fails = λ u b. refl }, tt),
      )
      waiting-Matches refl (omega arith) (omega arith)

abbrev net : Net
net = record {
  parse_url = λ raw.
      some (record {
        scheme = codes "https";
        has_user = false;
        host = codes "h";
        hostname = codes "h";
      });
  lookup_host = λ host. some (codes "a" ∷ []);
  parse_ip = λ raw. some (93 ∷ 184 ∷ 216 ∷ 34 ∷ []);
  split_host_port = λ addr. none;
}

-- The text of an error.
abbrev rendered : Option UrlError → Option Text
rendered none = none
rendered (some e) = some (codes "refused")

rendered-none : (r : Option UrlError) → rendered r ≡ none → r ≡ none
rendered-none none e = refl
rendered-none (some x) e = cc

-- ValidateWebhookURL as the check of a dispatch.
abbrev checked : World
checked = record (world 204) { validate_url = λ u. rendered (validate_webhook_url net u) }

checked-passed : (u : Text) → checked.validate_url u ≡ none → validate_webhook_url net u ≡ none
checked-passed u e = rendered-none (validate_webhook_url net u) e

dispatch-IsSafe_example :
    All
      (λ p. (p.delivery_id ≡ codes "d") × (p.body ≡ codes "{}") × IsSafe net p)
      (dispatch checked waiting (tables (waiting ∷ []))).1
dispatch-IsSafe_example = dispatch-IsSafe net checked waiting (tables (waiting ∷ [])) checked-passed
