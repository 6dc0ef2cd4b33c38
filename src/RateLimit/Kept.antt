-- ===== src/RateLimit/Kept.antt =====
-- A client keeps its bucket while it is in use (internal/ratelimit/ratelimit.go).
use muesli.Base.{
  ℕ, suc, ◌+◌, ◌≤◌, ◌≡◌, refl, sym, ap, ◌∙◌, false, none, some, List, [], ◌∷◌, ◌++◌, inl, inr, All,
  Bool-cases, Option-cases, ltb, ◌==◌, if◌then◌else◌, arith,
}
use muesli.Base.Text.{Text, text_eq, text_eq_iff}
use muesli.RateLimit.{
  Entry, LimiterStore, find_entry, touch, get, sweep_entries, sweep, up_to_last_colon, client_ip,
  Event, gets, sweeps, step, run,
}

-- The limiter of a key, last used at `t` or later.
pub record Holds (key : Text) (limiter t : ℕ) (s : LimiterStore) : Type 0 where
  pub entry : Entry
  pub found : find_entry key s.entries ≡ some entry
  pub same : entry.limiter ≡ limiter
  pub used : t ≤ entry.last_used

-- The clock of a request does not go back behind `t`, and a sweep comes while `t` is recent.
abbrev pub Timely : ℕ → ℕ → Event → Type 0
Timely t ttl (gets key now) = t ≤ now
Timely t ttl (sweeps now) = now ≤ t + ttl

find_entry_cons :
    (k key : Text) (e : Entry) (es : List (Text × Entry))
    → find_entry key ((k, e) ∷ es) ≡ (if text_eq k key then some e else find_entry key es)
unfolding find_entry
find_entry_cons k key e es = refl

touch_cons :
    (k key : Text) (now : ℕ) (e : Entry) (es : List (Text × Entry))
    → touch key now ((k, e) ∷ es) ≡ (
        if text_eq k key then (k, record e { last_used = now }) ∷ es else (k, e) ∷ touch key now es)
unfolding touch
touch_cons k key now e es = refl

find_entry-touch :
    (key : Text) (now : ℕ) (es : List (Text × Entry)) (e : Entry)
    → find_entry key es ≡ some e
    → find_entry key (touch key now es) ≡ some (record e { last_used = now })
find_entry-touch key now [] e h = absurd (unfold find_entry in cc h)
find_entry-touch key now ((k, d) ∷ es) e h = elim (Bool-cases (text_eq k key)) [
  | inl t ↦
      let same : d ≡ e = unfold find_entry in ground (arith, h, t) in
      rw (touch_cons k key now d es, t)
        (find_entry_cons k key (record d { last_used = now }) es
          ∙ rw t (ap (λ (x : Entry). some (record x { last_used = now })) same))
  | inr t ↦
      let rest = find_entry-touch key now es e (unfold find_entry in ground (arith, h, t)) in
      rw (touch_cons k key now d es, t) (find_entry_cons k key d (touch key now es) ∙ rw t rest)
]

find_entry-touch_other :
    (key k : Text) (now : ℕ) (es : List (Text × Entry))
    → text_eq k key ≡ false
    → find_entry key (touch k now es) ≡ find_entry key es
find_entry-touch_other key k now [] h = unfold touch in refl
find_entry-touch_other key k now ((j, d) ∷ es) h = elim (Bool-cases (text_eq j k)) [
  | inl t ↦
      let same : j ≡ k = (text_eq_iff j k).0 t in
      let other : text_eq j key ≡ false = rw same h in
      rw (touch_cons j k now d es, t)
        (find_entry_cons j key (record d { last_used = now }) es
          ∙ rw other (sym (find_entry_cons j key d es ∙ rw other refl)))
  | inr t ↦
      let rest = find_entry-touch_other key k now es h in
      rw (touch_cons j k now d es, t)
        (find_entry_cons j key d (touch k now es) ∙ rw rest (sym (find_entry_cons j key d es)))
]

find_entry-sweep :
    (key : Text) (now ttl : ℕ) (es : List (Text × Entry)) (e : Entry)
    → find_entry key es ≡ some e
    → now ≤ e.last_used + ttl
    → find_entry key (sweep_entries now ttl es) ≡ some e
unfolding find_entry sweep_entries
find_entry-sweep key now ttl [] e h k = absurd (cc h)
find_entry-sweep key now ttl ((j, d) ∷ es) e h k = elim (Bool-cases (text_eq j key)) [
  | inl t ↦
      let same : d ≡ e = ground (arith, h, t) in
      let recent : now ≤ d.last_used + ttl = rw same k in
      let kept : ltb (d.last_used + ttl) now ≡ false = ground arith in
      rw (kept, t) (ap (λ (x : Entry). some x) same)
  | inr t ↦
      let rest = find_entry-sweep key now ttl es e (ground (arith, h, t)) k in
      elim (Bool-cases (ltb (d.last_used + ttl) now)) [
        | inl old ↦ rw old rest
        | inr new ↦ rw (new, t) rest
      ]
]

get-found :
    (key : Text) (now : ℕ) (s : LimiterStore) (e : Entry)
    → find_entry key s.entries ≡ some e
    → get key now s ≡ (e.limiter, record s { entries = touch key now s.entries })
unfolding get
get-found key now s e h = rw (h, get) refl

get-missing :
    (key : Text) (now : ℕ) (s : LimiterStore)
    → find_entry key s.entries ≡ none
    → get key now s ≡ (
      s.next,
      record {
        entries = (key, record { limiter = s.next; last_used = now }) ∷ s.entries;
        next = suc s.next;
      },
    )
unfolding get
get-missing key now s h = rw (h, get) refl

get-Holds : (key : Text) (t : ℕ) (s : LimiterStore) → Holds key (get key t s).0 t (get key t s).1
get-Holds key t s = elim (Option-cases (find_entry key s.entries)) [
  | inl n ↦ rw (get-missing key t s n) (record {
    entry = record { limiter = s.next; last_used = t };
    found = find_entry_cons key key _ s.entries ∙ rw ((text_eq_iff key key).1 refl) refl;
    same = refl;
    used = omega arith;
  })
  | inr (e, h) ↦ rw (get-found key t s e h) (record {
    entry = record e { last_used = t };
    found = find_entry-touch key t s.entries e h;
    same = refl;
    used = omega arith;
  })
]

get-keeps :
    (key k : Text) (limiter t now : ℕ) (s : LimiterStore)
    → t ≤ now
    → Holds key limiter t s
    → Holds key limiter t (get k now s).1
get-keeps key k limiter t now s timely h = elim (Bool-cases (text_eq k key)) [
  | inl same ↦
      let equal : k ≡ key = (text_eq_iff k key).0 same in
      rw (equal, get-found key now s h.entry h.found)
        ((record {
          entry = record h.entry { last_used = now };
          found = find_entry-touch key now s.entries h.entry h.found;
          same = h.same;
          used = timely;
        }))
  | inr other ↦ elim (Option-cases (find_entry k s.entries)) [
    | inl n ↦ rw (get-missing k now s n) (record {
      entry = h.entry;
      found = find_entry_cons k key _ s.entries ∙ rw other h.found;
      same = h.same;
      used = h.used;
    })
    | inr (e, f) ↦ rw (get-found k now s e f) (record {
      entry = h.entry;
      found = find_entry-touch_other key k now s.entries other ∙ h.found;
      same = h.same;
      used = h.used;
    })
  ]
]

step-Holds :
    (key : Text) (limiter t ttl : ℕ) (e : Event) (s : LimiterStore)
    → Timely t ttl e
    → Holds key limiter t s
    → Holds key limiter t (step ttl e s)
unfolding step sweep
step-Holds key limiter t ttl (sweeps now) s timely h = record {
  entry = h.entry;
  found = find_entry-sweep key now ttl s.entries h.entry h.found (let x = h.used in omega arith);
  same = h.same;
  used = h.used;
}
step-Holds key limiter t ttl (gets k now) s timely h = get-keeps key k limiter t now s timely h

run-Holds :
    (key : Text) (limiter t ttl : ℕ) (es : List Event) (s : LimiterStore)
    → All (Timely t ttl) es
    → Holds key limiter t s
    → Holds key limiter t (run ttl es s)
unfolding run
run-Holds key limiter t ttl [] s timely h = h
run-Holds key limiter t ttl (e ∷ es) s timely h =
    run-Holds key limiter t ttl es (step ttl e s) timely.1
      (step-Holds key limiter t ttl e s timely.0 h)

-- A client that was served a limiter at a time gets the same one again, and so cannot shed its
-- bucket: after any requests of any clients at later times and any sweeps within the idle time.
pub get-kept :
    (key : Text) (t later ttl : ℕ) (es : List Event) (s : LimiterStore)
    → All (Timely t ttl) es
    → (get key later (run ttl es (get key t s).1)).0 ≡ (get key t s).0
get-kept key t later ttl es s timely =
    let h = run-Holds key (get key t s).0 t ttl es (get key t s).1 timely (get-Holds key t s) in
    ap (λ (r : ℕ × LimiterStore). r.0) (get-found key later _ h.entry h.found) ∙ h.same

no_colon : (s : Text) → All (λ c. (c == 58) ≡ false) s → up_to_last_colon s ≡ none
unfolding up_to_last_colon
no_colon [] h = refl
no_colon (c ∷ s) h = rw (no_colon s h.1, h.0) refl

last_colon :
    (host port : Text)
    → All (λ c. (c == 58) ≡ false) port
    → up_to_last_colon (host ++ 58 ∷ port) ≡ some host
unfolding up_to_last_colon
last_colon [] port h = rw (no_colon port h) refl
last_colon (c ∷ host) port h = rw (last_colon host port h) refl

-- The key of an address is its host, whatever colons that has, when the port has none: a client
-- does not get a fresh bucket by another port.
pub client_ip-host :
    (host port : Text) → All (λ c. (c == 58) ≡ false) port → client_ip (host ++ 58 ∷ port) ≡ host
unfolding client_ip
client_ip-host host port h = rw (last_colon host port h, client_ip) refl
