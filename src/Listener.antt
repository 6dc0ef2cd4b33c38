-- ===== src/Listener.antt =====
-- The opt-in listener for iOS: internal/api/listener_controller.go, with the address pair of
-- internal/iosaccess/network_candidates.go.
--
-- A context, a server and a channel are each the number of the Enable that made them. `World` holds
-- the controller with what outlives a call: the servers that serve, the contexts cancelled, the
-- channels closed and the goroutines of watch. A call holds the mutex from end to end, so it is one
-- step; a watcher takes the mutex only after it has left its select, so its tick and its action
-- are two steps, and any other step may come between. What the interface source, the certificate
-- store, the network and strconv answer is in `Outside`. Of the returned info the port is modelled.
mod Marks
pub mod Sound
mod Calls
pub mod Acting
pub mod Generations
pub mod Candidates
mod Tests
use muesli.Base.{
  ℕ, zero, suc, ◌+◌, Bool, true, false, not, ◌&&◌, ◌||◌, Option, none, some, List, [], ◌∷◌, ◌++◌,
  ◌==◌, get_elem?, set, erase_at, if◌then◌else◌,
}
use muesli.Base.Text.{Text, text_eq}

pub data Family : Type 0 where
  ipv4 : Family
  ipv6 : Family

pub family_eq : Family → Family → Bool
family_eq ipv4 ipv4 = true
family_eq ipv6 ipv6 = true
family_eq _ _ = false

pub record InterfaceAddressPair : Type 0 where
  pub interface_name : Text
  pub address : Text
  pub family : Family

pub pair_equal : InterfaceAddressPair → InterfaceAddressPair → Bool
pair_equal p o =
    text_eq p.interface_name o.interface_name
    && (text_eq p.address o.address && family_eq p.family o.family)

pub contains_pair : List InterfaceAddressPair → InterfaceAddressPair → Bool
contains_pair [] target = false
contains_pair (p ∷ pairs) target = if pair_equal p target then true else contains_pair pairs target

pub record ListenerController : Type 0 where
  pub pair : Option InterfaceAddressPair
  pub listener : Option ℕ
  pub http_srv : Option ℕ
  pub cancel : Option ℕ
  pub unusable : Bool
  pub unusable_ch : Option ℕ

-- A goroutine of watch; `detected` once it has seen the pair gone and waits for the mutex.
pub record Watcher : Type 0 where
  pub context : ℕ
  pub bound : InterfaceAddressPair
  pub channel : ℕ
  pub detected : Bool

pub record World : Type 0 where
  pub controller : ListenerController
  pub serving : List ℕ
  pub cancelled : List ℕ
  pub closed : List ℕ
  pub watchers : List Watcher
  pub next : ℕ

abbrev pub new_world : World
new_world = record {
  controller = record {
    pair = none;
    listener = none;
    http_srv = none;
    cancel = none;
    unusable = false;
    unusable_ch = none;
  };
  serving = [];
  cancelled = [];
  closed = [];
  watchers = [];
  next = 0;
}

pub data EnableError : Type 0 where
  snapshot_failed : EnableError
  candidate_gone : EnableError
  certificate_failed : EnableError
  reset_certificate_failed : EnableError
  key_pair_failed : EnableError
  bind_failed : EnableError
  parse_port_failed : EnableError

pub record Outside : Type 0 where
  pub snapshot : Option (List InterfaceAddressPair)
  pub certificate : Bool
  pub key_pair : Bool
  pub bind : Bool
  pub port : Option ℕ

pub data Enabled : Type 0 where
  listening : ℕ → Enabled
  refused : EnableError → Enabled

pub remove : ℕ → List ℕ → List ℕ
remove n [] = []
remove n (m ∷ ms) = let rest = remove n ms in if n == m then rest else m ∷ rest

pub cancel_context : Option ℕ → List ℕ → List ℕ
cancel_context none ms = ms
cancel_context (some n) ms = n ∷ ms

pub close_server : Option ℕ → List ℕ → List ℕ
close_server none ms = ms
close_server (some n) ms = remove n ms

pub disable_locked : World → World
disable_locked w = record w {
  controller = record w.controller {
    pair = none;
    listener = none;
    http_srv = none;
    cancel = none;
    unusable_ch = none;
  };
  serving = close_server w.controller.http_srv w.serving;
  cancelled = cancel_context w.controller.cancel w.cancelled;
}

pub disable : World → World
disable w =
    let w' = disable_locked w in
    record w' { controller = record w'.controller { unusable = false } }

-- The end of Enable: the server serves, and a watcher of its own starts.
pub serve : InterfaceAddressPair → World → World
serve pair w = record w {
  controller = record {
    pair = some pair;
    listener = some w.next;
    http_srv = some w.next;
    cancel = some w.next;
    unusable = false;
    unusable_ch = some w.next;
  };
  serving = w.next ∷ w.serving;
  watchers =
      w.watchers
      ++ record { context = w.next; bound = pair; channel = w.next; detected = false } ∷ [];
  next = suc w.next;
}

-- The outcome of Enable's steps, in the order of the code.
pub admit : Outside → InterfaceAddressPair → Enabled
admit o pair = elim o.snapshot [
  | none ↦ refused snapshot_failed
  | some current ↦
      if not (contains_pair current pair)
      then refused candidate_gone
      else if not o.certificate
      then refused certificate_failed
      else if not o.key_pair
      then refused key_pair_failed
      else if not o.bind
      then refused bind_failed
      else elim o.port [ none ↦ refused parse_port_failed | some n ↦ listening n ]
]

pub enable : Outside → InterfaceAddressPair → World → Enabled × World
enable o pair w = elim (admit o pair) [
  | refused e ↦ (refused e, disable_locked w)
  | listening n ↦ (listening n, serve pair (disable_locked w))
]

-- ResetCertificate fails before Enable, or Enable runs.
pub reset : Bool → Outside → InterfaceAddressPair → World → Enabled × World
reset removed o pair w = if removed then enable o pair w else (refused reset_certificate_failed, w)

pub record Status : Type 0 where
  pub enabled : Bool
  pub unusable : Bool
  pub pair : Option InterfaceAddressPair

pub status : ListenerController → Status
status c = elim c.pair [
  | none ↦ record { enabled = false; unusable = c.unusable; pair = none }
  | some p ↦ record { enabled = true; unusable = false; pair = some p }
]

pub still_present : Option (List InterfaceAddressPair) → InterfaceAddressPair → Bool
still_present none bound = false
still_present (some current) bound = contains_pair current bound

pub is_pair : Option InterfaceAddressPair → InterfaceAddressPair → Bool
is_pair none bound = false
is_pair (some p) bound = pair_equal p bound

pub is_channel : Option ℕ → ℕ → Bool
is_channel none ch = false
is_channel (some c) ch = c == ch

-- What a watcher does under the mutex, once it has seen the pair gone.
pub act : Watcher → World → World
act v w =
    if is_pair w.controller.pair v.bound && is_channel w.controller.unusable_ch v.channel
    then (let w' = disable_locked w in
        record w' { controller = record w'.controller { unusable = true } })
    else w

pub has : ℕ → List ℕ → Bool
has n [] = false
has n (m ∷ ms) = if n == m then true else has n ms

-- The context's branch of the select, the ticker's, and the rest of the ticker's branch.
pub data Event : Type 0 where
  on_enable : Outside → InterfaceAddressPair → Event
  on_reset : Bool → Outside → InterfaceAddressPair → Event
  on_disable : Event
  watcher_done : ℕ → Event
  watcher_ticks : ℕ → Option (List InterfaceAddressPair) → Event
  watcher_acts : ℕ → Event

pub watcher_step : World → ℕ → Watcher → Event → World
watcher_step w i v (watcher_done _) =
    if not v.detected && has v.context w.cancelled
    then record w { watchers = erase_at w.watchers i }
    else w
watcher_step w i v (watcher_ticks _ current) =
    if not v.detected && not (still_present current v.bound)
    then record w { watchers = set w.watchers i (record v { detected = true }) }
    else w
watcher_step w i v (watcher_acts _) =
    if v.detected
    then (let w' = act v w in
        record w' { closed = v.channel ∷ w'.closed; watchers = erase_at w'.watchers i })
    else w
watcher_step w i v _ = w

-- An event of a goroutine that has ended changes nothing.
pub at_watcher : World → ℕ → Event → World
at_watcher w i e = elim (get_elem? w.watchers i) [ none ↦ w | some v ↦ watcher_step w i v e ]

pub step : World → Event → World
step w (on_enable o pair) = (enable o pair w).1
step w (on_reset removed o pair) = (reset removed o pair w).1
step w on_disable = disable w
step w (watcher_done i) = at_watcher w i (watcher_done i)
step w (watcher_ticks i current) = at_watcher w i (watcher_ticks i current)
step w (watcher_acts i) = at_watcher w i (watcher_acts i)

pub run : World → List Event → World
run w [] = w
run w (e ∷ es) = run (step w e) es
