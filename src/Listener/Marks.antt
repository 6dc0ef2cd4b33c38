-- ===== src/Listener/Marks.antt =====
-- Lists of numbers as sets of marks: what Listener's channels, contexts and servers are kept in.
use muesli.Base.{
  ℕ, zero, suc, ◌≤◌, ◌<◌, ◌≡◌, refl, sym, ap, ◌∙◌, true, false, some, List, [], ◌∷◌, ◌++◌, inl, inr,
  get_elem?, set, erase_at, All, Bool-cases, ◌==◌, ==_iff, if◌then◌else◌, arith,
}
use muesli.Listener.{has, Watcher}

abbrev pub NoDup : List ℕ → Type 0
NoDup [] = Unit {0}
NoDup (n ∷ ns) = (has n ns ≡ false) × NoDup ns

abbrev pub Below : ℕ → List ℕ → Type 0
Below k ns = All (λ n. n < k) ns

pub Below-mono : (k m : ℕ) (ns : List ℕ) → k ≤ m → Below k ns → Below m ns
Below-mono k m [] h b = tt
Below-mono k m (n ∷ ns) h b = (let x = b.0 in omega arith, Below-mono k m ns h b.1)

pub has_cons : (g n : ℕ) (ns : List ℕ) → has g (n ∷ ns) ≡ (if g == n then true else has g ns)
unfolding has
has_cons g n ns = refl

pub has-fresh : (k : ℕ) (ns : List ℕ) → Below k ns → has k ns ≡ false
unfolding has
has-fresh k [] b = refl
has-fresh k (n ∷ ns) b = let rest = has-fresh k ns b.1 in let x = b.0 in ground arith

pub has-append : (g n : ℕ) (ns : List ℕ) → has g ns ≡ true → has g (ns ++ n ∷ []) ≡ true
unfolding has
has-append g n [] h = cc
has-append g n (m ∷ ns) h = let rest = has-append g n ns in ground arith

pub has-append_last : (n : ℕ) (ns : List ℕ) → has n (ns ++ n ∷ []) ≡ true
unfolding has
has-append_last n [] = ground arith
has-append_last n (m ∷ ns) = let rest = has-append_last n ns in ground arith

pub has-append_other :
    (g n : ℕ) (ns : List ℕ) → has g ns ≡ false → (g == n) ≡ false → has g (ns ++ n ∷ []) ≡ false
unfolding has
has-append_other g n [] h k = ground arith
has-append_other g n (m ∷ ns) h k = let rest = has-append_other g n ns in ground arith

pub NoDup-append : (n : ℕ) (ns : List ℕ) → has n ns ≡ false → NoDup ns → NoDup (ns ++ n ∷ [])
unfolding has
NoDup-append n [] h d = (refl, tt)
NoDup-append n (m ∷ ns) h d =
    (has-append_other m n ns d.0 (ground arith), NoDup-append n ns (ground arith) d.1)

has-erase_false : (g : ℕ) (ns : List ℕ) (i : ℕ) → has g ns ≡ false → has g (erase_at ns i) ≡ false
unfolding has
has-erase_false g [] i h = refl
has-erase_false g (n ∷ ns) zero h = ground arith
has-erase_false g (n ∷ ns) (suc i) h = let rest = has-erase_false g ns i in ground arith

pub NoDup-erase_at : (ns : List ℕ) (i : ℕ) → NoDup ns → NoDup (erase_at ns i)
NoDup-erase_at [] i d = tt
NoDup-erase_at (n ∷ ns) zero d = d.1
NoDup-erase_at (n ∷ ns) (suc i) d = (has-erase_false n ns i d.0, NoDup-erase_at ns i d.1)

has-get : (ns : List ℕ) (i n : ℕ) → get_elem? ns i ≡ some n → has n ns ≡ true
unfolding has
has-get [] i n e = cc
has-get (m ∷ ns) zero n e = let same : m ≡ n = cc in ground arith
has-get (m ∷ ns) (suc i) n e = let rest = has-get ns i n e in ground arith

-- A mark that is erased from a list without duplicates is gone.
pub has-erase_at :
    (ns : List ℕ) (i n : ℕ) → NoDup ns → get_elem? ns i ≡ some n → has n (erase_at ns i) ≡ false
has-erase_at [] i n d e = cc
has-erase_at (m ∷ ns) zero n d e = let same : m ≡ n = cc in rw same at d.0
has-erase_at (m ∷ ns) (suc i) n d e =
    let rest = has-erase_at ns i n d.1 e in
    let there = has-get ns i n e in
    let other : (n == m) ≡ false = elim (Bool-cases (n == m)) [
      | inl s ↦ let same : n ≡ m = (==_iff n m).0 s in absurd (let gone = d.0 in cc)
      | inr o ↦ o
    ] in
    rw (has_cons n m (erase_at ns i), other) rest

-- Erasing one mark leaves the others.
pub has-erase_other :
    (ns : List ℕ) (i n g : ℕ)
    → get_elem? ns i ≡ some n
    → (g == n) ≡ false
    → has g ns ≡ true
    → has g (erase_at ns i) ≡ true
unfolding has
has-erase_other [] i n g e o h = h
has-erase_other (m ∷ ns) zero n g e o h = let same : m ≡ n = cc in ground arith
has-erase_other (m ∷ ns) (suc i) n g e o h = let rest = has-erase_other ns i n g e o in ground arith

-- The channels of watchers.
abbrev pub channels : List Watcher → List ℕ
channels [] = []
channels (v ∷ vs) = v.channel ∷ channels vs

pub channels-append :
    (vs : List Watcher) (v : Watcher) → channels (vs ++ v ∷ []) ≡ channels vs ++ v.channel ∷ []
channels-append [] v = refl
channels-append (u ∷ vs) v = ap (λ ns. u.channel ∷ ns) (channels-append vs v)

pub channels-erase_at :
    (vs : List Watcher) (i : ℕ) → channels (erase_at vs i) ≡ erase_at (channels vs) i
channels-erase_at [] i = refl
channels-erase_at (u ∷ vs) zero = refl
channels-erase_at (u ∷ vs) (suc i) = ap (λ ns. u.channel ∷ ns) (channels-erase_at vs i)

pub get-channels :
    (vs : List Watcher) (i : ℕ) (v : Watcher)
    → get_elem? vs i ≡ some v
    → get_elem? (channels vs) i ≡ some v.channel
get-channels [] i v e = cc
get-channels (u ∷ vs) zero v e = let same : u ≡ v = cc in ap (λ (x : Watcher). some x.channel) same
get-channels (u ∷ vs) (suc i) v e = get-channels vs i v e

pub channels-set :
    (vs : List Watcher) (i : ℕ) (v w : Watcher)
    → get_elem? vs i ≡ some v
    → w.channel ≡ v.channel
    → channels (set vs i w) ≡ channels vs
channels-set [] i v w e c = refl
channels-set (u ∷ vs) zero v w e c =
    let same : u ≡ v = cc in
    ap (λ n. n ∷ channels vs) (c ∙ sym (ap (λ (x : Watcher). x.channel) same))
channels-set (u ∷ vs) (suc i) v w e c = ap (λ ns. u.channel ∷ ns) (channels-set vs i v w e c)

pub All-set :
    (P : Watcher → Type 0) (vs : List Watcher) (i : ℕ) (v : Watcher)
    → All P vs
    → P v
    → All P (set vs i v)
All-set P [] i v h p = tt
All-set P (u ∷ vs) zero v h p = (p, h.1)
All-set P (u ∷ vs) (suc i) v h p = (h.0, All-set P vs i v h.1 p)

pub All_map :
    (P Q : Watcher → Type 0) (vs : List Watcher) → ((v : Watcher) → P v → Q v) → All P vs → All Q vs
All_map P Q [] f h = tt
All_map P Q (v ∷ vs) f h = (f v h.0, All_map P Q vs f h.1)

-- A channel that no watcher has is another than each watcher's.
pub All-apart :
    (P : Watcher → Type 0) (c : ℕ) (vs : List Watcher)
    → has c (channels vs) ≡ false
    → All P vs
    → All (λ u. P u × ((c == u.channel) ≡ false)) vs
unfolding has
All-apart P c [] h p = tt
All-apart P c (v ∷ vs) h p = ((p.0, ground arith), All-apart P c vs (ground arith) p.1)
