-- ===== src/Listener/Traced.antt =====
-- pmdTcpListenerEntryPoint of pmd/pmdTcpListener.cpp over the manager of the EDUs.
use emeralddb_src.Base.{
  ℕ, ◌≢◌, ◌≡◌, refl, ap, ◌⊎◌, inl, inr, Bool, true, false, List, [], ◌∷◌, ◌++◌, map, Option, none,
  some, if◌then◌else◌,
}
use emeralddb_src.Core.{Rc, ok, is_error}
use emeralddb_src.Edu.Block.{agent}
use emeralddb_src.Edu.Manager.{Manager}
use emeralddb_src.Edu.Pool.{start_edu}
use emeralddb_src.Edu.Step.{Reachable}
use emeralddb_src.Edu.Reach.{Reachable-IsManager}
use emeralddb_src.Edu.Start.{Started, start_edu-Started}
use emeralddb_src.Listener.{
  Accepted, nobody, accept_failed, connects, Arrival, Fate, hands, closes, Exit, finishes, leaves,
  use_started, listen,
}
use emeralddb_src.Edu.Started.{HasIds, start_edu-Reachable}

-- The run of the loop over the rounds, from one manager to another: what becomes of the clients, and its end. In
-- each round the other threads change the manager first. A client is handed to the EDU that startEDU
-- has made ready for it there; or startEDU fails there, and the socket is closed.
pub data Run : List Arrival → Manager → List Fate → Exit → Manager → Type 0 where
  goes_down :
      (a : Arrival) (rest : List Arrival) (m : Manager)
      → a.is_down ≡ true
      → Run (a ∷ rest) m [] leaves m
  hears_nobody :
      (a : Arrival) (rest : List Arrival) (m : Manager) {fates : List Fate} {x : Exit}
      {m' : Manager}
      → a.is_down ≡ false
      → a.accepted ≡ nobody
      → Run rest (a.others m) fates x m'
      → Run (a ∷ rest) m fates x m'
  cannot_accept :
      (a : Arrival) (rest : List Arrival) (m : Manager)
      → a.is_down ≡ false
      → a.accepted ≡ accept_failed
      → Run (a ∷ rest) m [] (if a.down_then then finishes else leaves) (a.others m)
  serves :
      (a : Arrival) (rest : List Arrival) (m m1 : Manager) (s id : ℕ) {fates : List Fate} {x : Exit}
      {m' : Manager}
      → a.is_down ≡ false
      → a.accepted ≡ connects s
      → start_edu a.allocated a.thread_made agent s (a.others m) ≡ (ok, some id, m1)
      → Started agent s (a.others m) (ok, some id, m1)
      → Run rest m1 fates x m'
      → Run (a ∷ rest) m (hands s id ∷ fates) x m'
  turns_away :
      (a : Arrival) (rest : List Arrival) (m m1 : Manager) (s : ℕ) (rc : Rc) (edu : Option ℕ)
      {fates : List Fate} {x : Exit} {m' : Manager}
      → a.is_down ≡ false
      → a.accepted ≡ connects s
      → start_edu a.allocated a.thread_made agent s (a.others m) ≡ (rc, edu, m1)
      → is_error rc ≡ true
      → Started agent s (a.others m) (rc, edu, m1)
      → Run rest m1 fates x m'
      → Run (a ∷ rest) m (closes s rc ∷ fates) x m'

-- The manager after a round
abbrev pub next_manager : Bool → Bool → Accepted → Manager → Manager
next_manager allocated made nobody m = m
next_manager allocated made accept_failed m = m
next_manager allocated made (connects s) m = (use_started s (start_edu allocated made agent s m)).1

-- In each round the other threads take steps of the manager, and its next id does not wrap.
abbrev pub Proceeds : List Arrival → Manager → Type 0
Proceeds [] m = Unit {0}
Proceeds (a ∷ rest) m =
    Reachable (a.others m)
    × HasIds (a.others m)
    × Proceeds rest (next_manager a.allocated a.thread_made a.accepted (a.others m))

-- The database goes down, or accept fails.
abbrev pub Ends : List Arrival → Type 0
Ends [] = ⊥
Ends (a ∷ rest) = (a.is_down ≡ true) ⊎ (a.accepted ≡ accept_failed) ⊎ Ends rest

-- The sockets of the clients that are accepted before that
abbrev pub clients : List Arrival → List ℕ
clients [] = []
clients (a ∷ rest) = if a.is_down then [] else elim a.accepted [
  | nobody ↦ clients rest
  | accept_failed ↦ []
  | connects s ↦ s ∷ clients rest
]

abbrev pub socket_of : Fate → ℕ
socket_of (hands s id) = s
socket_of (closes s rc) = s

-- The manager after startEDU is the one that the loop goes on with.
use_started_manager :
    (s : ℕ) (m : Manager) (r : Rc × Option ℕ × Manager)
    → Started agent s m r
    → r.2 ≡ (use_started s r).1
unfolding use_started
use_started_manager s m (ok, some id, m') h = refl
use_started_manager s m (ok, none, m') h = absurd h
use_started_manager s m (rc, edu, m') h = refl

abbrev Served : Type 0
Served = Option (Exit × List Fate × Manager)

-- The loop has run to its end, with a manager in reach, and served the clients `cs`, each in its turn.
abbrev pub Listens : List Arrival → Manager → List ℕ → Option (Exit × List Fate × Manager) → Type 0
Listens arrivals m cs none = ⊥
Listens arrivals m cs (some (x, fates, m')) =
    Run arrivals m fates x m' × Reachable m' × (map socket_of fates ≡ cs)

module _ (a : Arrival) (rest : List Arrival) (m : Manager) where
  -- The fate of one client comes before those of the later ones.
  prepend-Listens :
      (f : Fate) (m1 : Manager) (cs : List ℕ) (r : Served)
      → ((fates : List Fate) (x : Exit) (m' : Manager)
          → Run rest m1 fates x m'
          → Run (a ∷ rest) m (f ∷ fates) x m')
      → Listens rest m1 cs r
      → Listens (a ∷ rest) m (socket_of f ∷ cs) (elim r as (λ _. Served) [
        | none ↦ none
        | some (x, fates, m3) ↦ some (x, (f ∷ []) ++ fates, m3)
      ])
  prepend-Listens f m1 cs none next h = h
  prepend-Listens f m1 cs (some (x, fates, m3)) next (run, r, e) =
      (next fates x m3 run, r, ap (◌∷◌ (socket_of f)) e)

  use_started-Listens :
      (s : ℕ) (cs : List ℕ) (later : Manager → Served)
      → a.is_down ≡ false
      → a.accepted ≡ connects s
      → (r : Rc × Option ℕ × Manager) → start_edu a.allocated a.thread_made agent s (a.others m) ≡ r
      → Started agent s (a.others m) r
      → Listens rest r.2 cs (later r.2)
      → Listens (a ∷ rest) m (s ∷ cs) (elim (later (use_started s r).1) as (λ _. Served) [
        | none ↦ none
        | some (x, fates, m3) ↦ some (x, (use_started s r).0 ++ fates, m3)
      ])
  unfolding use_started
  use_started-Listens s cs later up e (ok, some id, m1) starts h k =
      prepend-Listens (hands s id) m1 cs (later m1)
        (λ fates x m' run. serves a rest m m1 s id up e starts h run) k
  use_started-Listens s cs later up e (ok, none, m1) starts h k = absurd h
  use_started-Listens s cs later up e (rc, edu, m1) starts h k =
      prepend-Listens (closes s rc) m1 cs (later m1)
        (λ fates x m' run. turns_away a rest m m1 s rc edu up e starts refl h run) k

  quiet-Listens :
      (cs : List ℕ) (r : Served)
      → a.is_down ≡ false
      → a.accepted ≡ nobody
      → Listens rest (a.others m) cs r
      → Listens (a ∷ rest) m cs r
  quiet-Listens cs none up e h = h
  quiet-Listens cs (some (x, fates, m')) up e (run, r, f) = (hears_nobody a rest m up e run, r, f)

  round-Listens :
      (down : Bool) (accepted : Accepted) (cs : List ℕ) (later : Manager → Served)
      → a.is_down ≡ down
      → a.accepted ≡ accepted
      → Reachable m
      → Reachable (a.others m)
      → HasIds (a.others m)
      → (down ≡ false
          → accepted ≢ accept_failed
          → (m1 : Manager) → m1 ≡ next_manager a.allocated a.thread_made accepted (a.others m)
          → Reachable m1
          → Listens rest m1 cs (later m1))
      → Listens
          (a ∷ rest)
          m
          (if down then [] else elim accepted as (λ _. List ℕ) [
            | nobody ↦ cs
            | accept_failed ↦ []
            | connects s ↦ s ∷ cs
          ])
          (if down then some (leaves, [], m) else elim accepted as (λ _. Served) [
            | nobody ↦ later (a.others m)
            | accept_failed ↦ some (if a.down_then then finishes else leaves, [], a.others m)
            | connects s ↦
                let (fate, m2) =
                  use_started s (start_edu a.allocated a.thread_made agent s (a.others m)) in
                elim (later m2) as (λ _. Served) [
                  | none ↦ none
                  | some (x, fates, m3) ↦ some (x, fate ++ fates, m3)
                ]
          ])
  round-Listens true accepted cs later d e r r1 ids h = (goes_down a rest m d, r, refl)
  round-Listens false nobody cs later d e r r1 ids h =
      quiet-Listens cs (later (a.others m)) d e (h refl (λ x. cc) (a.others m) refl r1)
  round-Listens false accept_failed cs later d e r r1 ids h = (cannot_accept a rest m d e, r1, refl)
  round-Listens false (connects s) cs later d e r r1 ids h =
      let result = start_edu a.allocated a.thread_made agent s (a.others m) in
      let started =
        start_edu-Started a.allocated a.thread_made agent s (a.others m)
          (Reachable-IsManager (a.others m) r1) in
      use_started-Listens s cs later d e result refl started (
        h refl (λ x. cc) result.2 (use_started_manager s (a.others m) result started)
          (start_edu-Reachable a.allocated a.thread_made agent s (a.others m) ids r1))

-- From a manager in reach, and where in each round the other threads take steps of the manager and
-- its next id does not wrap, the loop that listens ends once the database goes down or accept
-- fails, with a manager in reach. The clients accepted before that are served in their order: in
-- its round, on the manager as the other threads have left it, startEDU makes an EDU ready with the
-- client's socket, which is handed to it, or startEDU fails and the socket is closed.
pub listen-Listens :
    (arrivals : List Arrival) (m : Manager)
    → Proceeds arrivals m
    → Ends arrivals
    → Reachable m
    → Listens arrivals m (clients arrivals) (listen arrivals m)
unfolding listen
listen-Listens [] m h e r = absurd e
listen-Listens (a ∷ rest) m (r1, ids, h) e r =
    round-Listens a rest m a.is_down a.accepted (clients rest) (listen rest) refl refl r r1 ids
      λ up heard m1 same r2. listen-Listens rest m1 (rw same h) (still e up heard) r2
  where
    still :
        (a.is_down ≡ true) ⊎ (a.accepted ≡ accept_failed) ⊎ Ends rest
        → a.is_down ≡ false
        → a.accepted ≢ accept_failed
        → Ends rest
    still (inl d) up heard = absurd cc
    still (inr (inl f)) up heard = absurd (heard f)
    still (inr (inr e)) up heard = e
