-- ===== src/Listener/Returns.antt =====
-- The end of pmdTcpListenerEntryPoint of pmd/pmdTcpListener.cpp.
use emeralddb_src.Base.{
  ℕ, ◌+◌, ◌≤◌, ◌≡◌, refl, ◌≢◌, ◌⊎◌, inl, inr, Bool, true, false, not, ◌&&◌, List, [], ◌∷◌, ◌++◌,
  Option, none, some, arith, leb, length, if_cases, if◌then◌else◌,
}
use emeralddb_src.Core.{is_error}
use emeralddb_src.Edu.Manager.{Manager, activate_edu, wait_edu}
use emeralddb_src.Edu.Pool.{start_edu}
use emeralddb_src.Edu.Block.{agent}
use emeralddb_src.Listener.{
  Accepted, nobody, accept_failed, connects, Arrival, Fate, Exit, finishes, leaves, use_started,
  listen, Try, Listened, after_listen, serve_clients, tcp_listener_entry_point, tcp_listener_retry,
}
use emeralddb_src.Listener.Traced.{Ends}

-- There is a result.
abbrev pub Returns : {A : Type 0} → Option A → Type 0
Returns none = ⊥
Returns (some x) = Unit {0}

kept_Returns :
    {A B : Type 0} (f : A → B) (r : Option A)
    → Returns r
    → Returns (elim r as (λ _. Option B) [ none ↦ none | some x ↦ some (f x) ])
kept_Returns f none h = h
kept_Returns f (some x) h = tt

round-Returns :
    (down down_then allocated made : Bool) (accepted : Accepted) (m m1 : Manager)
    (later : Manager → Option (Exit × List Fate × Manager))
    → (down ≡ false → accepted ≢ accept_failed → (m2 : Manager) → Returns (later m2))
    → Returns (
        if down
        then some (leaves, [], m)
        else elim accepted as (λ _. Option (Exit × List Fate × Manager)) [
          | nobody ↦ later m1
          | accept_failed ↦ some (if down_then then finishes else leaves, [], m1)
          | connects s ↦
              let (fate, m2) = use_started s (start_edu allocated made agent s m1) in
              elim (later m2) as (λ _. Option (Exit × List Fate × Manager)) [
                | none ↦ none
                | some (exit, fates, m3) ↦ some (exit, fate ++ fates, m3)
              ]
        ])
round-Returns true down_then allocated made accepted m m1 later h = tt
round-Returns false down_then allocated made nobody m m1 later h = h refl (λ e. cc) m1
round-Returns false down_then allocated made accept_failed m m1 later h = tt
round-Returns false down_then allocated made (connects s) m m1 later h =
    let r = use_started s (start_edu allocated made agent s m1) in
    kept_Returns (λ (x : Exit × List Fate × Manager). (x.0, r.0 ++ x.1, x.2)) (later r.1)
      (h refl (λ e. cc) r.1)

listen-Returns :
    (arrivals : List Arrival) (m : Manager) → Ends arrivals → Returns (listen arrivals m)
unfolding listen
listen-Returns [] m e = absurd e
listen-Returns (a ∷ rest) m e =
    round-Returns a.is_down a.down_then a.allocated a.thread_made a.accepted m (a.others m)
      (listen rest) λ up heard m2. listen-Returns rest m2 (still e up heard)
  where
    still :
        (a.is_down ≡ true) ⊎ (a.accepted ≡ accept_failed) ⊎ Ends rest
        → a.is_down ≡ false
        → a.accepted ≢ accept_failed
        → Ends rest
    still (inl d) up heard = absurd cc
    still (inr (inl f)) up heard = absurd (heard f)
    still (inr (inr e)) up heard = e

-- The loop that listens ends in each round over the retries.
abbrev pub AllEnd : List Try → Type 0
AllEnd [] = Unit {0}
AllEnd (t ∷ ts) = Ends t.arrivals × AllEnd ts

module _ (id : ℕ) where
  after_listen-Returns :
      (again : Manager → Option Listened)
      → ((m : Manager) → Returns (again m))
      → (r : Option (Exit × List Fate × Manager)) → Returns r
      → Returns (elim r as (λ _. Option Listened) [
        | none ↦ none
        | some result ↦ after_listen id again result
      ])
  unfolding after_listen
  after_listen-Returns again h none e = e
  after_listen-Returns again h (some (finishes, fates, m)) e = tt
  after_listen-Returns again h (some (leaves, fates, m)) e =
      if_cases Returns (is_error (wait_edu id m).0) _ _ (λ e. tt)
        λ e.
          kept_Returns (λ (x : Listened). (x.0, fates ++ x.1, x.2)) (again (wait_edu id m).1)
            (h (wait_edu id m).1)

  entry_point-Returns :
      (ts : List Try) (retry : ℕ) (m : Manager)
      → 6 ≤ retry + length ts
      → AllEnd ts
      → Returns (tcp_listener_entry_point id ts retry m)
  unfolding tcp_listener_entry_point serve_clients
  entry_point-Returns [] retry m many h =
      let used : leb retry tcp_listener_retry ≡ false = ground arith in rw used tt
  entry_point-Returns (t ∷ ts) retry m many (h, hs) =
      if_cases Returns (not (leb retry tcp_listener_retry && not t.is_down)) _ _ (λ e. tt)
        λ e.
          if_cases Returns (is_error t.init) _ _ (λ e. tt)
            λ e.
              if_cases Returns (is_error t.bind) _ _ (λ e. tt)
                λ e.
                  if_cases Returns (is_error (activate_edu id m).0) _ _ (λ e. tt)
                    λ e.
                      after_listen-Returns (tcp_listener_entry_point id ts (retry + 1))
                        (λ m'. entry_point-Returns ts (retry + 1) m' (omega arith) hs)
                        (listen t.arrivals (activate_edu id m).1)
                        (listen-Returns t.arrivals (activate_edu id m).1 h)

-- pmdTcpListenerEntryPoint returns within six rounds over the retries, if in each the loop that
-- listens ends: the database goes down, or accept fails.
pub tcp_listener_entry_point-Returns :
    (id : ℕ) (ts : List Try) (m : Manager)
    → 6 ≤ length ts
    → AllEnd ts
    → Returns (tcp_listener_entry_point id ts 0 m)
tcp_listener_entry_point-Returns id ts m many h = entry_point-Returns id ts 0 m (omega arith) h
