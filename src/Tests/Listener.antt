-- ===== src/Tests/Listener.antt =====
-- The listener with two clients, of which the second is turned away.
use emeralddb_src.Base.{refl, List, [], ◌∷◌, arith, true, false, inl, inr}
use emeralddb_src.Core.{ok}
use emeralddb_src.Edu.Manager.{new_manager, get_edu_by_id, set_block}
use emeralddb_src.Edu.OrderedMap.{find, set}
use emeralddb_src.Edu.Block.{agent}
use emeralddb_src.Edu.Step.{start}
use emeralddb_src.Listener.{
  Arrival, nobody, accept_failed, connects, listen, Try, tcp_listener_entry_point, use_started,
}
use emeralddb_src.Listener.Traced.{Listens, listen-Listens, Proceeds, Ends}
use emeralddb_src.Edu.Started.{start_edu-Reachable}
use emeralddb_src.Listener.Returns.{Returns, tcp_listener_entry_point-Returns}
use emeralddb_src.Edu.Pool.{start_edu, create_new_edu, enter_edu, launch_edu}

abbrev quiet : Arrival
quiet = record {
  is_down = false;
  others = λ m. m;
  accepted = nobody;
  down_then = false;
  allocated = true;
  thread_made = true;
}

-- A client, a client for whom there is no memory, and then an error of accept
abbrev arrivals : List Arrival
arrivals =
    quiet
    ∷ record quiet { accepted = connects 7 }
    ∷ record quiet { accepted = connects 8; allocated = false }
    ∷ record quiet { accepted = accept_failed }
    ∷ []

arrivals-Proceeds : Proceeds arrivals new_manager
unfolding use_started start_edu create_new_edu enter_edu launch_edu get_edu_by_id find set set_block
arrivals-Proceeds =
    let r = start_edu-Reachable true true agent 7 new_manager (omega arith) start in
    (start, omega arith, (start, omega arith, (r, omega arith, (r, omega arith, tt))))

arrivals-Ends : Ends arrivals
arrivals-Ends = inr (inr (inr (inr (inr (inr (inr (inl refl)))))))

listen-Listens_example : Listens arrivals new_manager (7 ∷ 8 ∷ []) (listen arrivals new_manager)
listen-Listens_example = listen-Listens arrivals new_manager arrivals-Proceeds arrivals-Ends start

abbrev one_try : Try
one_try = record { is_down = false; init = ok; bind = ok; arrivals = arrivals }

tcp_listener_entry_point-Returns_example : Returns (
    tcp_listener_entry_point 1
      (one_try ∷ one_try ∷ one_try ∷ one_try ∷ one_try ∷ one_try ∷ [])
      0
      new_manager)
tcp_listener_entry_point-Returns_example =
    tcp_listener_entry_point-Returns 1
      (one_try ∷ one_try ∷ one_try ∷ one_try ∷ one_try ∷ one_try ∷ []) new_manager (omega arith)
      (
        arrivals-Ends,
        (arrivals-Ends, (arrivals-Ends, (arrivals-Ends, (arrivals-Ends, (arrivals-Ends, tt))))),
      )
