-- ===== src/Tests/Edu.antt =====
-- The thread pool with one EDU.
use emeralddb_src.Base.{ℕ, Bool, ap, inl, List, inr, ◌≡◌, refl, some, [], ◌∷◌, arith, true, false}
use emeralddb_src.Core.{ok}
use emeralddb_src.Edu.OrderedMap.{find, set, erase}
use emeralddb_src.Edu.Block.{
  resume, no_event, Block, Event, agent, running, idle, msg, new_block, wait_event,
}
use emeralddb_src.Edu.Manager.{
  Manager, new_manager, get_edu_by_id, set_block, post_edu_post, forget_thread, wait_edu_post,
  activate_edu, wait_edu, deactivate_edu, destroy_edu,
}
use emeralddb_src.Edu.Pool.{enter_edu, first_idle, start_edu, return_edu}
use emeralddb_src.Edu.Invariant.{IsManager}
use emeralddb_src.Edu.Step.{
  Reachable, start, then_step, enters, deactivates, takes, posts, forces_all, stays, goes_on,
}
use emeralddb_src.Edu.Reach.{Reachable-IsManager}
use emeralddb_src.Edu.Table.{row_activate, row_wait, row_destroy}
use emeralddb_src.Edu.Table.Listed.{OnTable, operations-OnTable}
use emeralddb_src.Edu.Return.{Returned, return_edu-Returned}
use emeralddb_src.Edu.Start.{Started, start_edu-Started}
use emeralddb_src.Edu.Lost.{IsLost}
use emeralddb_src.Edu.Lost.Forever.{pooled_edu-IsLost}
use emeralddb_src.Edu.Force.{edu_all, force_edus, force_all, is_among}
use emeralddb_src.Edu.Shutdown.{destroy_all}
use emeralddb_src.Edu.Shutdown.Empties.{Obeys, Clears, Leave, Emptied, destroy_all-Emptied}
use emeralddb_src.Edu.Thread.{
  EduRound, Local, Next, again, destroyed, edu_round, handle_event, EndsForgotten, edu_loop,
  edu_loop-EndsForgotten,
}

abbrev first_block : Block
first_block = record (new_block agent) { id = 1 }

-- A new manager with one agent.
abbrev one_agent : Manager
one_agent = record new_manager { run_queue = (1, first_block) ∷ []; next_id = 2 }

one_agent-Reachable : Reachable one_agent
unfolding enter_edu get_edu_by_id find set
one_agent-Reachable = then_step start (enters agent 1 one_agent (omega arith) refl)

Reachable-IsManager_example : IsManager one_agent
Reachable-IsManager_example = Reachable-IsManager one_agent one_agent-Reachable

one_agent-IsManager : IsManager one_agent
one_agent-IsManager = Reachable-IsManager one_agent one_agent-Reachable

known : get_edu_by_id one_agent 1 ≡ some first_block
unfolding get_edu_by_id find
known = refl

-- The agent is not in the idle queue.
operations-OnTable_example :
    OnTable row_activate one_agent 1 first_block (activate_edu 1 one_agent)
    × OnTable row_wait one_agent 1 first_block (wait_edu 1 one_agent)
    × OnTable row_destroy one_agent 1 first_block (destroy_edu 1 one_agent)
unfolding find
operations-OnTable_example =
    operations-OnTable one_agent one_agent-IsManager 1 first_block known λ e. cc

return_edu-Returned_example : Returned one_agent 1 (return_edu 10 1 false one_agent)
return_edu-Returned_example =
    return_edu-Returned 10 false one_agent 1 first_block one_agent-IsManager known

start_edu-Started_example : Started agent 7 one_agent (start_edu true true agent 7 one_agent)
start_edu-Started_example = start_edu-Started true true agent 7 one_agent one_agent-IsManager

-- The agent is pooled, and takes an event that another thread posts to it.
abbrev message : Event
message = record { event_type = msg; release = false; payload = 3 }

abbrev lost_block : Block
lost_block = record first_block { status = running }

abbrev pooled_agent : Manager
pooled_agent = record one_agent {
  run_queue = [];
  idle_queue = (1, record first_block { status = idle }) ∷ [];
}

abbrev lost_agent : Manager
lost_agent = record one_agent { run_queue = []; idle_queue = (1, lost_block) ∷ [] }

pooled_agent-Reachable : Reachable pooled_agent
unfolding deactivate_edu find erase set
pooled_agent-Reachable = then_step one_agent-Reachable (deactivates 1 first_block known refl)

lost_agent-Reachable : Reachable lost_agent
unfolding wait_edu_post get_edu_by_id find wait_event set_block set
lost_agent-Reachable = then_step pooled_agent-Reachable (takes 1 (message ∷ []))

in_idle_queue : find 1 lost_agent.idle_queue ≡ some lost_block
unfolding find
in_idle_queue = refl

-- The thread posts an event to itself, and is forced.
abbrev afterwards : Manager
afterwards = force_edus edu_all (post_edu_post 1 message lost_agent).1

pooled : find 1 pooled_agent.idle_queue ≡ some (record first_block { status = idle })
unfolding find
pooled = refl

taken : wait_edu_post 1 (message ∷ []) pooled_agent ≡ (ok, some message, lost_agent)
unfolding wait_edu_post get_edu_by_id find wait_event set_block set
taken = refl

pooled_edu-IsLost_example :
    ((c : Block) → first_idle afterwards.idle_queue ≡ some (1, c) → ⊥)
    × ((return_edu 10 1 true afterwards).1 ≡ false)
    × IsLost 1 afterwards
pooled_edu-IsLost_example =
    pooled_edu-IsLost pooled_agent afterwards 1 10 true (record first_block { status = idle })
      message (message ∷ []) pooled_agent-Reachable pooled (ap (λ r. r.1) taken) (λ e. cc)
      (rw taken (goes_on (goes_on stays (posts 1 message)) (forces_all edu_all)))

-- Nothing happens in the first round, and the EDUs leave in the second.
abbrev empties : Manager → Manager
empties m = record m { run_queue = []; idle_queue = [] }

none_there : (k : ℕ) (b : Block) → find k [] ≡ some b → ⊥
unfolding find
none_there k b e = cc

stands_still : Obeys (λ m. m)
stands_still m closed = (closed, refl, (λ k b e. (b, e, λ f. f)), (λ k b e. (b, e, λ f. f)))

empties-Obeys : Obeys empties
empties-Obeys m closed =
    (closed, refl, (λ k b e. absurd (none_there k b e)), (λ k b e. absurd (none_there k b e)))

empties-Clears : Clears empties
empties-Clears m closed =
    ((λ k b e. absurd (none_there k b e)), (λ k b e. absurd (none_there k b e)))

abbrev leaving : List (Manager → Manager)
leaving = (λ m. m) ∷ empties ∷ []

leaving-Leave : Leave leaving
leaving-Leave = (stands_still, inr (empties-Obeys, inl empties-Clears))

destroy_all-Emptied_example : Emptied (destroy_all leaving leaving one_agent)
destroy_all-Emptied_example =
    destroy_all-Emptied leaving leaving one_agent leaving-Leave leaving-Leave

-- The agent is told to run; it is forced by then, and ends when it returns.
abbrev runs : EduRound
runs = record {
  arrived = record { event_type = resume; release = false; payload = 7 } ∷ [];
  main = λ m. m;
  others = λ m. m;
}

abbrev quiet : EduRound
quiet = record { arrived = []; main = λ m. m; others = λ m. m }

abbrev forced_agent : Manager
forced_agent = force_edus edu_all one_agent

abbrev is_ended : Next → Bool
is_ended (destroyed m) = true
is_ended (again v m) = false

abbrev unforced : Local
unforced = record {
  is_forced = false;
  event = record { event_type = no_event; release = false; payload = 0 };
}

edu_loop-EndsForgotten_example :
    EndsForgotten 1 (edu_loop 10 1 (runs ∷ quiet ∷ []) unforced forced_agent)
edu_loop-EndsForgotten_example =
    edu_loop-EndsForgotten 10 1 (runs ∷ quiet ∷ []) unforced forced_agent
      (((λ m r. r), (λ m r. r)), (((λ m r. r), (λ m r. r)), tt))
      (then_step one_agent-Reachable (forces_all edu_all))

-- In the second round the thread is forced: it returns its EDU, which is destroyed.
forced_ends : is_ended (edu_loop 10 1 (runs ∷ quiet ∷ []) unforced forced_agent) ≡ true
unfolding edu_loop edu_round handle_event return_edu wait_edu_post wait_edu get_edu_by_id find set
    set_block wait_event deactivate_edu destroy_edu forget_thread force_edus force_all is_among
    erase
forced_ends = refl
