-- ===== src/Edu/Block.antt =====
-- include/pmdEDU.hpp and include/pmdEDUEvent.hpp: the control block of a thread and its events, which
-- stand in an ossQueue (include/ossQueue.hpp), first in first out.
use emeralddb_src.Base.{ℕ, Bool, true, false, List, [], ◌∷◌, ◌++◌, Option, none, some}

pub data EduType : Type 0 where
  tcp_listener agent unknown : EduType

pub data EduStatus : Type 0 where
  creating running waiting idle destroy unknown_status : EduStatus

pub data EventType : Type 0 where
  no_event term resume active deactive msg timed_out lock_wakeup : EventType

-- pmdEDUEvent; `payload` is the address `_Data`.
pub record Event : Type 0 where
  pub event_type : EventType
  pub release : Bool
  pub payload : ℕ

-- pmdEDUCB, but for the pointer to its manager
pub record Block : Type 0 where
  pub edu_type : EduType
  pub status : EduStatus
  pub id : ℕ
  pub is_forced : Bool
  pub is_disconnected : Bool
  pub queue : List Event

-- pmdEDUCB ( mgr, type )
abbrev pub new_block : EduType → Block
new_block t = record {
  edu_type = t;
  status = creating;
  id = 0;
  is_forced = false;
  is_disconnected = false;
  queue = [];
}

-- PMD_IS_EDU_WAITING ( s ) and the others
abbrev pub is_waiting : EduStatus → Bool
is_waiting waiting = true
is_waiting _ = false

abbrev pub is_creating : EduStatus → Bool
is_creating creating = true
is_creating _ = false

abbrev pub is_running : EduStatus → Bool
is_running running = true
is_running _ = false

abbrev pub is_idle : EduStatus → Bool
is_idle idle = true
is_idle _ = false

-- isPoolable ( type )
abbrev pub is_poolable : EduType → Bool
is_poolable agent = true
is_poolable _ = false

abbrev pub set_status : EduStatus → Block → Block
set_status s b = record b { status = s }

-- postEvent
abbrev pub post_event : Event → Block → Block
post_event e b = record b { queue = b.queue ++ e ∷ [] }

-- waitEvent up to the wait on the queue
abbrev pub begin_wait : Block → Block
begin_wait b = elim (is_idle b.status) [ true ↦ b | false ↦ set_status waiting b ]

-- waitEvent after an event has been taken from the queue
abbrev pub take_event : Event → Block → Block
take_event e b = elim e.event_type [
  | term ↦ record b { is_disconnected = true }
  | no_event ↦ set_status running b
  | resume ↦ set_status running b
  | active ↦ set_status running b
  | deactive ↦ set_status running b
  | msg ↦ set_status running b
  | timed_out ↦ set_status running b
  | lock_wakeup ↦ set_status running b
]

-- waitEvent from the wait on: the event, `none` after the time is over.
abbrev pub end_wait_on : List Event → Block → Option Event × Block
end_wait_on [] b = (none, b)
end_wait_on (e ∷ rest) b = (some e, take_event e (record b { queue = rest }))

-- waitEvent, with the events that other threads post while it waits
unfoldable pub wait_event : List Event → Block → Option Event × Block
wait_event arrived b =
    let waiting_block = begin_wait b in end_wait_on (waiting_block.queue ++ arrived) waiting_block
