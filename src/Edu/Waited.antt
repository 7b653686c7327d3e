-- ===== src/Edu/Waited.antt =====
-- What `postEvent` and `waitEvent` of include/pmdEDU.hpp keep of a block.
use emeralddb_src.Base.{◌≡◌, refl, ◌∙◌, ◌⊎◌, inl, inr, List, [], ◌∷◌, ◌++◌, Bool-cases}
use emeralddb_src.Edu.Block.{
  Block, Event, running, waiting, is_idle, wait_event, take_event, begin_wait, end_wait_on,
  EventType, no_event, term, resume, active, deactive, msg, timed_out, lock_wakeup,
}
use emeralddb_src.Edu.Manager.{}
use emeralddb_src.Edu.Table.{}
use emeralddb_src.Edu.Invariant.{}
use emeralddb_src.Edu.Step.{}

-- What `postEvent` and `waitEvent` keep of a block.
pub record Waited (b b' : Block) : Type 0 where
  pub id : b'.id ≡ b.id
  pub edu_type : b'.edu_type ≡ b.edu_type
  pub status : (b'.status ≡ b.status) ⊎ (b'.status ≡ running) ⊎ (b'.status ≡ waiting)

take_event-Waited : (e : Event) (b : Block) → Waited b (take_event e b)
take_event-Waited e b = by_type e.event_type refl
  where
    by_type : (t : EventType) → e.event_type ≡ t → Waited b (take_event e b)
    by_type no_event t = rw t (record { id = refl; edu_type = refl; status = inr (inl refl) })
    by_type term t = rw t (record { id = refl; edu_type = refl; status = inl refl })
    by_type resume t = rw t (record { id = refl; edu_type = refl; status = inr (inl refl) })
    by_type active t = rw t (record { id = refl; edu_type = refl; status = inr (inl refl) })
    by_type deactive t = rw t (record { id = refl; edu_type = refl; status = inr (inl refl) })
    by_type msg t = rw t (record { id = refl; edu_type = refl; status = inr (inl refl) })
    by_type timed_out t = rw t (record { id = refl; edu_type = refl; status = inr (inl refl) })
    by_type lock_wakeup t = rw t (record { id = refl; edu_type = refl; status = inr (inl refl) })

begin_wait-Waited : (b : Block) → Waited b (begin_wait b)
begin_wait-Waited b = elim (Bool-cases (is_idle b.status)) [
  | inl i ↦ rw (i, begin_wait) (record { id = refl; edu_type = refl; status = inl refl })
  | inr n ↦ rw (n, begin_wait) (record { id = refl; edu_type = refl; status = inr (inr refl) })
]

end_wait_on-Waited : (queue : List Event) (b : Block) → Waited b (end_wait_on queue b).1
end_wait_on-Waited [] b = record { id = refl; edu_type = refl; status = inl refl }
end_wait_on-Waited (e ∷ rest) b =
    let w = take_event-Waited e (record b { queue = rest }) in
    record { id = w.id; edu_type = w.edu_type; status = w.status }

pub wait_event-Waited : (arrived : List Event) (b : Block) → Waited b (wait_event arrived b).1
unfolding wait_event
wait_event-Waited arrived b =
    let first = begin_wait-Waited b in
    let then' = end_wait_on-Waited ((begin_wait b).queue ++ arrived) (begin_wait b) in
    record {
      id = then'.id ∙ first.id;
      edu_type = then'.edu_type ∙ first.edu_type;
      status = elim then'.status [
        | inl e ↦ elim first.status [
          | inl f ↦ inl (e ∙ f)
          | inr (inl f) ↦ inr (inl (e ∙ f))
          | inr (inr f) ↦ inr (inr (e ∙ f))
        ]
        | inr e ↦ inr e
      ];
    }
