-- ===== src/Dms/Insertion/Settled.antt =====
-- The ends of the whole `insert` of dms/dms.cpp.
use emeralddb_src.Base.{
  ℕ, ◌+◌, ◌≤◌, ◌≡◌, refl, ap, ◌∙◌, sym, inl, inr, true, not, [], ◌∷◌, List, arith, get_or, length,
  none, some, Bool-cases, Option-cases, ltb, if_cases,
}
use emeralddb_src.Core.{ok, is_error}
use emeralddb_src.Bson.{Bson}
use emeralddb_src.Dms.Layout.{max_record}
use emeralddb_src.Dms.Extend.{Os, mapped, extend_segment}
use emeralddb_src.Dms.Extend.Segment.{HeaderApart, IsUnused}
use emeralddb_src.Dms.Extend.Extended.{extend_segment-Extended}
use emeralddb_src.Dms.File.{
  DmsFile, Attempt, no_page, returns, find, find_page, page_to_offset, insert_into, insert_once,
  update_free_space,
}
use emeralddb_src.Dms.File.Invariant.{IsFile, StoredAt}
use emeralddb_src.Dms.File.Added.{Keeps, Outcome}
use emeralddb_src.Dms.File.Insert.{insert_once-Outcome}
use emeralddb_src.Dms.Insertion.{Turn, extends, waits, take_turn, insert_retry, insert}
use emeralddb_src.Dms.Page.{lacks_space}
use emeralddb_src.Dms.Layout.{has_eye_catcher}

-- The other threads leave a well-formed file that stores all it stored.
abbrev pub Leaves : DmsFile → DmsFile → Type 0
Leaves f g = IsFile g × Keeps f g × HeaderApart g

-- What a turn relies on: mmap answers only with a place that is not in use; the other threads leave a well-formed
-- file that stores all it stored.
abbrev pub Behaves : Turn → DmsFile → Type 0
Behaves (extends before os after) f =
    Leaves f (before f)
    × ((a : ℕ) → os.mmap ≡ mapped a → IsUnused (before f) a)
    × Leaves (extend_segment os (before f)).1 (after (extend_segment os (before f)).1)
Behaves (waits others) f = Leaves f (others f)

abbrev pub AllBehave : List Turn → DmsFile → Type 0
AllBehave [] f = Unit {0}
AllBehave (t ∷ ts) f = Behaves t f × AllBehave ts (take_turn t f).1

-- What `insert` promises when it returns: an error with a well-formed file that stores all it stored; or EDB_OK with
-- such a file, and the object stored and found under a new record id.
abbrev pub Settled : (bson : Bson) → DmsFile → bson.Obj → Attempt bson.Obj → Type 0
Settled bson f o no_page = Unit {0}
Settled bson f o (returns rc g none) = (is_error rc ≡ true) × IsFile g × HeaderApart g × Keeps f g
Settled bson f o (returns rc g (some (rid, out))) =
    (rc ≡ ok)
    × IsFile g
    × HeaderApart g
    × Keeps f g
    × StoredAt g rid (bson.objdata o)
    × (find bson g rid ≡ (ok, some o))
    × (out ≡ o)
    × ((bytes : List ℕ) → StoredAt f rid bytes → ⊥)

-- A turn in which no other thread changes the file
pub alone-Behaves :
    (os : Os) (f : DmsFile)
    → IsFile f
    → HeaderApart f
    → ((a : ℕ) → os.mmap ≡ mapped a → IsUnused f a)
    → Behaves (extends (λ g. g) os (λ g. g)) f
alone-Behaves os f valid apart unused =
    let e = extend_segment-Extended os f valid apart unused in
    ((valid, (λ rid bytes s. s), apart), unused, (e.0, (λ rid bytes s. s), e.2))

take_turn-Keeps :
    (t : Turn) (f : DmsFile)
    → IsFile f
    → HeaderApart f
    → Behaves t f
    → IsFile (take_turn t f).1 × HeaderApart (take_turn t f).1 × Keeps f (take_turn t f).1
unfolding take_turn
take_turn-Keeps (extends before os after) f valid apart ((v, k, a), unused, (v', k', a')) =
    let e = extend_segment-Extended os (before f) v a unused in
    (v', a', λ rid bytes s. k' rid bytes (e.1 rid bytes (k rid bytes s)))
take_turn-Keeps (waits others) f valid apart (v, k, a) = (v, a, k)

module _ (bson : Bson) where
  open bson use {Obj, objsize, objdata}

  abbrev KeepsHeader : DmsFile → Attempt Obj → Type 0
  KeepsHeader f no_page = Unit {0}
  KeepsHeader f (returns rc g out) = g.header ≡ f.header

  insert_into-KeepsHeader :
      (f : DmsFile) (page_id page : ℕ) (o : Obj) → KeepsHeader f (insert_into bson f page_id page o)
  unfolding insert_into update_free_space
  insert_into-KeepsHeader f page_id page o =
      if_cases (KeepsHeader f) (not (has_eye_catcher f.mem page)) _ _ (λ e. refl)
        λ e. if_cases (KeepsHeader f) (lacks_space _ page (objsize o)) _ _ (λ e. refl) λ e. refl

  insert_once-KeepsHeader : (f : DmsFile) (o : Obj) → KeepsHeader f (insert_once bson f o)
  unfolding insert_once
  insert_once-KeepsHeader f o = elim (Option-cases (find_page f (objsize o + 8))) [
    | inl n ↦ rw (n, insert_once) tt
    | inr (p, e) ↦ elim (Option-cases (page_to_offset f p)) [
      | inl n ↦ rw (e, n, insert_once) refl
      | inr (page, d) ↦ rw (e, d, insert_once) (insert_into-KeepsHeader f p page o)
    ]
  ]

  -- The segments are where they were, so the header still lies outside of them.
  pub moved-HeaderApart :
      (f g : DmsFile) → g.header ≡ f.header → g.body ≡ f.body → HeaderApart f → HeaderApart g
  moved-HeaderApart f g h b apart i bound top e =
      let same : get_or g.body i 0 ≡ get_or f.body i 0 = ap (λ b. get_or b i 0) b in
      let count : length g.body ≡ length f.body = ap length b in
      omega (arith, same, apart i (omega arith) top (sym h ∙ e))

  Outcome-Settled :
      (f : DmsFile) (o : Obj) (r : Attempt Obj)
      → HeaderApart f
      → Outcome bson f o r
      → KeepsHeader f r
      → Settled bson f o r
  Outcome-Settled f o no_page apart h k = tt
  Outcome-Settled f o (returns rc g none) apart (e, valid, keeps, size, body) k =
      (ap is_error e, valid, moved-HeaderApart f g k body apart, keeps)
  Outcome-Settled f o (returns rc g (some (rid, out))) apart
        (e, valid, keeps, size, body, stored, found, same, new) k =
      (e, valid, moved-HeaderApart f g k body apart, keeps, stored, found, same, new)

  -- What holds from a file that stores more holds from the first.
  Settled-from :
      (f f' : DmsFile) (o : Obj) (r : Attempt Obj)
      → Keeps f f'
      → Settled bson f' o r
      → Settled bson f o r
  Settled-from f f' o no_page k h = tt
  Settled-from f f' o (returns rc g none) k (e, valid, apart, keeps) =
      (e, valid, apart, λ rid bytes s. keeps rid bytes (k rid bytes s))
  Settled-from f f' o (returns rc g (some (rid, out))) k
        (e, valid, apart, keeps, stored, found, same, new) =
      (
        e,
        valid,
        apart,
        λ rid bytes s. keeps rid bytes (k rid bytes s),
        stored,
        found,
        same,
        λ bytes s. new bytes (k rid bytes s),
      )

  retry_next :
      (f : DmsFile) (o : Obj) (later r : Attempt Obj)
      → Settled bson f o r
      → Settled bson f o later
      → Settled bson f o
          (elim r as (λ _. Attempt Obj) [ returns rc g out ↦ returns rc g out | no_page ↦ later ])
  retry_next f o later (returns rc g out) h k = h
  retry_next f o later no_page h k = k

  pass-Settled :
      (f : DmsFile) (o : Obj)
      → IsFile f
      → HeaderApart f
      → objsize o ≤ max_record
      → Settled bson f o (insert_once bson f o)
  pass-Settled f o valid apart small =
      Outcome-Settled f o _ apart (insert_once-Outcome bson f o valid small)
        (insert_once-KeepsHeader f o)

  insert_retry-Settled :
      (turns : List Turn) (f : DmsFile) (o : Obj)
      → IsFile f
      → HeaderApart f
      → AllBehave turns f
      → objsize o ≤ max_record
      → Settled bson f o (insert_retry bson turns f o)
  unfolding insert_retry
  insert_retry-Settled [] f o valid apart h small = pass-Settled f o valid apart small
  insert_retry-Settled (t ∷ ts) f o valid apart (h, rest) small =
      let (valid', apart', keeps) = take_turn-Keeps t f valid apart h in
      retry_next f o _ (insert_once bson f o) (pass-Settled f o valid apart small)
        (elim (Bool-cases (is_error (take_turn t f).0)) [
          | inl e ↦ rw (e, insert_retry) (e, valid', apart', keeps)
          | inr e ↦
              rw (e, insert_retry)
                (Settled-from f (take_turn t f).1 o _ keeps
                  (insert_retry-Settled ts (take_turn t f).1 o valid' apart' rest small))
        ])

  -- insert on a well-formed file whose header lies outside of its segments, over turns in which
  -- mmap answers only with a place that is not in use and the other threads leave such a file that
  -- stores all it stored: if it returns, it is with an error and a well-formed file that stores all
  -- it stored, or with EDB_OK and such a file, in which the object is stored and found under a new
  -- record id.
  pub insert-Settled :
      (turns : List Turn) (f : DmsFile) (o : Obj)
      → IsFile f
      → HeaderApart f
      → AllBehave turns f
      → Settled bson f o (insert bson turns f o)
  unfolding insert
  insert-Settled turns f o valid apart h =
      if_cases (Settled bson f o) (ltb max_record (objsize o)) _ _
        (λ e. (refl, valid, apart, λ rid bytes s. s))
        λ e.
          if_cases (Settled bson f o) (not (bson.has_id o)) _ _
            (λ d. (refl, valid, apart, λ rid bytes s. s))
            λ d. insert_retry-Settled turns f o valid apart h (ground arith)
