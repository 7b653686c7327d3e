-- ===== src/Dms/Insertion/Returns.antt =====
-- When the whole `insert` of dms/dms.cpp returns.
use emeralddb_src.Base.{
  ℕ, ◌<◌, ◌≡◌, refl, subst, inl, inr, true, false, not, [], ◌∷◌, List, arith, none, Bool-cases, ltb,
  if_cases,
}
use emeralddb_src.Core.{is_error}
use emeralddb_src.Bson.{Bson}
use emeralddb_src.Dms.Layout.{max_record}
use emeralddb_src.Dms.Extend.{Os, extend_segment}
use emeralddb_src.Dms.Extend.Extended.{extend_segment-Extended}
use emeralddb_src.Dms.File.{DmsFile, Attempt, no_page, returns, num_pages, insert_once}
use emeralddb_src.Dms.File.Invariant.{IsFile, space_of}
use emeralddb_src.Dms.File.Added.{Outcome}
use emeralddb_src.Dms.File.Insert.{insert_once-Outcome}
use emeralddb_src.Dms.Insertion.{Turn, extends, take_turn, insert_retry, insert}
use emeralddb_src.Dms.Insertion.Settled.{Behaves}

module _ (bson : Bson) where
  open bson use {Obj, objsize}

  -- It returns.
  abbrev pub Returns : Attempt Obj → Type 0
  Returns no_page = ⊥
  Returns (returns rc g out) = Unit {0}

  keeps_Returns :
      (later r : Attempt Obj)
      → (r ≡ no_page → Returns later)
      → Returns
          (elim r as (λ _. Attempt Obj) [ returns rc g out ↦ returns rc g out | no_page ↦ later ])
  keeps_Returns later (returns rc g out) h = tt
  keeps_Returns later no_page h = h refl

  other_Returns : (r : Attempt Obj) → (r ≡ no_page → ⊥) → Returns r
  other_Returns no_page h = h refl
  other_Returns (returns rc g out) h = tt

  -- A file with a page that has all of its space free has a page for the object.
  fresh_page-Returns :
      (f : DmsFile) (o : Obj) (p : ℕ)
      → IsFile f
      → objsize o < 4194268
      → (p < num_pages f) × (space_of f.mem f.body p ≡ 4194276)
      → insert_once bson f o ≡ no_page
      → ⊥
  fresh_page-Returns f o p valid small (bound, free) e =
      let full : Outcome bson f o no_page =
        subst (Outcome bson f o) e (insert_once-Outcome bson f o valid (omega arith)) in
      omega (arith, full p bound, free)

  retry_fresh-Returns :
      (ts : List Turn) (f : DmsFile) (o : Obj) (p : ℕ)
      → IsFile f
      → objsize o < 4194268
      → (p < num_pages f) × (space_of f.mem f.body p ≡ 4194276)
      → Returns (insert_retry bson ts f o)
  unfolding insert_retry
  retry_fresh-Returns [] f o p valid small fresh =
      other_Returns (insert_once bson f o) (fresh_page-Returns f o p valid small fresh)
  retry_fresh-Returns (t ∷ ts) f o p valid small fresh =
      keeps_Returns _ (insert_once bson f o)
        λ e. absurd (fresh_page-Returns f o p valid small fresh e)

  -- A page of the file has all of its space free.
  abbrev pub HasEmptyPage : DmsFile → Type 0
  HasEmptyPage f = (p : ℕ) × (p < num_pages f) × (space_of f.mem f.body p ≡ 4194276)

  -- insert of an object of less than 4194268 bytes returns once it is its own turn to extend the
  -- file, if the other threads leave a well-formed file that stores all it stored and whose header
  -- lies outside of its segments, before that and between the extension and the next pass; if they
  -- leave a page with all of its space free there, where there was one; and if mmap answers with a
  -- place that is not in use.
  pub insert_extends-Returns :
      (before after : DmsFile → DmsFile) (os : Os) (ts : List Turn) (f : DmsFile) (o : Obj)
      → Behaves (extends before os after) f
      → ((g : DmsFile) → HasEmptyPage g → HasEmptyPage (after g))
      → objsize o < 4194268
      → Returns (insert bson (extends before os after ∷ ts) f o)
  unfolding insert insert_retry take_turn
  insert_extends-Returns before after os ts f o ((v, k, a), unused, (v', k', a')) leaves small =
      if_cases Returns (ltb max_record (objsize o)) _ _ (λ e. tt)
        λ e.
          if_cases Returns (not (bson.has_id o)) _ _ (λ d. tt)
            λ d. keeps_Returns _ (insert_once bson f o) λ n. after_extension
    where
      f' : DmsFile
      f' = before f

      g : DmsFile
      g = (extend_segment os f').1

      after_extension : Returns (elim (is_error (extend_segment os f').0) as (λ _. Attempt Obj) [
        | true ↦ returns (extend_segment os f').0 (after g) none
        | false ↦ insert_retry bson ts (after g) o
      ])
      after_extension = elim (Bool-cases (is_error (extend_segment os f').0)) [
        | inl bad ↦ rw bad tt
        | inr good ↦
            let e = extend_segment-Extended os f' v a unused in
            rw good elim (e.3) [
              | inl (done, place, longer, fresh) ↦
                  let (p, below, empty) = leaves g (
                    num_pages f',
                    (fresh (num_pages f') (omega arith) (omega arith)).0,
                    (fresh (num_pages f') (omega arith) (omega arith)).1,
                  ) in
                  retry_fresh-Returns ts (after g) o p v' small (below, empty)
              | inr (bad, same) ↦ absurd cc
            ]
      ]
