-- ===== src/Dms/File/Oversize.antt =====
-- dms/dms.cpp: objects of the sizes that DMS_MAX_RECORD admits and no page can take.
use emeralddb_src.Base.{◌+◌, ◌≤◌, ◌≡◌, refl, inl, inr, arith, Option-cases}
use emeralddb_src.Bson.{Bson}
use emeralddb_src.Dms.FreeSpace.{upper_bound}
use emeralddb_src.Dms.FreeSpace.Index.{upper_bound-some}
use emeralddb_src.Dms.File.{DmsFile, no_page, num_pages, find_page, insert_once}
use emeralddb_src.Dms.File.Invariant.{IsFile, space_of}

-- Whatever the well-formed file, a pass of `insert` finds no page for an object of 4194268 bytes or
-- more, although the largest size that `insert` admits is 4194276.
pub insert_once_oversize :
    (bson : Bson) (f : DmsFile) (o : bson.Obj)
    → IsFile f
    → 4194268 ≤ bson.objsize o
    → insert_once bson f o ≡ no_page
unfolding insert_once find_page
insert_once_oversize bson f o valid large =
    elim (Option-cases (upper_bound (bson.objsize o + 8) f.free_space_map)) [
      | inl e ↦ rw (e, insert_once, find_page) refl
      | inr ((s, p), e) ↦
          let u =
            upper_bound-some (space_of f.mem f.body) (num_pages f) (bson.objsize o + 8) s p
              f.free_space_map valid.index.sound e in
          let v = valid.pages p u.1 in absurd (omega (arith, u.0, u.2, v.space, v.slots_end))
    ]
