-- ===== src/Tests/Dms.antt =====
-- The record store on one file, with one object in it.
use emeralddb_src.Base.{
  zero, suc, get_or, ℕ, ◌+◌, ◌<◌, ◌≤◌, ◌≡◌, refl, subst, some, List, [], ◌∷◌, arith, true,
}
use emeralddb_src.Core.{ok}
use emeralddb_src.Memory.{Mem}
use emeralddb_src.Dms.Layout.{RecordId, num_slots, slot_offset, free_space, free_offset}
use emeralddb_src.Dms.FreeSpace.{insert, upper_bound}
use emeralddb_src.Dms.Extend.{add_pages, Os, whole, mapped}
use emeralddb_src.Dms.Open.{load_data}
use emeralddb_src.Dms.Open.Load.{count-load_data}
use emeralddb_src.Dms.FreeSpace.Index.{count}
use emeralddb_src.Dms.Page.{needs_recovery, lacks_space, recover_space}
use emeralddb_src.Dms.Page.Invariant.{IsPage, Stored}
use emeralddb_src.Dms.Page.Recover.{recover_space_in_vain, recover_space-IsPage}
use emeralddb_src.Dms.Page.Drop.{Removed, remove-Removed}
use emeralddb_src.Dms.Page.Remove.{Removed-IsPage}
use emeralddb_src.Dms.Page.{drop_record}
use emeralddb_src.Memory.{store32}
use emeralddb_src.Dms.Layout.{slot_at, slot_empty}
use emeralddb_src.Dms.Page.Insert.{Inserted}
use emeralddb_src.Dms.File.{DmsFile, no_page, returns, find, find_page, insert_once, remove}
use emeralddb_src.Dms.File.Invariant.{page_address}
use emeralddb_src.Dms.File.Added.{added, Outcome, grown, new_rid, grown-Outcome}
use emeralddb_src.Dms.File.Insert.{insert_once-Outcome, insert_once-IsStored, IsStored}
use emeralddb_src.Dms.File.Remove.{Deleted, remove-Deleted}
use emeralddb_src.Dms.File.Find.{find-StoredAt}
use emeralddb_src.Dms.File.Oversize.{insert_once_oversize}
use emeralddb_src.Tests.Objects.{sized_bson, sevens}
use emeralddb_src.Dms.Extend.{extend_segment}
use emeralddb_src.Dms.Extend.Segment.{HeaderApart, IsUnused}
use emeralddb_src.Dms.Extend.Extended.{Extended, extend_segment-Extended}
use emeralddb_src.Dms.Insertion
use emeralddb_src.Dms.Insertion.{extends}
use emeralddb_src.Dms.Insertion.Settled.{Settled, Behaves, alone-Behaves, insert-Settled}
use emeralddb_src.Dms.Insertion.Returns.{Returns, insert_extends-Returns}
use emeralddb_src.Tests.Blank.{blank_file, blank_file-IsFile, words}

fits :
    slot_offset blank_file.mem (page_address (0 ∷ []) 0) + (6 + 12)
    ≤ free_offset blank_file.mem (page_address (0 ∷ []) 0)
fits = omega (arith, words 0 (omega arith))

spare : 6 + 12 ≤ free_space blank_file.mem (page_address (0 ∷ []) 0)
spare = omega (arith, words 0 (omega arith))

-- The file with an object of six bytes.
abbrev file : DmsFile
file = grown sized_bson blank_file blank_file-IsFile 5 0 (omega arith) (omega arith) fits spare

abbrev rid : RecordId
rid = new_rid sized_bson blank_file blank_file-IsFile 5 0 (omega arith) (omega arith) fits spare

file-Outcome : Outcome sized_bson blank_file 5 (returns ok file (some (rid, 5)))
file-Outcome =
    grown-Outcome sized_bson blank_file blank_file-IsFile 5 0 (omega arith) (omega arith) fits spare

insert_once-Outcome_example : Outcome sized_bson blank_file 5 (insert_once sized_bson blank_file 5)
insert_once-Outcome_example =
    insert_once-Outcome sized_bson blank_file 5 blank_file-IsFile (omega arith)

found : find_page blank_file 14 ≡ some 0
unfolding find_page upper_bound add_pages insert
found = refl

insert_once-IsStored_example : IsStored (insert_once sized_bson blank_file 5)
insert_once-IsStored_example =
    insert_once-IsStored sized_bson blank_file 5 0 blank_file-IsFile found fits

insert_once_oversize_example : insert_once sized_bson blank_file 4194267 ≡ no_page
insert_once_oversize_example =
    insert_once_oversize sized_bson blank_file 4194267 blank_file-IsFile (omega arith)

remove-Deleted_example :
    ((remove file rid).0 ≡ ok) × Deleted sized_bson file (remove file rid).1 rid
remove-Deleted_example =
    remove-Deleted sized_bson file rid (5 ∷ sevens 5) file-Outcome.1 file-Outcome.5

find-StoredAt_example : find sized_bson file rid ≡ (ok, some 5)
find-StoredAt_example = find-StoredAt sized_bson file rid 5 file-Outcome.5

-- The page after the object is removed.
abbrev slot : ℕ
slot = slot_at file.mem 0 0

abbrev holed : Mem
holed = store32 (drop_record file.mem 0 0 slot) 20 4194272

file-IsPage : IsPage file.mem 0
file-IsPage = file-Outcome.1.pages 0 (omega arith)

insertion : Inserted blank_file.mem file.mem 0 6 (5 ∷ sevens 5)
insertion = added sized_bson blank_file blank_file-IsFile 5 0 (omega arith) (omega arith) fits spare

stored : Stored file.mem 0 0 (5 ∷ sevens 5)
stored = subst (λ k. Stored file.mem 0 k (5 ∷ sevens 5)) (words 0 (omega arith)).0 insertion.stored

removed : Removed file.mem holed 0 0
removed =
    remove-Removed file.mem 0 0 file-IsPage (omega (arith, insertion.slots)) stored.live 4194272
      (omega (arith, insertion.space, words 0 (omega arith), stored.sized)) (omega arith)

holed-IsPage : IsPage holed 0
holed-IsPage = Removed-IsPage removed file-IsPage (omega (arith, insertion.slots)) stored.live

needs : needs_recovery holed 0 4194247 ≡ true
unfolding needs_recovery
needs = ground (
  arith,
  removed.ends,
  removed.free,
  removed.space,
  insertion.ends,
  insertion.free,
  insertion.space,
  words 0,
  stored.sized,
)

recover_space_in_vain_example : lacks_space (recover_space holed 0) 0 4194247 ≡ true
recover_space_in_vain_example =
    recover_space_in_vain holed 0 holed-IsPage 4194247 (omega arith) needs

recover_space-IsPage_example :
    IsPage (recover_space holed 0) 0
    × ((i : ℕ) (object : List ℕ)
        → i < num_slots holed 0
        → Stored holed 0 i object
        → Stored (recover_space holed 0) 0 i object)
    × ((i : ℕ)
        → i < num_slots holed 0
        → slot_at holed 0 i ≡ slot_empty
        → slot_at (recover_space holed 0) 0 i ≡ slot_empty)
recover_space-IsPage_example = recover_space-IsPage holed 0 holed-IsPage

-- A system that maps every part of the file at the same place.
abbrev system : Os
system = record { size_before = ok; writes = λ i. whole; size_for_map = ok; mmap = mapped 0 }

count-load_data_example :
    count 32 (load_data system (λ i. system) (λ x. 0) blank_file).1.free_space_map
    ≡ count 32 blank_file.free_space_map
count-load_data_example = count-load_data 32 system (λ i. system) (λ x. 0) blank_file (omega arith)

-- A second segment, mapped behind the first.
abbrev grows : Os
grows = record { size_before = ok; writes = λ i. whole; size_for_map = ok; mmap = mapped 134217728 }

blank_file-HeaderApart : HeaderApart blank_file
blank_file-HeaderApart i h top e = absurd cc

grows-IsUnused : (a : ℕ) → grows.mmap ≡ mapped a → IsUnused blank_file a
grows-IsUnused a e =
    let d : 134217728 ≡ a = cc in ((λ top h. absurd cc), λ i h. omega (arith, only i h))
  where
    only : (i : ℕ) → i < 1 → get_or blank_file.body i 0 ≡ 0
    only zero h = refl
    only (suc i) h = absurd (omega arith)

extend_segment-Extended_example : Extended grows blank_file (extend_segment grows blank_file)
extend_segment-Extended_example =
    extend_segment-Extended grows blank_file blank_file-IsFile blank_file-HeaderApart grows-IsUnused

grows-Behaves : Behaves (extends (λ f. f) grows (λ f. f)) blank_file
grows-Behaves =
    alone-Behaves grows blank_file blank_file-IsFile blank_file-HeaderApart grows-IsUnused

insert-Settled_example : Settled sized_bson blank_file 5 (
    emeralddb_src.Dms.Insertion.insert sized_bson
      (extends (λ f. f) grows (λ f. f) ∷ [])
      blank_file
      5)
insert-Settled_example =
    insert-Settled sized_bson (extends (λ f. f) grows (λ f. f) ∷ []) blank_file 5 blank_file-IsFile
      blank_file-HeaderApart (grows-Behaves, tt)

insert_extends-Returns_example : Returns sized_bson (
    emeralddb_src.Dms.Insertion.insert sized_bson
      (extends (λ f. f) grows (λ f. f) ∷ [])
      blank_file
      4194266)
insert_extends-Returns_example =
    insert_extends-Returns sized_bson (λ f. f) (λ f. f) grows [] blank_file 4194266 grows-Behaves
      (λ g h. h) (omega arith)
