-- ===== src/Tests/Store.antt =====
-- The record store opened on a new file, and an object inserted and found.
use emeralddb_src.Base.{ℕ, ◌≡◌, refl, [], ◌∷◌, arith, true}
use emeralddb_src.Core.{ok}
use emeralddb_src.Memory.{load32, store32, copy}
use emeralddb_src.Dms.Extend.{Os, whole, mapped, write_blocks, extend_file}
use emeralddb_src.Dms.File.{DmsFile, Attempt, returns, no_page}
use emeralddb_src.Dms.Open.{
  Opening, initialize, size_loop, init_new, use_header, new_file, map_file, map_bytes, init_header,
  load_data, load_body, load_segments,
}
use emeralddb_src.Dms.Open.New.{Initialized, initialize-Initialized}
use emeralddb_src.Dms.History.{Runs, opens, inserts, AllFound, Runs-AllFound, Runs-AllStored}
use emeralddb_src.Dms.Extend.{
  extend_segment, use_extension, map_segment, map_zeros, add_segment, add_pages, init_pages,
  init_page,
}
use emeralddb_src.Dms.Extend.Segment.{IsUnused}
use emeralddb_src.Dms.File.{insert_once, insert_into, update_free_space, find_page, page_to_offset}
use emeralddb_src.Dms.FreeSpace
use emeralddb_src.Dms.FreeSpace.{upper_bound}
use emeralddb_src.Dms.Page.{needs_recovery, lacks_space, write_record, place}
use emeralddb_src.Dms.Insertion.{Turn, extends, take_turn, insert_retry, insert}
use emeralddb_src.Dms.Insertion.Settled.{AllBehave, alone-Behaves}
use emeralddb_src.Tests.Objects.{sized_bson}

abbrev answers_at : ℕ → Os
answers_at a = record { size_before = ok; writes = λ i. whole; size_for_map = ok; mmap = mapped a }

-- The header of the file is mapped at 1000.
abbrev opening : Opening
opening = record {
  name_copied = true;
  opened = ok;
  init_os = answers_at 1000;
  header_os = answers_at 1000;
  segment_os = λ i. answers_at 200000;
}

initialize-Initialized_example :
    Initialized (initialize opening (λ x. 0) (ok ∷ ok ∷ []) (new_file (λ x. 0) 0))
initialize-Initialized_example = initialize-Initialized opening (λ x. 0) ok ok [] (λ x. 0)

abbrev opened_file : DmsFile
opened_file = (init_new (answers_at 1000) (λ x. 0) (new_file (λ x. 0) 0)).1

opened_file-Runs : Runs sized_bson opened_file []
unfolding initialize size_loop init_new use_header extend_file write_blocks map_file map_bytes
    init_header load_data load_body load_segments load32 store32 copy
opened_file-Runs = opens opening (λ x. 0) ok ok [] (λ x. 0) opened_file refl

-- The segment is mapped at 200000.
abbrev turn : Turn
turn = extends (λ f. f) (answers_at 200000) (λ f. f)

turn-Behaves : AllBehave (turn ∷ []) opened_file
unfolding init_new use_header extend_file write_blocks map_file
turn-Behaves =
    let (valid, apart, all) = Runs-AllStored sized_bson opened_file-Runs in
    (alone-Behaves (answers_at 200000) opened_file valid apart unused, tt)
  where
    unused : (a : ℕ) → mapped 200000 ≡ mapped a → IsUnused opened_file a
    unused a e =
        let d : 200000 ≡ a = cc in
        ((λ top h. let t : 1000 ≡ top = cc in omega arith), λ i h. absurd (omega arith))

abbrev attempt : Attempt ℕ
attempt = insert sized_bson (turn ∷ []) opened_file 5

abbrev file_of : Attempt ℕ → DmsFile
file_of no_page = opened_file
file_of (returns rc g out) = g

-- The object of six bytes is in the first slot of the first page.
first_id-Runs : Runs sized_bson (file_of attempt) ((record { page_id = 0; slot_id = 0 }, 5) ∷ [])
unfolding insert insert_retry take_turn insert_once insert_into update_free_space find_page
    page_to_offset upper_bound initialize size_loop init_new use_header extend_file write_blocks
    map_file map_bytes init_header extend_segment use_extension map_segment map_zeros add_segment
    add_pages init_pages init_page emeralddb_src.Dms.FreeSpace.insert load32 store32 copy
    needs_recovery lacks_space write_record place emeralddb_src.Dms.Page.count_record
first_id-Runs =
    inserts opened_file [] (turn ∷ []) 5 ok (file_of attempt) (record { page_id = 0; slot_id = 0 })
      5 opened_file-Runs turn-Behaves refl

Runs-AllFound_example :
    AllFound sized_bson (file_of attempt) ((record { page_id = 0; slot_id = 0 }, 5) ∷ [])
Runs-AllFound_example =
    Runs-AllFound sized_bson (file_of attempt) ((record { page_id = 0; slot_id = 0 }, 5) ∷ [])
      first_id-Runs
