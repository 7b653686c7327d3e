-- ===== src/Tests/Reopened.antt =====
-- A file of one segment with its header, and the record store opened on it once more.
use emeralddb_src.Base.{
  ℕ, ◌+◌, ◌-◌, ◌<◌, ◌≡◌, refl, ap, inl, [], ◌∷◌, some, true, false, arith, ltb, if◌then◌else◌,
}
use emeralddb_src.Core.{ok}
use emeralddb_src.Memory.{Mem, Agree, load32-store32, store32, store32_frame}
use emeralddb_src.Dms.Layout.{page_size}
use emeralddb_src.Dms.FreeSpace.Index.{IsIndex-same}
use emeralddb_src.Dms.File.{DmsFile}
use emeralddb_src.Dms.File.Invariant.{IsFile, IsPage-Agree, word_agree, page_address, space_of}
use emeralddb_src.Dms.Extend.{Os, whole, mapped}
use emeralddb_src.Dms.Open.{Opening, initialize, new_file}
use emeralddb_src.Dms.Open.Reopen.{IsSaved, Restored, initialize-Restored}
use emeralddb_src.Tests.Blank.{blank, address, blank_file, blank_file-IsFile}

-- The segment is mapped at 0, and the header at 200000000.
abbrev memory : Mem
memory = store32 blank 200000004 32

abbrev saved_file : DmsFile
saved_file = record blank_file { mem = memory; header = some 200000000 }

abbrev disk : ℕ → ℕ
disk k = if ltb k 65536 then memory (200000000 + k) else memory (k - 65536)

module _ (p : ℕ) (h : p < 32) where
  same_page : Agree blank memory (page_address (0 ∷ []) p) (page_address (0 ∷ []) p + page_size)
  same_page x a b = store32_frame blank 200000004 32 x (inl (omega (arith, address p h)))

  same_space : space_of memory (0 ∷ []) p ≡ space_of blank (0 ∷ []) p
  same_space = word_agree blank memory (page_address (0 ∷ []) p) same_page 20 (omega arith)

saved_file-IsFile : IsFile saved_file
saved_file-IsFile = record {
  pages = λ p h.
      IsPage-Agree blank memory (page_address (0 ∷ []) p) (same_page p h)
        (blank_file-IsFile.pages p h);
  apart = blank_file-IsFile.apart;
  index =
      IsIndex-same (space_of blank (0 ∷ [])) (space_of memory (0 ∷ [])) 32 _ same_space
        blank_file-IsFile.index;
}

saved : IsSaved saved_file disk 200000000 0
saved = record {
  header = refl;
  one = refl;
  count = load32-store32 blank 200000004 32 (omega arith);
  header_saved = λ k h. ground arith;
  segment_saved = λ k h.
      let past : ltb (65536 + k) 65536 ≡ false = ground arith in rw past (ap memory (omega arith));
}

abbrev answers_at : ℕ → Os
answers_at a = record { size_before = ok; writes = λ i. whole; size_for_map = ok; mmap = mapped a }

-- The header is now mapped at 1000, and the segment at 200000.
abbrev opening : Opening
opening = record {
  name_copied = true;
  opened = ok;
  init_os = answers_at 1000;
  header_os = answers_at 1000;
  segment_os = λ i. answers_at 200000;
}

initialize-Restored_example :
    Restored saved_file (initialize opening disk (ok ∷ []) (new_file (λ x. 0) 134283264))
initialize-Restored_example =
    initialize-Restored saved_file disk 200000000 0 saved_file-IsFile saved opening 1000 200000
      (refl, refl) (refl, refl) (inl (omega arith)) (λ x. 0) 134283264 (omega arith) ok [] refl refl
      refl
