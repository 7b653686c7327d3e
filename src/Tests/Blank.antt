-- ===== src/Tests/Blank.antt =====
-- A file of one segment whose pages are empty.
use emeralddb_src.Base.{
  ℕ, ◌+◌, ◌*◌, ◌%◌, ◌<◌, ◌≡◌, refl, sym, ap, ◌∙◌, ◌/◌, List, [], ◌∷◌, none, true, arith, get_or,
}
use emeralddb_src.Memory.{Mem, load32, load32_shift}
use emeralddb_src.Dms.Layout.{
  page_size, num_slots, slot_offset, free_space, free_offset, has_eye_catcher,
}
use emeralddb_src.Dms.Page.Invariant.{IsPage}
use emeralddb_src.Dms.Extend.{add_pages}
use emeralddb_src.Dms.Extend.Index.{add_pages-IsIndex}
use emeralddb_src.Dms.File.{DmsFile}
use emeralddb_src.Dms.File.Invariant.{IsFile, page_address, space_of, AreApart}

abbrev header_bytes : List ℕ
header_bytes =
    80 ∷ 65 ∷ 71 ∷ 72 ∷ 0 ∷ 0 ∷ 64 ∷ 0 ∷ 0 ∷ 0 ∷ 0 ∷ 0 ∷ 0 ∷ 0 ∷ 0 ∷ 0 ∷ 28 ∷ 0 ∷ 0 ∷ 0 ∷ 228 ∷ 255
    ∷ 63 ∷ 0 ∷ 0 ∷ 0 ∷ 64 ∷ 0 ∷ []

abbrev page_bytes : Mem
page_bytes k = get_or header_bytes k 0

abbrev pub blank : Mem
blank x = page_bytes (x % page_size)

abbrev pub blank_file : DmsFile
blank_file = record {
  mem = blank;
  header = none;
  body = 0 ∷ [];
  free_space_map = add_pages [] 0 32;
  file_size = 134283264;
}

zero_add : (k : ℕ) → 0 + k ≡ k
zero_add k = omega arith

add_zero : (k : ℕ) → k + 0 ≡ k
add_zero k = omega arith

module _ (p : ℕ) (h : p < 32) where
  pub address : page_address (0 ∷ []) p ≡ page_size * p
  address =
      let e : p / 32 ≡ 0 = omega arith in
      ap (λ k. get_or (0 ∷ []) k 0 + page_size * (p % 32)) e ∙ omega arith

  blank_byte : (k : ℕ) → k < 28 → blank (page_address (0 ∷ []) p + k) ≡ page_bytes k
  blank_byte k l =
      let e : (page_address (0 ∷ []) p + k) % page_size ≡ k = omega (arith, address) in
      ap page_bytes e

  blank_word : (k : ℕ) → k < 25 → load32 blank (page_address (0 ∷ []) p + k) ≡ load32 page_bytes k
  blank_word k b =
      load32_shift page_bytes blank 0 (page_address (0 ∷ []) p) 28 k (page_address (0 ∷ []) p + k) k
        (λ j l. blank_byte j l ∙ ap page_bytes (sym (zero_add j))) (omega arith) refl (omega arith)

  -- The words of the header.
  pub words :
      (num_slots blank (page_address (0 ∷ []) p) ≡ 0)
      × (slot_offset blank (page_address (0 ∷ []) p) ≡ 28)
      × (free_space blank (page_address (0 ∷ []) p) ≡ 4194276)
      × (free_offset blank (page_address (0 ∷ []) p) ≡ 4194304)
  unfolding load32
  words = (
    blank_word 12 (omega arith) ∙ omega arith,
    blank_word 16 (omega arith) ∙ omega arith,
    blank_word 20 (omega arith) ∙ omega arith,
    blank_word 24 (omega arith) ∙ omega arith,
  )

  eye : has_eye_catcher blank (page_address (0 ∷ []) p) ≡ true
  eye =
      let b0 : blank (page_address (0 ∷ []) p) ≡ 80 =
        ap blank (sym (add_zero (page_address (0 ∷ []) p))) ∙ blank_byte 0 (omega arith) in
      rw (b0, blank_byte 1 (omega arith), blank_byte 2 (omega arith), blank_byte 3 (omega arith))
        refl

  blank-IsPage : IsPage blank (page_address (0 ∷ []) p)
  blank-IsPage = record {
    eye_catcher = eye;
    slots_end = omega (arith, words);
    room = omega (arith, words);
    stacked = rw words.0 words.3;
    space = rw words.0 (omega (arith, words));
  }

apart : AreApart (0 ∷ [])
apart i j a b ne = absurd (ne (omega arith))

-- The file is well-formed.
pub blank_file-IsFile : IsFile blank_file
blank_file-IsFile = record {
  pages = λ p h. blank-IsPage p h;
  apart = apart;
  index =
      add_pages-IsIndex (λ q. 0) (space_of blank (0 ∷ [])) [] 0 32
        (record { sound = tt; once = λ p h. absurd (omega (arith, h)); size = refl })
        (λ q h. absurd (omega (arith, h))) (λ q a b. (words q b).2);
}
