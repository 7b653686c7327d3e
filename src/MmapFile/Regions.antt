-- ===== src/MmapFile/Regions.antt =====
-- What oss/ossMmapFile.cpp maps and unmaps over its operations.
use emeralddb_src.Base.{
  ℕ, ◌+◌, ◌%◌, ◌≡◌, refl, ap, sym, ◌∙◌, List, [], ◌∷◌, ◌++◌, map, Option, none, some, ltb, ◌==◌,
  if_cases, Option-cases, inl, inr,
}
use mathlib.Core.List.{append-nil, append_assoc}
use emeralddb_src.Core.{Rc, is_error}
use emeralddb_src.Dms.Extend.{Mapped, mapped, map_failed}
use emeralddb_src.MmapFile.{
  OpenAnswer, open_handle, Segment, MmapFile, open_mmap, close_mmap, map_mmap, region, use_mapped,
}

-- A call of the public operations, with what the system answers to it. An `open` whose answers do not suffice has
-- not returned.
pub data Call : Type 0 where
  opens : List OpenAnswer → Call
  maps : Rc × ℕ → Mapped → ℕ → ℕ → Call
  closes : Call

abbrev pub Regions : Type 0
Regions = List (ℕ × ℕ)

-- One call: what it maps, what it unmaps, and the file
unfoldable pub call : Call → MmapFile → Regions × Regions × MmapFile
call (opens answers) f = elim (open_handle answers) [
  | none ↦ ([], [], f)
  | some r ↦ ([], [], (open_mmap r f).1)
]
call (maps size answer offset length) f =
    let (rc, new, g) = map_mmap size answer offset length f in (new, [], g)
call closes f = let (old, g) = close_mmap f in ([], old, g)

-- The calls one after the other
unfoldable pub calls : List Call → MmapFile → Regions × Regions × MmapFile
calls [] f = ([], [], f)
calls (c ∷ cs) f =
    let (new, old, g) = call c f in
    let (later_new, later_old, h) = calls cs g in (new ++ later_new, old ++ later_old, h)

-- What is unmapped, and then what is held, is what was held and then what is mapped.
abbrev pub Accounts : MmapFile → Regions × Regions × MmapFile → Type 0
Accounts f (new, old, g) = old ++ map region g.segments ≡ map region f.segments ++ new

map_append : (s t : List Segment) → map region (s ++ t) ≡ map region s ++ map region t
map_append [] t = refl
map_append (x ∷ s) t = ap (◌∷◌ (region x)) (map_append s t)

keeps : (f g : MmapFile) → g.segments ≡ f.segments → Accounts f ([], [], g)
keeps f g e = ap (map region) e ∙ sym (append-nil (map region f.segments))

use_mapped-Accounts :
    (answer : Mapped) (offset length : ℕ) (f : MmapFile)
    → Accounts f (let (rc, new, g) = use_mapped answer offset length f in (new, [], g))
unfolding use_mapped
use_mapped-Accounts (mapped a) offset length f = map_append f.segments _
use_mapped-Accounts (map_failed e) offset length f = keeps f f refl

map_mmap-Accounts :
    (size : Rc × ℕ) (answer : Mapped) (offset length : ℕ) (f : MmapFile)
    → Accounts f (let (rc, new, g) = map_mmap size answer offset length f in (new, [], g))
unfolding map_mmap
map_mmap-Accounts (size_rc, file_size) answer offset length f =
    let P : Rc × Regions × MmapFile → Type 0 = λ r. Accounts f (r.1, [], r.2) in
    if_cases P (length == 0) _ _ (λ e. keeps f f refl)
      λ e.
        if_cases P (is_error size_rc) _ _ (λ e. keeps f f refl)
          λ e.
            if_cases P (ltb file_size ((offset + length) % 18446744073709551616)) _ _
              (λ e. keeps f f refl) λ e. use_mapped-Accounts answer offset length f

close_mmap-Accounts : (f : MmapFile) → Accounts f (let (old, g) = close_mmap f in ([], old, g))
unfolding close_mmap
close_mmap-Accounts f =
    let P : Regions × MmapFile → Type 0 = λ r. Accounts f ([], r.0, r.1) in
    if_cases P f.is_opened _ _ (λ e. refl) (λ e. refl)

open_mmap-Accounts : (r : Rc × Option ℕ) (f : MmapFile) → Accounts f ([], [], (open_mmap r f).1)
unfolding open_mmap
open_mmap-Accounts (rc, h) f =
    let P : Rc × MmapFile → Type 0 = λ r. Accounts f ([], [], r.1) in
    let same = sym (append-nil (map region f.segments)) in
    if_cases P (is_error rc) _ _ (λ e. same) (λ e. same)

call-Accounts : (c : Call) (f : MmapFile) → Accounts f (call c f)
unfolding call
call-Accounts (opens answers) f = elim (Option-cases (open_handle answers)) [
  | inl n ↦ rw (n, call) (keeps f f refl)
  | inr (r, e) ↦ rw (e, call) (open_mmap-Accounts r f)
]
call-Accounts (maps size answer offset length) f = map_mmap-Accounts size answer offset length f
call-Accounts closes f = close_mmap-Accounts f

-- Whatever open, map and close are called on a file, and whatever the system answers: what close
-- has unmapped, followed by what is held at the end, is what was held at the start followed by what
-- map has mapped, each part once and in their order.
pub calls-Accounts : (cs : List Call) (f : MmapFile) → Accounts f (calls cs f)
unfolding calls
calls-Accounts [] f = keeps f f refl
calls-Accounts (c ∷ cs) f =
    let r = call c f in
    let later = calls cs r.2 in
    append_assoc r.1 later.1 (map region later.2.segments)
    ∙ ap (λ s. r.1 ++ s) (calls-Accounts cs r.2)
    ∙ sym (append_assoc r.1 (map region r.2.segments) later.0)
    ∙ ap (λ s. s ++ later.0) (call-Accounts c f)
    ∙ append_assoc (map region f.segments) r.0 later.0
