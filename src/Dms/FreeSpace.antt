-- ===== src/Dms/FreeSpace.antt =====
-- `_freeSpaceMap`, a std::multimap from free space to page: entries by increasing key, those of one
-- key in the order of their insertion.
pub mod Index
use emeralddb_src.Base.{ℕ, Bool, ◌&&◌, List, [], ◌∷◌, Option, none, some, ltb, ◌==◌, if◌then◌else◌}

abbrev pub FreeSpaceMap : Type 0
FreeSpaceMap = List (ℕ × ℕ)

-- insert (pair (space, page))
unfoldable pub insert : ℕ → ℕ → FreeSpaceMap → FreeSpaceMap
insert space page [] = (space, page) ∷ []
insert space page ((s, p) ∷ rest) =
    if ltb space s then (space, page) ∷ (s, p) ∷ rest else (s, p) ∷ insert space page rest

-- The loop over equal_range (space) that erases the first entry of `page`.
unfoldable pub erase : ℕ → ℕ → FreeSpaceMap → FreeSpaceMap
erase space page [] = []
erase space page ((s, p) ∷ rest) =
    if s == space && p == page then rest else (s, p) ∷ erase space page rest

-- upper_bound (space): the first entry with a greater key.
unfoldable pub upper_bound : ℕ → FreeSpaceMap → Option (ℕ × ℕ)
upper_bound space [] = none
upper_bound space ((s, p) ∷ rest) = if ltb space s then some (s, p) else upper_bound space rest
