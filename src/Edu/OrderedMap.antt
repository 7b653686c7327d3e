-- ===== src/Edu/OrderedMap.antt =====
-- std::map with unsigned keys: the entries by increasing key.
use emeralddb_src.Base.{
  ℕ, ◌+◌, ◌≤◌, ◌≡◌, refl, ◌≢◌, List, [], ◌∷◌, Option, none, some, arith, ltb, ◌==◌, if◌then◌else◌,
}

abbrev pub OrderedMap : Type 0 → Type 0
OrderedMap V = List (ℕ × V)

module _ {V : Type 0} where
  unfoldable pub find : ℕ → OrderedMap V → Option V
  find key [] = none
  find key ((k, v) ∷ rest) = if k == key then some v else find key rest

  -- map [ key ] = value
  unfoldable pub set : ℕ → V → OrderedMap V → OrderedMap V
  set key value [] = (key, value) ∷ []
  set key value ((k, v) ∷ rest) =
      if k == key
      then (key, value) ∷ rest
      else if ltb key k
      then (key, value) ∷ (k, v) ∷ rest
      else (k, v) ∷ set key value rest

  -- erase ( key )
  unfoldable pub erase : ℕ → OrderedMap V → OrderedMap V
  erase key [] = []
  erase key ((k, v) ∷ rest) = if k == key then erase key rest else (k, v) ∷ erase key rest

  pub find-set :
      (key : ℕ) (value : V) (map : OrderedMap V) → find key (set key value map) ≡ some value
  unfolding find set
  find-set key value [] = ground arith
  find-set key value ((k, v) ∷ rest) = ground (arith, find-set key value rest)

  pub find-set_ne :
      (other key : ℕ) (value : V) (map : OrderedMap V)
      → other ≢ key
      → find other (set key value map) ≡ find other map
  unfolding find set
  find-set_ne other key value [] ne = ground arith
  find-set_ne other key value ((k, v) ∷ rest) ne = ground (arith, find-set_ne other key value rest)

  pub find-erase : (key : ℕ) (map : OrderedMap V) → find key (erase key map) ≡ none
  unfolding find erase
  find-erase key [] = refl
  find-erase key ((k, v) ∷ rest) = ground (arith, find-erase key rest)

  pub find-erase_ne :
      (other key : ℕ) (map : OrderedMap V)
      → other ≢ key
      → find other (erase key map) ≡ find other map
  unfolding find erase
  find-erase_ne other key [] ne = refl
  find-erase_ne other key ((k, v) ∷ rest) ne = ground (arith, find-erase_ne other key rest)

  -- The keys increase from `lo` on.
  abbrev pub Sorted : ℕ → OrderedMap V → Type 0
  Sorted lo [] = Unit {0}
  Sorted lo ((k, v) ∷ rest) = (lo ≤ k) × Sorted (k + 1) rest

  Sorted-weaken : (lo hi : ℕ) (map : OrderedMap V) → lo ≤ hi → Sorted hi map → Sorted lo map
  Sorted-weaken lo hi [] h s = tt
  Sorted-weaken lo hi ((k, v) ∷ rest) h s = (omega (arith, s.0), s.1)

  pub set-Sorted :
      (lo key : ℕ) (value : V) (map : OrderedMap V)
      → lo ≤ key
      → Sorted lo map
      → Sorted lo (set key value map)
  unfolding set
  set-Sorted lo key value [] h s = (h, tt)
  set-Sorted lo key value ((k, v) ∷ rest) h s = ground (arith, set-Sorted (k + 1) key value rest, s)

  pub erase-Sorted : (lo key : ℕ) (map : OrderedMap V) → Sorted lo map → Sorted lo (erase key map)
  unfolding erase
  erase-Sorted lo key [] s = tt
  erase-Sorted lo key ((k, v) ∷ rest) s =
      ground
        (arith, erase-Sorted (k + 1) key rest s.1, Sorted-weaken lo (k + 1) (erase key rest), s)
