-- ===== src/Dms/FreeSpace/Index.antt =====
-- The free-space map of dms/dms.cpp as an index: one entry for each page, under its free space.
use emeralddb_src.Base.{
  ℕ, ◌+◌, ◌≤◌, ◌<◌, ◌≡◌, refl, ap, sym, ◌∙◌, ◌≢◌, inl, inr, [], ◌∷◌, none, some, arith, ◌==◌,
  if◌then◌else◌, length, Bool-cases,
}
use emeralddb_src.Dms.FreeSpace.{FreeSpaceMap, insert, erase, upper_bound}

-- Each entry is a page below `n` under its free space.
abbrev pub Entries : (ℕ → ℕ) → ℕ → FreeSpaceMap → Type 0
Entries space n [] = Unit {0}
Entries space n ((s, p) ∷ rest) = (p < n) × (s ≡ space p) × Entries space n rest

abbrev pub count : ℕ → FreeSpaceMap → ℕ
count page [] = 0
count page ((s, p) ∷ rest) = (if p == page then 1 else 0) + count page rest

pub record IsIndex (space : ℕ → ℕ) (n : ℕ) (map : FreeSpaceMap) : Type 0 where
  pub sound : Entries space n map
  pub once : (p : ℕ) → p < n → count p map ≡ 1
  pub size : length map ≡ n

pub count-insert :
    (q s p : ℕ) (map : FreeSpaceMap)
    → count q (insert s p map) ≡ (if p == q then 1 else 0) + count q map
unfolding insert
count-insert q s p [] = refl
count-insert q s p ((t, r) ∷ rest) = ground (arith, count-insert q s p rest)

pub length-insert : (s p : ℕ) (map : FreeSpaceMap) → length (insert s p map) ≡ length map + 1
unfolding insert
length-insert s p [] = omega arith
length-insert s p ((t, r) ∷ rest) = ground (arith, length-insert s p rest)

pub insert-Entries :
    (space : ℕ → ℕ) (n s p : ℕ) (map : FreeSpaceMap)
    → p < n
    → s ≡ space p
    → Entries space n map
    → Entries space n (insert s p map)
unfolding insert
insert-Entries space n s p [] b e h = (b, e, tt)
insert-Entries space n s p ((t, r) ∷ rest) b e h =
    ground (arith, insert-Entries space n s p rest b e h.2)

erase-Entries :
    (space : ℕ → ℕ) (n s p : ℕ) (map : FreeSpaceMap)
    → Entries space n map
    → Entries space n (erase s p map)
unfolding erase
erase-Entries space n s p [] h = h
erase-Entries space n s p ((t, r) ∷ rest) h = ground (arith, erase-Entries space n s p rest h.2)

-- The entry of a page stands under its free space, so that is where it is erased.
count-erase :
    (space : ℕ → ℕ) (n q p : ℕ) (map : FreeSpaceMap)
    → Entries space n map
    → count p map ≢ 0
    → (if p == q then 1 else 0) + count q (erase (space p) p map) ≡ count q map
unfolding erase
count-erase space n q p [] h c = absurd (c refl)
count-erase space n q p ((t, r) ∷ rest) h c = elim (Bool-cases (r == p)) [
  | inl here ↦ let same : space r ≡ space p = ap space (ground arith) in ground (arith, same)
  | inr there ↦ ground (arith, count-erase space n q p rest h.2)
]

length-erase :
    (space : ℕ → ℕ) (n p : ℕ) (map : FreeSpaceMap)
    → Entries space n map
    → count p map ≢ 0
    → length (erase (space p) p map) + 1 ≡ length map
unfolding erase
length-erase space n p [] h c = absurd (c refl)
length-erase space n p ((t, r) ∷ rest) h c = elim (Bool-cases (r == p)) [
  | inl here ↦ let same : space r ≡ space p = ap space (ground arith) in ground (arith, same)
  | inr there ↦ ground (arith, length-erase space n p rest h.2)
]

-- Entries of `n` pages are entries of more pages.
pub Entries-wider :
    (space space' : ℕ → ℕ) (n n' : ℕ) (map : FreeSpaceMap)
    → n ≤ n'
    → ((q : ℕ) → q < n → space' q ≡ space q)
    → Entries space n map
    → Entries space' n' map
Entries-wider space space' n n' [] h e s = s
Entries-wider space space' n n' ((t, p) ∷ rest) h e s =
    (omega (arith, s.0), s.1 ∙ sym (e p s.0), Entries-wider space space' n n' rest h e s.2)

pub count_beyond :
    (space : ℕ → ℕ) (n q : ℕ) (map : FreeSpaceMap) → Entries space n map → n ≤ q → count q map ≡ 0
count_beyond space n q [] s h = refl
count_beyond space n q ((t, p) ∷ rest) s h = ground (arith, s.0, count_beyond space n q rest s.2)

-- A page entered under its free space, behind those there were.
pub insert_next-IsIndex :
    (space : ℕ → ℕ) (n s : ℕ) (map : FreeSpaceMap)
    → s ≡ space n
    → IsIndex space n map
    → IsIndex space (n + 1) (insert s n map)
insert_next-IsIndex space n s map e i = record {
  sound =
      insert-Entries space (n + 1) s n map (omega arith) e
        (Entries-wider space space n (n + 1) map (omega arith) (λ q h. refl) i.sound);
  once =
      λ q h. ground (arith, count-insert q s n map, i.once q, count_beyond space n q map i.sound);
  size = omega (arith, length-insert s n map, i.size);
}

-- A change of the free space of a page that is not entered.
Entries-change :
    (space space' : ℕ → ℕ) (n p : ℕ) (map : FreeSpaceMap)
    → ((q : ℕ) → q < n → q ≢ p → space' q ≡ space q)
    → count p map ≡ 0
    → Entries space n map
    → Entries space' n map
Entries-change space space' n p [] e c h = h
Entries-change space space' n p ((t, r) ∷ rest) e c h =
    ground (arith, e r, Entries-change space space' n p rest e)

-- Where the free space of page `p` alone changes, erasing its entry under the old free space and inserting
-- it under the new one keeps the map an index of the pages.
pub update-IsIndex :
    (space space' : ℕ → ℕ) (n p : ℕ) (map : FreeSpaceMap)
    → p < n
    → ((q : ℕ) → q < n → q ≢ p → space' q ≡ space q)
    → IsIndex space n map
    → IsIndex space' n (insert (space' p) p (erase (space p) p map))
update-IsIndex space space' n p map b e i =
    let entered : count p map ≢ 0 = omega (arith, i.once p b) in
    let rest = erase (space p) p map in
    let left = count-erase space n p p map i.sound entered in
    record {
      sound = insert-Entries space' n (space' p) p rest b refl (
          Entries-change space space' n p rest e (ground (arith, left, i.once p b))
            (erase-Entries space n (space p) p map i.sound));
      once = λ q h.
          count-insert q (space' p) p rest
          ∙ count-erase space n q p map i.sound entered
          ∙ i.once q h;
      size = omega (
        arith,
        length-insert (space' p) p rest,
        length-erase space n p map i.sound entered,
        i.size,
      );
    }

-- What `upper_bound` finds is a page with more free space than asked for.
pub upper_bound-some :
    (space : ℕ → ℕ) (n r s p : ℕ) (map : FreeSpaceMap)
    → Entries space n map
    → upper_bound r map ≡ some (s, p)
    → (r < s) × (p < n) × (s ≡ space p)
unfolding upper_bound
upper_bound-some space n r s p [] h e = cc
upper_bound-some space n r s p ((t, q) ∷ rest) h e =
    ground (arith, upper_bound-some space n r s p rest h.2)

-- It finds none only if no page entered has more free space than asked for.
pub upper_bound-none :
    (space : ℕ → ℕ) (n r p : ℕ) (map : FreeSpaceMap)
    → Entries space n map
    → upper_bound r map ≡ none
    → count p map ≢ 0
    → space p ≤ r
unfolding upper_bound
upper_bound-none space n r p [] h e c = absurd (c refl)
upper_bound-none space n r p ((t, q) ∷ rest) h e c = elim (Bool-cases (q == p)) [
  | inl here ↦ let same : space q ≡ space p = ap space (ground arith) in ground (arith, same)
  | inr there ↦ ground (arith, upper_bound-none space n r p rest h.2)
]

-- An index stays one when no free space changes.
pub IsIndex-same :
    (space space' : ℕ → ℕ) (n : ℕ) (map : FreeSpaceMap)
    → ((q : ℕ) → q < n → space' q ≡ space q)
    → IsIndex space n map
    → IsIndex space' n map
IsIndex-same space space' n map e i = record {
  sound = same map i.sound;
  once = i.once;
  size = i.size;
}
  where
    same : (map : FreeSpaceMap) → Entries space n map → Entries space' n map
    same [] h = h
    same ((t, r) ∷ rest) h = (h.0, h.1 ∙ sym (e r h.0), same rest h.2)
