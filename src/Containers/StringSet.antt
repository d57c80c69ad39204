-- ===== src/Containers/StringSet.antt =====
-- `StringSet`: a list in ascending order without repetition, so a loop over it visits its
-- elements in the order of `std::set`.
use ats_plugin_experiment.Base.{
  Bytes, bytes_eq, bytes_lt, bytes_eq_iff, bytes_lt_total, bytes_lt_irrefl, bytes_lt_trans, Bool,
  true, false, ◌||◌, List, [], ◌∷◌, if◌then◌else◌, ◌≡◌, refl, arith, inl, inr, Bool-cases,
}

abbrev pub StringSet : Type 0
StringSet = List Bytes

-- `find(k) != end()`
unfoldable pub contains : StringSet → Bytes → Bool
contains [] k = false
contains (x ∷ xs) k = bytes_eq x k || contains xs k

-- `insert(k)`
unfoldable pub insert : Bytes → StringSet → StringSet
insert k [] = k ∷ []
insert k (x ∷ xs) =
    if bytes_eq x k then x ∷ xs else if bytes_lt k x then k ∷ x ∷ xs else x ∷ insert k xs

abbrev pub IsAbove : Bytes → StringSet → Type 0
IsAbove k [] = Unit
IsAbove k (x ∷ xs) = bytes_lt k x ≡ true

abbrev pub IsSorted : StringSet → Type 0
IsSorted [] = Unit
IsSorted (x ∷ xs) = IsAbove x xs × IsSorted xs

insert-IsAbove :
    (j k : Bytes) (s : StringSet) → bytes_lt j k ≡ true → IsAbove j s → IsAbove j (insert k s)
unfolding insert
insert-IsAbove j k [] h a = h
insert-IsAbove j k (x ∷ xs) h a = ground arith

pub insert-IsSorted : (k : Bytes) (s : StringSet) → IsSorted s → IsSorted (insert k s)
unfolding insert
insert-IsSorted k [] h = (tt, tt)
insert-IsSorted k (x ∷ xs) (a, h) = elim (Bool-cases (bytes_eq x k)) [
  | inl same ↦ rw same (a, h)
  | inr other ↦ rw other (elim (Bool-cases (bytes_lt k x)) [
    | inl less ↦ rw less (less, (a, h))
    | inr more ↦ rw more (
      insert-IsAbove x k xs
          (bytes_lt_total k x (ground (arith, bytes_eq_iff k x, bytes_eq_iff x k)) more) a,
      insert-IsSorted k xs h,
    )
  ])
]

pub contains-insert :
    (k j : Bytes) (s : StringSet) → contains (insert k s) j ≡ (bytes_eq k j || contains s j)
unfolding contains insert
contains-insert k j [] = refl
contains-insert k j (x ∷ xs) =
    ground (arith, contains-insert k j xs, bytes_eq_iff x k, bytes_eq_iff x j, bytes_eq_iff k j)

-- Nothing below the least element is in the set.
pub not-contains-IsAbove :
    (k : Bytes) (s : StringSet) → IsSorted s → IsAbove k s → contains s k ≡ false
unfolding contains
not-contains-IsAbove k [] h a = refl
not-contains-IsAbove k (x ∷ []) h a = ground (arith, bytes_lt_irrefl k, bytes_eq_iff x k)
not-contains-IsAbove k (x ∷ y ∷ s) (xy, h) a = ground (
  arith,
  bytes_lt_irrefl k,
  bytes_eq_iff x k,
  bytes_lt_trans k x y a xy,
  not-contains-IsAbove k (y ∷ s) h,
)
