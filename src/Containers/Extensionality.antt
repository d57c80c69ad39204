-- ===== src/Containers/Extensionality.antt =====
-- What is in a set determines it.
use ats_plugin_experiment.Base.{
  Bytes, bytes_lt, bytes_eq_iff, bytes_eq_refl, bytes_lt_total, true, false, [], ◌∷◌, ◌≡◌, refl,
  sym, arith, inl, inr, Bool-cases,
}
use ats_plugin_experiment.Containers.StringSet.{StringSet, contains, IsSorted, not-contains-IsAbove}

abbrev SameElements : StringSet → StringSet → Type 0
SameElements s t = (k : Bytes) → contains s k ≡ contains t k

contains_head : (x : Bytes) (s : StringSet) → contains (x ∷ s) x ≡ true
unfolding contains
contains_head x s = rw bytes_eq_refl

-- The head of one list is not below the head of the other.
not_below :
    (x y : Bytes) (s t : StringSet)
    → IsSorted (y ∷ t)
    → SameElements (x ∷ s) (y ∷ t)
    → bytes_lt x y ≡ false
not_below x y s t ht same = elim (Bool-cases (bytes_lt x y)) [
  | inl less ↦ absurd (cc (same x, contains_head x s, not-contains-IsAbove x (y ∷ t) ht less))
  | inr more ↦ more
]

head_eq :
    (x y : Bytes) (s t : StringSet)
    → IsSorted (x ∷ s)
    → IsSorted (y ∷ t)
    → SameElements (x ∷ s) (y ∷ t)
    → x ≡ y
head_eq x y s t hs ht same = ground (
  arith,
  bytes_eq_iff x y,
  bytes_lt_total x y,
  not_below x y s t ht same,
  not_below y x t s hs (λ k. sym (same k)),
)

tail_same :
    (x y : Bytes) (s t : StringSet)
    → x ≡ y
    → IsSorted (x ∷ s)
    → IsSorted (y ∷ t)
    → SameElements (x ∷ s) (y ∷ t)
    → SameElements s t
unfolding contains
tail_same x y s t e hs ht same k = ground (
  arith,
  same k,
  bytes_eq_iff x k,
  bytes_eq_iff y k,
  not-contains-IsAbove x s hs.1 hs.0,
  not-contains-IsAbove y t ht.1 ht.0,
)

pub IsSorted-ext : (s t : StringSet) → IsSorted s → IsSorted t → SameElements s t → s ≡ t
IsSorted-ext [] [] hs ht same = refl
IsSorted-ext [] (y ∷ t) hs ht same = absurd (unfold contains in cc (same y, contains_head y t))
IsSorted-ext (x ∷ s) [] hs ht same = absurd (unfold contains in cc (same x, contains_head x s))
IsSorted-ext (x ∷ s) (y ∷ t) hs ht same =
    let e : x ≡ y = head_eq x y s t hs ht same in
    cc (e, IsSorted-ext s t hs.1 ht.1 (tail_same x y s t e hs ht same))
