-- ===== src/AwsAuthV4/Trim/Ends.antt =====
-- `trimWhiteSpaces` removes the white space at both ends, and nothing else.
use ats_plugin_experiment.Base.{
  ℕ, suc, true, false, [], ◌∷◌, ◌++◌, Bytes, All, ◌≡◌, ◌⊎◌, inl, inr, refl, arith, ap, Bool-cases,
  Option-cases, is_space, none, some, take,
}
use ats_plugin_experiment.AwsAuthV4.Trim.{
  is_white, find_first_not_white, find_last_not_white, trim_white_spaces,
}

-- The set that is trimmed is that of `isspace`.
pub is_white_lem : (c : ℕ) → is_white c ≡ is_space c
unfolding is_white is_space
is_white_lem c = ground arith

abbrev pub IsSpace : ℕ → Type 0
IsSpace c = is_space c ≡ true

abbrev pub StartsSolid : Bytes → Type 0
StartsSolid [] = ⊥
StartsSolid (c ∷ s) = is_space c ≡ false

abbrev pub EndsSolid : Bytes → Type 0
EndsSolid [] = ⊥
EndsSolid (c ∷ []) = is_space c ≡ false
EndsSolid (c ∷ d ∷ s) = EndsSolid (d ∷ s)

-- `t` is `s` without the white space at its ends.
pub record TrimOf (s t : Bytes) : Type 0 where
  pub left : Bytes
  pub right : Bytes
  pub splits : s ≡ left ++ (t ++ right)
  pub left_white : All IsSpace left
  pub right_white : All IsSpace right
  pub solid : (t ≡ []) ⊎ (StartsSolid t × EndsSolid t)

-- Up to the last byte that is no white space.
abbrev strip_trailing : Bytes → Bytes
strip_trailing s = elim (find_last_not_white s) [ none ↦ [] | some i ↦ take (suc i) s ]

trim_space :
    (c : ℕ) (s : Bytes) → is_space c ≡ true → trim_white_spaces (c ∷ s) ≡ trim_white_spaces s
unfolding trim_white_spaces find_first_not_white find_last_not_white
trim_space c s h = ground (arith, is_white_lem c)

trim_solid :
    (c : ℕ) (s : Bytes) → is_space c ≡ false → trim_white_spaces (c ∷ s) ≡ strip_trailing (c ∷ s)
unfolding trim_white_spaces find_first_not_white find_last_not_white
trim_solid c s h = ground (arith, is_white_lem c)

-- Where `find_last_not_of` finds a byte, only white space follows it.
record LastSolid (s : Bytes) (i : ℕ) : Type 0 where
  rest : Bytes
  splits : s ≡ take (suc i) s ++ rest
  rest_white : All IsSpace rest
  ends : EndsSolid (take (suc i) s)

EndsSolid-cons : (c : ℕ) (t : Bytes) → EndsSolid t → EndsSolid (c ∷ t)
EndsSolid-cons c [] h = absurd h
EndsSolid-cons c (d ∷ t) h = h

LastSolid-cons : (c : ℕ) (s : Bytes) (i : ℕ) → LastSolid s i → LastSolid (c ∷ s) (suc i)
LastSolid-cons c s i l = record {
  rest = l.rest;
  splits = ap (◌∷◌ c) l.splits;
  rest_white = l.rest_white;
  ends = EndsSolid-cons c (take (suc i) s) l.ends;
}

find_last_not_white-none : (s : Bytes) → find_last_not_white s ≡ none → All IsSpace s
unfolding find_last_not_white
find_last_not_white-none [] h = tt
find_last_not_white-none (c ∷ s) h = elim (Option-cases (find_last_not_white s)) [
  | inl e ↦ (ground (arith, is_white_lem c), find_last_not_white-none s e)
  | inr (i, e) ↦ absurd (ground arith)
]

find_last_not_white-some : (s : Bytes) (i : ℕ) → find_last_not_white s ≡ some i → LastSolid s i
unfolding find_last_not_white
find_last_not_white-some [] i h = absurd (cc h)
find_last_not_white-some (c ∷ s) i h = elim (Option-cases (find_last_not_white s)) [
  | inl e ↦
      let (zeroth, solid) = only_head c s i h e in
      rw zeroth (record {
        rest = s;
        splits = refl;
        rest_white = find_last_not_white-none s e;
        ends = solid;
      })
  | inr (j, e) ↦
      let next : i ≡ suc j = ground arith in
      rw next (LastSolid-cons c s j (find_last_not_white-some s j e))
]
  where
    only_head :
        (c : ℕ) (s : Bytes) (i : ℕ)
        → find_last_not_white (c ∷ s) ≡ some i
        → find_last_not_white s ≡ none
        → (i ≡ 0) × (is_space c ≡ false)
    only_head c s i h e = ground (arith, is_white_lem c)

trim_solid_at :
    (c : ℕ) (s : Bytes) (i : ℕ)
    → is_space c ≡ false
    → find_last_not_white (c ∷ s) ≡ some i
    → trim_white_spaces (c ∷ s) ≡ take (suc i) (c ∷ s)
trim_solid_at c s i h e = ground (arith, trim_solid c s h)

trim_solid-TrimOf :
    (c : ℕ) (s : Bytes) → is_space c ≡ false → TrimOf (c ∷ s) (trim_white_spaces (c ∷ s))
trim_solid-TrimOf c s h = elim (Option-cases (find_last_not_white (c ∷ s))) [
  | inl e ↦ absurd (cc (h, (find_last_not_white-none (c ∷ s) e).0))
  | inr (i, e) ↦
      let l : LastSolid (c ∷ s) i = find_last_not_white-some (c ∷ s) i e in
      rw (trim_solid_at c s i h e) (record {
        left = [];
        right = l.rest;
        splits = l.splits;
        left_white = tt;
        right_white = l.rest_white;
        solid = inr (h, l.ends);
      })
]

-- `trimWhiteSpaces` returns its argument without the white space at both ends.
pub trim_white_spaces-TrimOf : (s : Bytes) → TrimOf s (trim_white_spaces s)
trim_white_spaces-TrimOf [] =
    unfold trim_white_spaces find_first_not_white in
    record {
      left = [];
      right = [];
      splits = refl;
      left_white = tt;
      right_white = tt;
      solid = inl refl;
    }
trim_white_spaces-TrimOf (c ∷ s) = elim (Bool-cases (is_space c)) [
  | inl white ↦
      let t : TrimOf s (trim_white_spaces s) = trim_white_spaces-TrimOf s in
      rw (trim_space c s white) (record {
        left = c ∷ t.left;
        right = t.right;
        splits = ap (◌∷◌ c) t.splits;
        left_white = (white, t.left_white);
        right_white = t.right_white;
        solid = t.solid;
      })
  | inr solid ↦ trim_solid-TrimOf c s solid
]
