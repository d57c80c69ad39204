-- ===== src/ObjStoreAuth/S3Request/SetHeader.antt =====
-- What `set_header` does to the fields of one name.
use ats_plugin_experiment.Base.{
  ℕ, zero, suc, ◌<◌, false, ◌||◌, Option, none, some, List, [], ◌∷◌, Bytes, is_empty, length, All,
  ◌≡◌, ◌≢◌, ◌∙◌, refl, sym, ap, arith,
}
use ats_plugin_experiment.ObjStoreAuth.S3Request.{
  Mime, destroy_dups, with_result, set_found, set_header,
}

some-injective : {L : Type 0} (l m : L) → some l ≡ some m → l ≡ m
some-injective l m e = cc e

module _ {H L : Type 0} (mime : Mime H L) where
  open mime use {field_find, value_string_set, field_next_dup, field_destroy}

  -- `locs` are the fields of the same name, in order, from the one that `loc` stands for.
  abbrev pub AreDups : H → Option L → List L → Type 0
  AreDups h loc [] = loc ≡ none
  AreDups h loc (l ∷ locs) = (loc ≡ some l) × AreDups h (field_next_dup h l) locs

  -- Setting a field leaves the order of the fields. Destroying one leaves the successors of the
  -- others, but for its predecessor, whose next field of the name it was.
  pub record KeepsOrder : Type 0 where
    pub next_dup-set :
        (h : H) (l m : L) (val : Bytes)
        → field_next_dup (value_string_set h l val).0 m ≡ field_next_dup h m
    pub next_dup-destroy :
        (h : H) (l m : L)
        → l ≢ m
        → field_next_dup h m ≢ some l
        → field_next_dup (field_destroy h l) m ≡ field_next_dup h m

  abbrev pub AreDistinct : List L → Type 0
  AreDistinct [] = Unit
  AreDistinct (l ∷ locs) = All (λ m. l ≢ m) locs × AreDistinct locs

  abbrev pub destroy_all : H → List L → H
  destroy_all h [] = h
  destroy_all h (l ∷ locs) = destroy_all (field_destroy h l) locs

  -- None of the fields has a field before it as its next one.
  never_back :
      (h : H) (l : L) (loc : Option L) (locs : List L)
      → All (λ m. l ≢ m) locs
      → AreDups h loc locs
      → loc ≢ some l
  never_back h l loc [] n d = λ e. cc (d, e)
  never_back h l loc (m ∷ locs) (nm, n) (at, d) = λ e. nm (some-injective l m (sym e ∙ at))

  AreDups-destroy :
      (keeps : KeepsOrder) (h : H) (l : L) (loc : Option L) (locs : List L)
      → All (λ m. l ≢ m) locs
      → AreDups h loc locs
      → AreDups (field_destroy h l) loc locs
  AreDups-destroy keeps h l loc [] n d = d
  AreDups-destroy keeps h l loc (m ∷ locs) (nm, n) (e, d) = (
    e,
    AreDups-destroy keeps h l (field_next_dup (field_destroy h l) m) locs n
        (rw (keeps.next_dup-destroy h l m nm (never_back h l (field_next_dup h m) locs n d)) d),
  )

  AreDups-set :
      (keeps : KeepsOrder) (h : H) (l : L) (val : Bytes) (loc : Option L) (locs : List L)
      → AreDups h loc locs
      → AreDups (value_string_set h l val).0 loc locs
  AreDups-set keeps h l val loc [] d = d
  AreDups-set keeps h l val loc (m ∷ locs) (e, d) = (
    e,
    AreDups-set keeps h l val (field_next_dup (value_string_set h l val).0 m) locs
        (rw (keeps.next_dup-set h l m val) d),
  )

  destroy_dups_lem :
      (keeps : KeepsOrder) (rounds : ℕ) (h : H) (loc : Option L) (locs : List L)
      → AreDups h loc locs
      → AreDistinct locs
      → length locs < rounds
      → destroy_dups mime rounds h loc ≡ some (destroy_all h locs)
  unfolding destroy_dups
  destroy_dups_lem keeps zero h loc locs d n r = absurd (omega (arith, r))
  destroy_dups_lem keeps (suc rounds) h loc [] d n r = rw d refl
  destroy_dups_lem keeps (suc rounds) h loc (l ∷ locs) (e, d) (nl, n) r = rw e (
      destroy_dups_lem keeps rounds (field_destroy h l) (field_next_dup h l) locs
        (AreDups-destroy keeps h l (field_next_dup h l) locs nl d) n (omega (arith, r)))

  set_found_lem :
      (keeps : KeepsOrder) (rounds : ℕ) (h : H) (loc : L) (locs : List L) (val : Bytes)
      → AreDups h (field_next_dup h loc) locs
      → AreDistinct locs
      → length locs < rounds
      → set_found mime rounds h loc val
        ≡ some (destroy_all (value_string_set h loc val).0 locs, (value_string_set h loc val).1)
  unfolding set_found
  set_found_lem keeps rounds h loc locs val d n r =
      let set = value_string_set h loc val in
      ap (with_result mime set.1) (
        destroy_dups_lem keeps rounds set.0 (field_next_dup h loc) locs
          (AreDups-set keeps h loc val (field_next_dup h loc) locs d) n r)

  -- Where the header has fields of the name, the first gets the value and the others are destroyed,
  -- in order, and the result is that of setting the first. The name and the value are not empty, the
  -- fields differ, the rounds are more than the other fields, and the calls on the fields are those of
  -- a list: setting a field leaves the order, and destroying one leaves the next ones of all other
  -- fields but its predecessor.
  pub set_header-found :
      (keeps : KeepsOrder) (rounds : ℕ) (header val : Bytes) (h : H) (loc : L) (locs : List L)
      → (is_empty header || is_empty val) ≡ false
      → field_find h header ≡ some loc
      → AreDups h (field_next_dup h loc) locs
      → AreDistinct locs
      → length locs < rounds
      → set_header mime rounds header val h
        ≡ some (destroy_all (value_string_set h loc val).0 locs, (value_string_set h loc val).1)
  unfolding set_header
  set_header-found keeps rounds header val h loc locs ne f d n r =
      rw (ne, f, set_found_lem keeps rounds h loc locs val d n r) refl
