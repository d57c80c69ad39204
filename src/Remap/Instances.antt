-- ===== src/Remap/Instances.antt =====
-- What becomes of the instances of src/remap/remap.cc while Traffic Server creates and deletes them.
use mathlib.Core.Path.{subst}
use ats_plugin_experiment.Base.{
  ℕ, suc, ◌≤◌, ◌<◌, true, false, ◌==◌, ltb, take, Option, none, some, List, [], ◌∷◌, length, ◌≡◌,
  ◌∙◌, ap, inl, inr, refl, arith, Bool-cases, Bytes,
}
use ats_plugin_experiment.Remap.{Entry, Plugin, Buffer, Host, success}
use ats_plugin_experiment.Remap.Entries.{
  Entries, set_next, set_entry, with_next, new_entry, add_to_list, remove_from_list, release,
  remap_new_instance, remap_delete_instance, unlink,
}
use ats_plugin_experiment.Remap.Chain.{
  IsChain, IsApart, AreApart, is_listed, erase, set_next-IsChain, set_entry-IsChain,
}
use ats_plugin_experiment.Remap.Skip.{argv_of, unlink-IsChain, listed_entry}

-- The plugin is initialised, its list links these instances, all different, and there are no others.
pub record IsRegistry (s : Plugin) (ps : List ℕ) : Type 0 where
  pub ready : (s.plugin_init_counter == 0) ≡ false
  pub chain : IsChain s.entries s.active_list ps
  pub apart : AreApart ps
  pub only : (q : ℕ) → IsApart q ps → s.entries q ≡ none

argv_of-none : (o : Option Entry) → argv_of o ≡ none → o ≡ none
argv_of-none none h = refl
argv_of-none (some e) h = absurd (cc h)

erase-IsApart : (q re : ℕ) (ps : List ℕ) → IsApart q ps → IsApart q (erase re ps)
erase-IsApart q re [] away = tt
erase-IsApart q re (p ∷ ps) (apart, away) = elim (Bool-cases (p == re)) [
  | inl b ↦ rw b away
  | inr b ↦ rw b (apart, erase-IsApart q re ps away)
]

erase-AreApart : (re : ℕ) (ps : List ℕ) → AreApart ps → AreApart (erase re ps)
erase-AreApart re [] apart = tt
erase-AreApart re (p ∷ ps) (away, apart) = elim (Bool-cases (p == re)) [
  | inl b ↦ rw b apart
  | inr b ↦ rw b (erase-IsApart p re ps away, erase-AreApart re ps apart)
]

erased-IsApart : (re : ℕ) (ps : List ℕ) → AreApart ps → IsApart re (erase re ps)
erased-IsApart re [] apart = tt
erased-IsApart re (p ∷ ps) (away, apart) = elim (Bool-cases (p == re)) [
  | inl b ↦ rw b (subst (λ a. IsApart a ps) (ground (arith, b)) away)
  | inr b ↦ rw b (ground (arith, b), erased-IsApart re ps apart)
]

-- What is apart from the rest of the list is `re` or apart from the list.
IsApart-of_erase :
    (q re : ℕ) (ps : List ℕ) → (re == q) ≡ false → IsApart q (erase re ps) → IsApart q ps
IsApart-of_erase q re [] h away = tt
IsApart-of_erase q re (p ∷ ps) h away = elim (Bool-cases (p == re)) [
  | inl b ↦ (ground (arith, h, b), rw b at away)
  | inr b ↦ let (here, later) = rw b at away in (here, IsApart-of_erase q re ps h later)
]

IsApart-of_none :
    (q : ℕ) (l : Option ℕ) (ps : List ℕ) (entries : Entries)
    → entries q ≡ none
    → IsChain entries l ps
    → IsApart q ps
IsApart-of_none q l [] entries h c = tt
IsApart-of_none q l (p ∷ ps) entries h (at, e, held, c) = elim (Bool-cases (q == p)) [
  | inl b ↦ let same : q ≡ p = ground (arith, b) in absurd (cc (h, held, ap entries same))
  | inr b ↦ (b, IsApart-of_none q e.next ps entries h c)
]

remove_from_list_lem :
    (n re : ℕ) (s : Plugin)
    → (s.plugin_init_counter == 0) ≡ false
    → remove_from_list n (some re) s ≡ unlink n re none s
unfolding remove_from_list
remove_from_list_lem n re s h = rw h refl

released :
    (re : ℕ) (t : Plugin) (e : Entry)
    → t.entries re ≡ some e
    → release (some re) t ≡ some (record t { entries = set_entry re none t.entries })
unfolding release
released re t e there = rw (release, there) refl

deleted :
    (n re : ℕ) (s t : Plugin) (e : Entry)
    → remove_from_list (suc n) (some re) s ≡ some t
    → t.entries re ≡ some e
    → remap_delete_instance (suc n) (some re) s
      ≡ some (record t { entries = set_entry re none t.entries })
unfolding remap_delete_instance
deleted n re s t e h there = rw (remap_delete_instance, h) (released re t e there)

argv_of-some :
    (o : Option Entry) {a : Option (List Bytes)} → argv_of o ≡ some a → (e : Entry) × (o ≡ some e)
argv_of-some none h = absurd (cc h)
argv_of-some (some e) h = (e, refl)

-- `TSRemapDeleteInstance` of an instance of the list, with a round for each instance and one more:
-- no pointer without an instance is read, the instance leaves the list and is deleted, and the others
-- stay in their order.
pub delete-IsRegistry :
    (n re : ℕ) (ps : List ℕ) (s : Plugin)
    → length ps ≤ n
    → is_listed re ps ≡ true
    → IsRegistry s ps
    → (t : Plugin) × (remap_delete_instance (suc n) (some re) s ≡ some t)
      × IsRegistry t (erase re ps)
delete-IsRegistry n re ps s few listed r =
    let (t, e, c, kept) = unlink-IsChain n re ps s few r.apart r.chain in
    let (er, here) = listed_entry re s.active_list ps s.entries listed r.chain in
    let (gone_entry, there) = argv_of-some (t.entries re) (kept.args re ∙ ap argv_of here) in
    let away = erased-IsApart re ps r.apart in
    let gone : (q : ℕ) → IsApart q (erase re ps) → set_entry re none t.entries q ≡ none = λ q h.
      elim (Bool-cases (re == q)) [
        | inl b ↦ rw b refl
        | inr b ↦
            let none_before = r.only q (IsApart-of_erase q re ps b h) in
            rw b (argv_of-none (t.entries q) (kept.args q ∙ ap argv_of none_before))
      ] in
    (
      record t { entries = set_entry re none t.entries },
      deleted n re s t gone_entry (remove_from_list_lem (suc n) re s r.ready ∙ e) there,
      record {
        ready = ap (λ c. c == 0) kept.counter ∙ r.ready;
        chain = set_entry-IsChain re none t.entries t.active_list (erase re ps) away c;
        apart = erase-AreApart re ps r.apart;
        only = gone;
      },
    )

same_address :
    (v : Option ℕ) (e : Entry) (entries : Entries) (a : ℕ)
    → set_next a v (set_entry a (some e) entries) a ≡ some (with_next v e)
same_address v e entries a = let same : (a == a) ≡ true = ground arith in rw same refl

module _ (host : Host) (argc : ℕ) (args : List Bytes) (errbuf : Option Buffer) (address : ℕ) where
  abbrev created : Plugin → Plugin
  created s =
      add_to_list (some address)
        (record s { entries = set_entry address (some (new_entry argc (some args))) s.entries })

  created_lem :
      (s : Plugin)
      → ltb argc 2 ≡ false
      → remap_new_instance host argc (some args) true errbuf address s
        ≡ (((success, errbuf), some address), created s)
  unfolding remap_new_instance
  created_lem s h = rw h refl

  abbrev linked : Plugin → Plugin
  linked s = record s {
    entries =
        set_next address s.active_list
          (set_entry address (some (new_entry argc (some args))) s.entries);
    active_list = some address;
  }

  created-linked : (s : Plugin) → (s.plugin_init_counter == 0) ≡ false → created s ≡ linked s
  unfolding add_to_list
  created-linked s h = rw h refl

  linked_here :
      (s : Plugin)
      → (linked s).entries address ≡ some (with_next s.active_list (new_entry argc (some args)))
  linked_here s = same_address s.active_list (new_entry argc (some args)) s.entries address

  linked_apart : (s : Plugin) (q : ℕ) → (q == address) ≡ false → (linked s).entries q ≡ s.entries q
  linked_apart s q h = let apart : (address == q) ≡ false = ground (arith, h) in rw apart refl

  new_entry_args : 0 < argc → some (new_entry argc (some args)).argv ≡ some (some (take argc args))
  unfolding new_entry
  new_entry_args h = let given : ltb 0 argc ≡ true = ground (arith, h) in rw given refl

  -- `TSRemapNewInstance` with two arguments or more, at an address that no instance has: it succeeds,
  -- and the new instance, with copies of its arguments, comes to the front of the list.
  pub new-IsRegistry :
      (ps : List ℕ) (s : Plugin)
      → 2 ≤ argc
      → IsApart address ps
      → IsRegistry s ps
      → (t : Plugin) × (remap_new_instance host argc (some args) true errbuf address s
          ≡ (((success, errbuf), some address), t))
        × IsRegistry t (address ∷ ps)
        × (argv_of (t.entries address) ≡ some (some (take argc args)))
  new-IsRegistry ps s enough away r = (
    linked s,
    created_lem s (ground (arith, enough))
        ∙ ap (λ t. (((success, errbuf), some address), t)) (created-linked s r.ready),
    record {
      ready = r.ready;
      chain = (
        refl,
        with_next s.active_list (new_entry argc (some args)),
        linked_here s,
        set_next-IsChain address s.active_list _ s.active_list ps away
            (set_entry-IsChain address _ s.entries s.active_list ps away r.chain),
      );
      apart = (away, r.apart);
      only = λ q (here, later). linked_apart s q here ∙ r.only q later;
    },
    ap argv_of (linked_here s) ∙ new_entry_args (omega (arith, enough)),
  )
