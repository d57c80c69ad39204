-- ===== src/Remap/Skip.antt =====
-- The list of instances of src/remap/remap.cc after the loop of `remove_from_list`.
use mathlib.Core.Path.{subst}
use mathlib.Core.Option
use ats_plugin_experiment.Base.{
  ℕ, suc, ◌≤◌, true, false, ◌==◌, if◌then◌else◌, Option, none, some, List, [], ◌∷◌, length, ◌≡◌,
  ◌∙◌, ap, sym, inl, inr, refl, arith, Bool-cases, Bytes,
}
use ats_plugin_experiment.Remap.{Entry, Plugin}
use ats_plugin_experiment.Remap.Entries.{
  Entries, set_next, with_next, bypass, read_link, write_link, unlink,
}
use ats_plugin_experiment.Remap.Chain.{
  IsChain, IsApart, AreApart, is_listed, erase, set_next-IsChain, link_to, same_nat, unlink_lem,
}

set_next_at :
    (q : ℕ) (v : Option ℕ) (entries : Entries) (e : Entry)
    → entries q ≡ some e
    → set_next q v entries q ≡ some (with_next v e)
set_next_at q v entries e h = ground (arith, h)

set_next_apart :
    (q p : ℕ) (v : Option ℕ) (entries : Entries)
    → (q == p) ≡ false
    → set_next q v entries p ≡ entries p
set_next_apart q p v entries h = rw h refl

-- The instance whose link leads to `re`.
before : ℕ → ℕ → List ℕ → ℕ
before re q [] = q
before re q (p ∷ ps) = if p == re then q else before re p ps

some_entry : (a b : Entry) → some a ≡ some b → a ≡ b
some_entry a b h = ground (arith, h)

before_here : (re q p : ℕ) (ps : List ℕ) → (p == re) ≡ true → before re q (p ∷ ps) ≡ q
unfolding before
before_here re q p ps b = rw b refl

before_on : (re q p : ℕ) (ps : List ℕ) → (p == re) ≡ false → before re q (p ∷ ps) ≡ before re p ps
unfolding before
before_on re q p ps b = rw b refl

link_to-before : (re q : ℕ) (ps : List ℕ) → link_to re (some q) ps ≡ some (before re q ps)
unfolding before
link_to-before re q [] = refl
link_to-before re q (p ∷ ps) = elim (Bool-cases (p == re)) [
  | inl b ↦ rw b refl
  | inr b ↦ rw b (link_to-before re p ps)
]

before-IsApart :
    (re q a : ℕ) (ps : List ℕ) → (a == q) ≡ false → IsApart a ps → (before re q ps == a) ≡ false
unfolding before
before-IsApart re q a [] h away = ground (arith, h)
before-IsApart re q a (p ∷ ps) h (apart, away) = elim (Bool-cases (p == re)) [
  | inl b ↦ rw b (ground (arith, h))
  | inr b ↦ rw b (before-IsApart re p a ps apart away)
]

-- The links after the one to `re` has been made to skip it, from an instance before it.
skip-IsChain :
    (re q : ℕ) (eq er : Entry) (ps : List ℕ) (entries : Entries)
    → entries q ≡ some eq
    → entries re ≡ some er
    → IsApart q ps
    → AreApart ps
    → is_listed re ps ≡ true
    → IsChain entries eq.next ps
    → IsChain (set_next (before re q ps) er.next entries) (some q) (q ∷ erase re ps)
unfolding before
skip-IsChain re q eq er [] entries hq hre away apart listed c = absurd (cc listed)
skip-IsChain re q eq er (p ∷ ps) entries hq hre (qp, qs) (ps_away, apart) listed (at, e, held, c) =
    elim (Bool-cases (p == re)) [
      | inl b ↦
          let same : some e ≡ some er = sym held ∙ ap entries (same_nat p re b) ∙ hre in
          let tail = subst (λ (x : Entry). IsChain entries x.next ps) (some_entry e er same) c in
          subst (λ w. IsChain (set_next w er.next entries) (some q) (q ∷ erase re (p ∷ ps)))
            (sym (before_here re q p ps b))
            (rw b (
              refl,
              with_next er.next eq,
              set_next_at q er.next entries eq hq,
              set_next-IsChain q er.next entries er.next ps qs tail,
            ))
      | inr b ↦
          let rest = skip-IsChain re p e er ps entries held hre ps_away apart (rw b at listed) c in
          let kept =
            set_next_apart (before re p ps) q er.next entries (before-IsApart re p q ps qp qs)
            ∙ hq in
          subst (λ w. IsChain (set_next w er.next entries) (some q) (q ∷ erase re (p ∷ ps)))
            (sym (before_on re q p ps b))
            (rw b (
              refl,
              eq,
              kept,
              subst (λ l. IsChain (set_next (before re p ps) er.next entries) l (p ∷ erase re ps))
                  (sym at) rest,
            ))
    ]

bypass_lem :
    (rre : Option ℕ) (re : ℕ) (s : Plugin) (er : Entry)
    → s.entries re ≡ some er
    → bypass rre re s ≡ some (write_link rre er.next s)
unfolding bypass
bypass_lem rre re s er h = rw h refl

pub listed_entry :
    (re : ℕ) (l : Option ℕ) (ps : List ℕ) (entries : Entries)
    → is_listed re ps ≡ true
    → IsChain entries l ps
    → (e : Entry) × (entries re ≡ some e)
listed_entry re l [] entries listed c = absurd (cc listed)
listed_entry re l (p ∷ ps) entries listed (at, e, held, c) = elim (Bool-cases (p == re)) [
  | inl b ↦ (e, ap entries (sym (same_nat p re b)) ∙ held)
  | inr b ↦ listed_entry re e.next ps entries (rw b at listed) c
]

erase_unlisted : (re : ℕ) (ps : List ℕ) → is_listed re ps ≡ false → erase re ps ≡ ps
erase_unlisted re [] h = refl
erase_unlisted re (p ∷ ps) h = elim (Bool-cases (p == re)) [
  | inl b ↦ absurd (ground (arith, h, b))
  | inr b ↦ rw b (ap (λ qs. p ∷ qs) (erase_unlisted re ps (rw b at h)))
]

abbrev pub argv_of : Option Entry → Option (Option (List Bytes))
argv_of = Option.map (λ (e : Entry). e.argv)

-- What the links do not touch.
pub record Kept (s t : Plugin) : Type 0 where
  pub counter : t.plugin_init_counter ≡ s.plugin_init_counter
  pub args : (a : ℕ) → argv_of (t.entries a) ≡ argv_of (s.entries a)

map_argv : (v : Option ℕ) (o : Option Entry) → argv_of (Option.map (with_next v) o) ≡ argv_of o
map_argv v none = refl
map_argv v (some e) = refl

set_next-argv_of :
    (q : ℕ) (v : Option ℕ) (entries : Entries) (a : ℕ)
    → argv_of (set_next q v entries a) ≡ argv_of (entries a)
set_next-argv_of q v entries a = elim (Bool-cases (q == a)) [
  | inl b ↦ rw b (map_argv v (entries a))
  | inr b ↦ rw b refl
]

-- The list after the link to `re` has been made to skip it.
write_link-IsChain :
    (re : ℕ) (er : Entry) (ps : List ℕ) (s : Plugin)
    → s.entries re ≡ some er
    → AreApart ps
    → is_listed re ps ≡ true
    → IsChain s.entries s.active_list ps
    → (t : Plugin) × (write_link (link_to re none ps) er.next s ≡ t)
      × IsChain t.entries t.active_list (erase re ps)
      × Kept s t
unfolding write_link
write_link-IsChain re er [] s hre apart listed c = absurd (cc listed)
write_link-IsChain re er (p ∷ ps) s hre (away, apart) listed (at, e, held, c) =
    elim (Bool-cases (p == re)) [
      | inl b ↦
          let same : some e ≡ some er = sym held ∙ ap s.entries (same_nat p re b) ∙ hre in
          let tail = subst (λ (x : Entry). IsChain s.entries x.next ps) (some_entry e er same) c in
          rw b (
            record s { active_list = er.next },
            refl,
            tail,
            record { counter = refl; args = λ a. refl },
          )
      | inr b ↦
          let rest = skip-IsChain re p e er ps s.entries held hre away apart (rw b at listed) c in
          let w = before re p ps in
          rw b (
            record s { entries = set_next w er.next s.entries },
            ap (λ k. write_link k er.next s) (link_to-before re p ps),
            subst (λ l. IsChain (set_next w er.next s.entries) l (p ∷ erase re ps)) (sym at) rest,
            record { counter = refl; args = set_next-argv_of w er.next s.entries },
          )
    ]

read_active : (s : Plugin) → read_link none s ≡ some s.active_list
unfolding read_link
read_active s = refl

-- After the loop of `remove_from_list`: the list without `re`.
pub unlink-IsChain :
    (n re : ℕ) (ps : List ℕ) (s : Plugin)
    → length ps ≤ n
    → AreApart ps
    → IsChain s.entries s.active_list ps
    → (t : Plugin) × (unlink (suc n) re none s ≡ some t)
      × IsChain t.entries t.active_list (erase re ps)
      × Kept s t
unlink-IsChain n re ps s few apart c =
    let loop = unlink_lem n re none s.active_list ps s few (read_active s) c in
    elim (Bool-cases (is_listed re ps)) [
      | inl b ↦
          let (er, hre) = listed_entry re s.active_list ps s.entries b c in
          let (t, w, ct, kept) = write_link-IsChain re er ps s hre apart b c in
          (t, loop ∙ rw b (bypass_lem (link_to re none ps) re s er hre ∙ ap some w), ct, kept)
      | inr b ↦ (
        s,
        loop ∙ rw b refl,
        subst (IsChain s.entries s.active_list) (sym (erase_unlisted re ps b)) c,
        record { counter = refl; args = λ a. refl },
      )
    ]
