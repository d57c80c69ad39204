-- ===== src/Remap/Chain.antt =====
-- The list of instances of src/remap/remap.cc as its links spell it, and what the loop of
-- `remove_from_list` makes of it.
use ats_plugin_experiment.Base.{
  ℕ, zero, suc, ◌≤◌, Bool, true, false, ◌==◌, any, All, if◌then◌else◌, Option, none, some, List, [],
  ◌∷◌, length, ◌≡◌, ◌∙◌, ap, inl, inr, refl, arith, Bool-cases,
}
use ats_plugin_experiment.Remap.{Entry, Plugin}
use ats_plugin_experiment.Remap.Entries.{Entries, set_next, set_entry, bypass, read_link, unlink}

-- The links from `l` on lead through these instances, in this order, and end.
abbrev pub IsChain : Entries → Option ℕ → List ℕ → Type 0
IsChain entries l [] = l ≡ none
IsChain entries l (p ∷ ps) =
    (l ≡ some p) × (e : Entry) × (entries p ≡ some e) × IsChain entries e.next ps

abbrev pub IsApart : ℕ → List ℕ → Type 0
IsApart q = All (λ p. (q == p) ≡ false)

abbrev pub AreApart : List ℕ → Type 0
AreApart [] = Unit
AreApart (p ∷ ps) = IsApart p ps × AreApart ps

abbrev pub is_listed : ℕ → List ℕ → Bool
is_listed re = any (λ p. p == re)

-- The list without its first `re`.
abbrev pub erase : ℕ → List ℕ → List ℕ
erase re [] = []
erase re (p ∷ ps) = if p == re then ps else p ∷ erase re ps

pub set_next-IsChain :
    (q : ℕ) (v : Option ℕ) (entries : Entries) (l : Option ℕ) (ps : List ℕ)
    → IsApart q ps
    → IsChain entries l ps
    → IsChain (set_next q v entries) l ps
set_next-IsChain q v entries l [] away c = c
set_next-IsChain q v entries l (p ∷ ps) (apart, away) (at, e, held, c) =
    (at, e, rw apart held, set_next-IsChain q v entries e.next ps away c)

pub set_entry-IsChain :
    (q : ℕ) (o : Option Entry) (entries : Entries) (l : Option ℕ) (ps : List ℕ)
    → IsApart q ps
    → IsChain entries l ps
    → IsChain (set_entry q o entries) l ps
set_entry-IsChain q o entries l [] away c = c
set_entry-IsChain q o entries l (p ∷ ps) (apart, away) (at, e, held, c) =
    (at, e, rw apart held, set_entry-IsChain q o entries e.next ps away c)

-- The link that `remove_from_list` writes: the one that leads to `re`.
abbrev pub link_to : ℕ → Option ℕ → List ℕ → Option ℕ
link_to re rre [] = rre
link_to re rre (p ∷ ps) = if p == re then rre else link_to re (some p) ps

pub same_nat : (p q : ℕ) → (p == q) ≡ true → p ≡ q
same_nat p q h = ground (arith, h)

unlink_step :
    (n re : ℕ) (rre : Option ℕ) (s : Plugin) (p : ℕ)
    → read_link rre s ≡ some (some p)
    → unlink (suc n) re rre s ≡ (if p == re then bypass rre re s else unlink n re (some p) s)
unfolding unlink
unlink_step n re rre s p h = rw (unlink, h) refl

unlink_end :
    (n re : ℕ) (rre : Option ℕ) (s : Plugin)
    → read_link rre s ≡ some none
    → unlink (suc n) re rre s ≡ some s
unfolding unlink
unlink_end n re rre s h = rw (unlink, h) refl

pub read_next :
    (p : ℕ) (e : Entry) (s : Plugin) → s.entries p ≡ some e → read_link (some p) s ≡ some e.next
unfolding read_link
read_next p e s h = rw h refl

-- The loop ends within a round for each instance of the rest of the list and one more: it writes the
-- link to `re`, or nothing where `re` is not in the list.
pub unlink_lem :
    (n re : ℕ) (rre l : Option ℕ) (ps : List ℕ) (s : Plugin)
    → length ps ≤ n
    → read_link rre s ≡ some l
    → IsChain s.entries l ps
    → unlink (suc n) re rre s
      ≡ (if is_listed re ps then bypass (link_to re rre ps) re s else some s)
unlink_lem n re rre l [] s few r c = unlink_end n re rre s (r ∙ ap some c)
unlink_lem (suc n) re rre l (p ∷ ps) s few r (at, e, held, c) =
    let here = unlink_step (suc n) re rre s p (r ∙ ap some at) in
    elim (Bool-cases (p == re)) [
      | inl b ↦ here ∙ rw b refl
      | inr b ↦
          let rest =
            unlink_lem n re (some p) e.next ps s (omega (arith, few)) (read_next p e s held) c in
          here ∙ rw b rest
    ]
unlink_lem zero re rre l (p ∷ ps) s few r c = absurd (omega (arith, few))
