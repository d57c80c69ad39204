-- ===== src/ObjStoreAuth/ConfigCache/Threads/Exclusion.antt =====
use ats_plugin_experiment.Base.{
  ℕ, ◌+◌, true, false, not, ◌&&◌, ◌==◌, ltb, ◌≡◌, ◌⊎◌, inl, inr, refl, sym, ap, ◌∙◌, arith,
  Bool-cases,
}
use ats_plugin_experiment.ObjStoreAuth.ConfigCache.Threads.{
  Shared, Pc, idle, found, seen, stale, fresh, loading, loaded, replacing, deleted, stored, timed,
  waiting, returned, is_odd, next_status, Choice, step, System, update, advance, pick, Reach, start,
  later, is_reloading,
}

-- How a step changes who reloads, and the parity of the status.
data Change (m m' : Shared) (p p' : Pc) : Type 0 where
  same :
      is_reloading p' ≡ is_reloading p
      → is_odd m'.update_status ≡ is_odd m.update_status
      → Change m m' p p'
  enters :
      is_reloading p' ≡ true
      → is_odd m.update_status ≡ false
      → is_odd m'.update_status ≡ true
      → Change m m' p p'
  leaves :
      is_reloading p ≡ true
      → is_reloading p' ≡ false
      → is_odd m.update_status ≡ not (is_odd m'.update_status)
      → Change m m' p p'

no_bool : false ≡ true → ⊥
no_bool e = cc (e)

next_status-flips : (u : ℕ) → is_odd u ≡ not (is_odd (next_status u))
next_status-flips u = ground arith

step-Change : (c : Choice) (m : Shared) (p : Pc) → Change m (step c m p).0 p (step c m p).1
unfolding step
step-Change c m idle = same refl refl
step-Change c m (found now) = same refl refl
step-Change c m (seen now u) = elim (Bool-cases (ltb (m.load_time + 60) now)) [
  | inl b ↦ rw b (same refl refl)
  | inr b ↦ rw b (same refl refl)
]
step-Change c m (stale now u) = elim (Bool-cases (not (is_odd u) && m.update_status == u)) [
  | inl b ↦ rw b (enters refl (ground (arith, b)) (ground (arith, b)))
  | inr b ↦ rw b (same refl refl)
]
step-Change c m fresh = same refl refl
step-Change c m (loading now) = same refl refl
step-Change c m (loaded now s3) = same refl refl
step-Change c m (replacing now s3 old) = same refl refl
step-Change c m (deleted now s3) = same refl refl
step-Change c m (stored now s3) = same refl refl
step-Change c m (timed s3) = leaves refl refl (next_status-flips m.update_status)
step-Change c m waiting = elim (Bool-cases (is_odd m.update_status)) [
  | inl b ↦ rw b (same refl refl)
  | inr b ↦ rw b (same refl refl)
]
step-Change c m (returned s3) = same refl refl

pub record IsExclusive (s : System) : Type 0 where
  pub unique : (i j : ℕ) → is_reloading (s.pc i) ≡ true → is_reloading (s.pc j) ≡ true → i ≡ j
  pub odd : (i : ℕ) → is_reloading (s.pc i) ≡ true → is_odd s.shared.update_status ≡ true
  pub covered : is_odd s.shared.update_status ≡ true → (i : ℕ) × (is_reloading (s.pc i) ≡ true)

-- Where a thread stands after thread `i` has moved to `p'`.
update-cases :
    (pc : ℕ → Pc) (i : ℕ) (p' : Pc) (a : ℕ)
    → ((i ≡ a) × (is_reloading (update pc i p' a) ≡ is_reloading p'))
      ⊎ ((i == a) ≡ false) × (is_reloading (update pc i p' a) ≡ is_reloading (pc a))
update-cases pc i p' a = elim (Bool-cases (i == a)) [
  | inl b ↦ inl (ground (arith, b), rw b refl)
  | inr b ↦ inr (b, rw b refl)
]

update-same :
    (pc : ℕ → Pc) (i : ℕ) (p' : Pc)
    → is_reloading p' ≡ is_reloading (pc i)
    → (a : ℕ) → is_reloading (update pc i p' a) ≡ is_reloading (pc a)
update-same pc i p' r a = elim (update-cases pc i p' a) [
  | inl (e, new) ↦ new ∙ r ∙ ap (λ k. is_reloading (pc k)) e
  | inr (_, old) ↦ old
]

update-at : (pc : ℕ → Pc) (i : ℕ) (p' : Pc) → is_reloading (update pc i p' i) ≡ is_reloading p'
update-at pc i p' = elim (update-cases pc i p' i) [
  | inl (_, new) ↦ new
  | inr (apart, _) ↦ absurd (ground (arith, apart))
]

update-enters :
    (pc : ℕ → Pc) (i : ℕ) (p' : Pc)
    → ((k : ℕ) → is_reloading (pc k) ≡ true → ⊥)
    → (a : ℕ) → is_reloading (update pc i p' a) ≡ true
    → i ≡ a
update-enters pc i p' alone a held = elim (update-cases pc i p' a) [
  | inl (e, _) ↦ e
  | inr (_, old) ↦ absurd (alone a (sym old ∙ held))
]

update-leaves :
    (pc : ℕ → Pc) (i : ℕ) (p' : Pc)
    → is_reloading p' ≡ false
    → ((k : ℕ) → is_reloading (pc k) ≡ true → i ≡ k)
    → (a : ℕ) → is_reloading (update pc i p' a) ≡ true
    → ⊥
update-leaves pc i p' gone alone a held = elim (update-cases pc i p' a) [
  | inl (_, new) ↦ absurd (no_bool (sym gone ∙ sym new ∙ held))
  | inr (apart, old) ↦ let e = alone a (sym old ∙ held) in absurd (ground (arith, e, apart))
]

Change-IsExclusive :
    (m m' : Shared) (pc : ℕ → Pc) (i : ℕ) (p' : Pc)
    → Change m m' (pc i) p'
    → IsExclusive (record { shared = m; pc = pc })
    → IsExclusive (record { shared = m'; pc = update pc i p' })
Change-IsExclusive m m' pc i p' (same r o) inv =
    let e = update-same pc i p' r in
    record {
      unique = λ a b ha hb. inv.unique a b (sym (e a) ∙ ha) (sym (e b) ∙ hb);
      odd = λ a ha. o ∙ inv.odd a (sym (e a) ∙ ha);
      covered = λ h. let (k, held) = inv.covered (sym o ∙ h) in (k, e k ∙ held);
    }
Change-IsExclusive m m' pc i p' (enters r e o) inv =
    let alone = update-enters pc i p' (λ k held. no_bool (sym e ∙ inv.odd k held)) in
    record {
      unique = λ a b ha hb. sym (alone a ha) ∙ alone b hb;
      odd = λ a ha. o;
      covered = λ h. (i, update-at pc i p' ∙ r);
    }
Change-IsExclusive m m' pc i p' (leaves r l o) inv =
    let none_left = update-leaves pc i p' l (λ k held. inv.unique i k r held) in
    record {
      unique = λ a b ha hb. absurd (none_left a ha);
      odd = λ a ha. absurd (none_left a ha);
      covered = λ h. absurd (no_bool (sym (ap not h) ∙ sym o ∙ inv.odd i r));
    }

advance-IsExclusive :
    (i : ℕ) (c : Choice) (s : System) → IsExclusive s → IsExclusive (advance i c s)
unfolding advance
advance-IsExclusive i c s inv =
    Change-IsExclusive s.shared _ s.pc i _ (step-Change c s.shared (s.pc i)) inv

-- Whatever steps the threads that meet at an entry take, in whatever order, from an entry with an
-- even status: two threads that are both between winning the exchange and counting the status up
-- again are the same thread; while there is such a thread the status is odd, and while the status is
-- odd there is such a thread, so that no thread waits for nobody.
pub Reach-IsExclusive :
    (m : Shared) (s : System) → is_odd m.update_status ≡ false → Reach m s → IsExclusive s
Reach-IsExclusive m s even start = record {
  unique = λ i j ha hb. absurd (no_bool ha);
  odd = λ i ha. absurd (no_bool ha);
  covered = λ h. absurd (no_bool (sym even ∙ h));
}
Reach-IsExclusive m s even (later reach (pick i c)) =
    advance-IsExclusive i c _ (Reach-IsExclusive m _ even reach)
