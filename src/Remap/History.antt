-- ===== src/Remap/History.antt =====
-- A run of src/remap/remap.cc: Traffic Server creates and deletes instances in any order.
use ats_plugin_experiment.Base.{
  ℕ, suc, ◌+◌, ◌≤◌, true, ◌==◌, Option, none, some, List, [], ◌∷◌, length, ◌≡◌, ◌∙◌, ap, inl, inr,
  refl, arith, Bool-cases, Bytes,
}
use ats_plugin_experiment.Remap.{Plugin, Host}
use ats_plugin_experiment.Remap.Entries.{remap_new_instance, remap_delete_instance}
use ats_plugin_experiment.Remap.Chain.{IsApart, is_listed, erase}
use ats_plugin_experiment.Remap.Instances.{IsRegistry, delete-IsRegistry, new-IsRegistry}

-- A rule is loaded, with the address that its instance gets, or dropped.
pub data RuleEvent : Type 0 where
  loads : ℕ → List Bytes → ℕ → RuleEvent
  drops : ℕ → RuleEvent

module _ (host : Host) (rounds : ℕ) where
  unfoldable pub run_rules : List RuleEvent → Plugin → Option Plugin
  run_rules [] s = some s
  run_rules (loads argc args address ∷ es) s =
      run_rules es (remap_new_instance host argc (some args) true none address s).1
  run_rules (drops address ∷ es) s = elim (remap_delete_instance rounds (some address) s) [
    | none ↦ none
    | some t ↦ run_rules es t
  ]

-- The instances after the events, the newest first.
abbrev pub ledger : List RuleEvent → List ℕ → List ℕ
ledger [] ps = ps
ledger (loads argc args address ∷ es) ps = ledger es (address ∷ ps)
ledger (drops address ∷ es) ps = ledger es (erase address ps)

-- Every rule has its two arguments, an allocation returns no address that is in use, and what is
-- deleted is an instance.
abbrev pub AreLoadable : List RuleEvent → List ℕ → Type 0
AreLoadable [] ps = Unit
AreLoadable (loads argc args address ∷ es) ps =
    (2 ≤ argc) × IsApart address ps × AreLoadable es (address ∷ ps)
AreLoadable (drops address ∷ es) ps =
    (is_listed address ps ≡ true) × AreLoadable es (erase address ps)

length-erase : (re : ℕ) (ps : List ℕ) → length (erase re ps) ≤ length ps
length-erase re [] = omega arith
length-erase re (p ∷ ps) = elim (Bool-cases (p == re)) [
  | inl b ↦ rw b (omega arith)
  | inr b ↦ rw b (omega (arith, length-erase re ps))
]

module _ (host : Host) (n : ℕ) where
  run_drops :
      (rounds address : ℕ) (es : List RuleEvent) (s t : Plugin)
      → remap_delete_instance rounds (some address) s ≡ some t
      → run_rules host rounds (drops address ∷ es) s ≡ run_rules host rounds es t
  unfolding run_rules
  run_drops rounds address es s t e = rw (run_rules, e) refl

  -- However the rules come and go, the list of the plugin holds exactly the instances that were
  -- created and not deleted, the newest first, and no pointer without an instance is read or deleted:
  -- for events whose rules have two arguments or more, whose allocations return unused addresses,
  -- which delete only instances, and that are, with the instances there are at first, no more than
  -- the rounds of the loop.
  pub run_rules-IsRegistry :
      (es : List RuleEvent) (ps : List ℕ) (s : Plugin)
      → length ps + length es ≤ n
      → AreLoadable es ps
      → IsRegistry s ps
      → (t : Plugin) × (run_rules host (suc n) es s ≡ some t) × IsRegistry t (ledger es ps)
  unfolding run_rules
  run_rules-IsRegistry [] ps s few ok r = (s, refl, r)
  run_rules-IsRegistry (loads argc args address ∷ es) ps s few (enough, away, ok) r =
      let (t, e, rt, _) = new-IsRegistry host argc args none address ps s enough away r in
      let (u, eu, ru) = run_rules-IsRegistry es (address ∷ ps) t (omega (arith, few)) ok rt in
      (u, ap (λ p. run_rules host (suc n) es p.1) e ∙ eu, ru)
  run_rules-IsRegistry (drops address ∷ es) ps s few (listed, ok) r =
      let (t, e, rt) = delete-IsRegistry n address ps s (omega (arith, few)) listed r in
      let (u, eu, ru) =
        run_rules-IsRegistry es (erase address ps) t (omega (arith, few, length-erase address ps))
          ok rt in
      (u, run_drops (suc n) address es s t e ∙ eu, ru)
