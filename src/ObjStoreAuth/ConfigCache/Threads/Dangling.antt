-- ===== src/ObjStoreAuth/ConfigCache/Threads/Dangling.antt =====
-- What a thread of src/obj_store_auth/obj_store_auth.cc holds when another thread reloads the entry
-- (`delete it->second.config` in `ConfigCache::get`).
use ats_plugin_experiment.Base.{
  ℕ, ◌+◌, true, false, ltb, none, some, List, [], ◌∷◌, ◌≡◌, refl, arith,
}
use ats_plugin_experiment.ObjStoreAuth.ConfigCache.Threads.{
  Shared, idle, returned, Choice, step, System, advance, run, Reach, start, later, pick,
}

Reach-run :
    (schedule : List (ℕ × Choice)) (m : Shared) (s : System) → Reach m s → Reach m (run schedule s)
unfolding run
Reach-run [] m s reach = reach
Reach-run ((i, c) ∷ schedule) m s reach =
    Reach-run schedule m (advance i c s) (later reach (pick i c))

-- The entry holds `p`, loaded at `t`.
abbrev pub at_rest : ℕ → ℕ → System
at_rest p t = record {
  shared = record { update_status = 0; config = some p; load_time = t; freed = [] };
  pc = λ i. idle;
}

-- One thread finds the entry fresh, at the last second, and has its pointer; a second later another
-- thread reloads it.
abbrev pub overlap : ℕ → ℕ → List (ℕ × Choice)
overlap t q =
    let early : Choice = record { now = t + 60; parsed = none } in
    let late : Choice = record { now = t + 61; parsed = some q } in
    (1, early)
    ∷ (1, early)
    ∷ (1, early)
    ∷ (1, early)
    ∷ (0, late)
    ∷ (0, late)
    ∷ (0, late)
    ∷ (0, late)
    ∷ (0, late)
    ∷ (0, late)
    ∷ (0, late)
    ∷ []

last_second : (t : ℕ) → ltb (t + 60) (t + 60) ≡ false
last_second t = ground arith

second_later : (t : ℕ) → ltb (t + 60) (t + 61) ≡ true
second_later t = ground arith

reads_fresh : (p q t : ℕ) → (run (overlap t q) (at_rest p t)).pc 1 ≡ returned (some p)
unfolding run advance step
reads_fresh p q t = rw (last_second t) refl

frees : (p q t : ℕ) → (run (overlap t q) (at_rest p t)).shared.freed ≡ p ∷ []
unfolding run advance step
frees p q t = rw (last_second t, second_later t) refl

-- Nothing keeps a configuration alive: for an entry loaded at `t` with the configuration `p` there is
-- an order of steps of two threads after which one has returned from `get` with `p`, and the other,
-- which reloads the entry, has deleted `p`.
pub returned_dangling :
    (p q t : ℕ)
    → (s : System) × Reach (at_rest p t).shared s
      × (s.pc 1 ≡ returned (some p))
      × (s.shared.freed ≡ p ∷ [])
returned_dangling p q t = (
  run (overlap t q) (at_rest p t),
  Reach-run (overlap t q) (at_rest p t).shared (at_rest p t) start,
  reads_fresh p q t,
  frees p q t,
)
