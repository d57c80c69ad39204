-- ===== src/ObjStoreAuth/ConfigCache/Threads.antt =====
-- `ConfigCache::get` of src/obj_store_auth/obj_store_auth.cc when several threads find the same entry:
-- each access of the entry's atomics is one step, and so are the parse of the file and the deletion of
-- the old configuration. The steps of the threads mix in any order.
pub mod Exclusion
pub mod Dangling
use ats_plugin_experiment.Base.{
  ℕ, ◌+◌, ◌%◌, ◌^◌, ◌<◌, Bool, true, false, not, ◌&&◌, ◌==◌, ltb, Option, none, some, List, [], ◌∷◌,
  if◌then◌else◌, ◌≡◌, refl,
}
use ats_plugin_experiment.ObjStoreAuth.ConfigCache.{ttl}

-- The `_ConfigData` of the file. Configurations are pointers here; `freed` lists those that have been
-- deleted.
pub record Shared : Type 0 where
  pub update_status : ℕ
  pub config : Option ℕ
  pub load_time : ℕ
  pub freed : List ℕ

-- Where a thread stands, with its locals: the time, the status that it read, the configuration that
-- it loaded, the one that it found in the entry, the pointer that it returned.
pub data Pc : Type 0 where
  idle : Pc
  found : ℕ → Pc
  seen : ℕ → ℕ → Pc
  stale : ℕ → ℕ → Pc
  fresh : Pc
  loading : ℕ → Pc
  loaded : ℕ → Option ℕ → Pc
  replacing : ℕ → Option ℕ → Option ℕ → Pc
  deleted : ℕ → Option ℕ → Pc
  stored : ℕ → Option ℕ → Pc
  timed : Option ℕ → Pc
  waiting : Pc
  returned : Option ℕ → Pc

abbrev pub is_odd : ℕ → Bool
is_odd n = n % 2 == 1

-- `++` on an `unsigned`.
abbrev pub next_status : ℕ → ℕ
next_status u = (u + 1) % 2 ^ 32

abbrev pub free : Option ℕ → List ℕ → List ℕ
free none freed = freed
free (some p) freed = p ∷ freed

-- What the environment decides: the time of day, and what the parse of the file returns.
pub record Choice : Type 0 where
  pub now : ℕ
  pub parsed : Option ℕ

-- One step of one thread.
unfoldable pub step : Choice → Shared → Pc → Shared × Pc
step c m idle = (m, found c.now)
step c m (found now) = (m, seen now m.update_status)
step c m (seen now u) = (m, if ltb (m.load_time + ttl) now then stale now u else fresh)
step c m (stale now u) =
    if not (is_odd u) && m.update_status == u
    then (record m { update_status = next_status u }, loading now)
    else (m, waiting)
step c m fresh = (m, returned m.config)
step c m (loading now) = (m, loaded now c.parsed)
step c m (loaded now s3) = (m, replacing now s3 m.config)
step c m (replacing now s3 old) = (record m { freed = free old m.freed }, deleted now s3)
step c m (deleted now s3) = (record m { config = s3 }, stored now s3)
step c m (stored now s3) = (record m { load_time = now }, timed s3)
step c m (timed s3) = (record m { update_status = next_status m.update_status }, returned s3)
step c m waiting = (m, if is_odd m.update_status then waiting else fresh)
step c m (returned s3) = (m, returned s3)

-- All threads.
pub record System : Type 0 where
  pub shared : Shared
  pub pc : ℕ → Pc

abbrev pub update : (ℕ → Pc) → ℕ → Pc → ℕ → Pc
update f i p j = if i == j then p else f j

unfoldable pub advance : ℕ → Choice → System → System
advance i c s = record {
  shared = (step c s.shared (s.pc i)).0;
  pc = update s.pc i (step c s.shared (s.pc i)).1;
}

-- Some thread takes a step.
pub data Step (s : System) : System → Type 0 where
  pick : (i : ℕ) (c : Choice) → Step s (advance i c s)

-- What can come of an entry that no thread is using.
pub data Reach (m : Shared) : System → Type 0 where
  start : Reach m (record { shared = m; pc = λ i. idle })
  later : {s t : System} → Reach m s → Step s t → Reach m t

-- The threads' steps, in the order of a schedule.
unfoldable pub run : List (ℕ × Choice) → System → System
run [] s = s
run ((i, c) ∷ schedule) s = run schedule (advance i c s)

-- A thread that has won the exchange and has not counted up a second time.
abbrev pub is_reloading : Pc → Bool
is_reloading (loading now) = true
is_reloading (loaded now s3) = true
is_reloading (replacing now s3 old) = true
is_reloading (deleted now s3) = true
is_reloading (stored now s3) = true
is_reloading (timed s3) = true
is_reloading _ = false
