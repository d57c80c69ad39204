-- ===== src/Tests/Cache.antt =====
-- The theorems on the threads of `ConfigCache` and on what it promises, of
-- src/obj_store_auth/obj_store_auth.cc, at concrete inputs.
use ats_plugin_experiment.Base.{some, List, [], ◌∷◌, codes, ◌≡◌, arith}
use ats_plugin_experiment.ObjStoreAuth.ConfigCache.Refinement.{
  Lookup, get_all, reply_all, view, get_all-reply_all,
}
use ats_plugin_experiment.ObjStoreAuth.ConfigCache.Threads.{
  returned, Choice, System, advance, Reach, start, later, pick,
}
use ats_plugin_experiment.ObjStoreAuth.ConfigCache.Threads.Exclusion.{
  IsExclusive, Reach-IsExclusive,
}
use ats_plugin_experiment.ObjStoreAuth.ConfigCache.Threads.Dangling.{at_rest, returned_dangling}
use ats_plugin_experiment.Tests.Values.{toy_view, toy_files}

abbrev two_requests : List Lookup
two_requests =
    record { files = toy_files (codes "version=4\n"); now = 5; fname = codes "f" }
    ∷ record { files = toy_files (codes "version=2\n"); now = 90; fname = codes "f" }
    ∷ []

get_all-reply_all_example :
    get_all toy_view two_requests [] ≡ reply_all toy_view two_requests (view [])
get_all-reply_all_example = get_all-reply_all toy_view two_requests [] tt

abbrev noon : Choice
noon = record { now = 720; parsed = some 2 }

abbrev resting : System
resting = at_rest 1 600

Reach-IsExclusive_example : IsExclusive (advance 3 noon (advance 0 noon resting))
Reach-IsExclusive_example =
    Reach-IsExclusive resting.shared (advance 3 noon (advance 0 noon resting)) (ground arith)
      (later (later start (pick 0 noon)) (pick 3 noon))

returned_dangling_example :
    (s : System) × Reach (at_rest 8 600).shared s
    × (s.pc 1 ≡ returned (some 8))
    × (s.shared.freed ≡ 8 ∷ [])
returned_dangling_example = returned_dangling 8 9 600
