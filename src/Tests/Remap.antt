-- ===== src/Tests/Remap.antt =====
-- The theorems on src/remap/remap.cc at concrete inputs.
use ats_plugin_experiment.Base.{true, none, some, List, [], ◌∷◌, codes, ◌/◌, ◌≡◌, refl, arith}
use ats_plugin_experiment.Remap.{Plugin, Host}
use ats_plugin_experiment.Remap.Instances.{IsRegistry}
use ats_plugin_experiment.Remap.History.{
  RuleEvent, loads, drops, run_rules, ledger, run_rules-IsRegistry,
}
use ats_plugin_experiment.Remap.Requests.{RequestInfo, Api, RemapStatus, remap_hardcoded}
use ats_plugin_experiment.Remap.Paths.{IsOutcome, remap_hardcoded-IsOutcome}
use ats_plugin_experiment.Remap.Counting.{statuses, every_other, statuses-every_other}

abbrev toy_host : Host
toy_host = record {
  interface_size = 16;
  version = 2;
  mutexes_ready = true;
  size_text = λ a b. [];
  version_text = λ v. [];
  count_text = λ n. [];
}

-- The plugin after `TSRemapInit`.
abbrev toy_plugin : Plugin
toy_plugin = record { entries = λ p. none; active_list = none; plugin_init_counter = 1 }

toy-IsRegistry : IsRegistry toy_plugin []
toy-IsRegistry = record { ready = ground arith; chain = refl; apart = tt; only = λ q away. refl }

abbrev toy_rules : List RuleEvent
toy_rules =
    loads 2 (codes "f" ∷ codes "t" ∷ []) 16
    ∷ loads 3 (codes "f" ∷ codes "t" ∷ codes "x" ∷ []) 32
    ∷ drops 16
    ∷ []

run_rules-IsRegistry_example :
    (t : Plugin) × (run_rules toy_host 4 toy_rules toy_plugin ≡ some t)
    × IsRegistry t (ledger toy_rules [])
run_rules-IsRegistry_example =
    run_rules-IsRegistry toy_host 3 toy_rules [] toy_plugin (omega arith)
      (omega arith, tt, (omega arith, (ground arith, tt), (ground arith, tt))) toy-IsRegistry

-- The setters all succeed.
abbrev willing : Api
willing = record { slot_reserved = true; port_set = true; host_set = true; path_set = true }

abbrev toy_request : RequestInfo
toy_request = record { host = codes "flickr.com"; path = codes "47/a"; port = 80; map_to_port = 80 }

remap_hardcoded-IsOutcome_example :
    (status : RemapStatus) × (left : RequestInfo) × (remap_hardcoded willing toy_request
      ≡ some (status, left))
    × IsOutcome willing toy_request status left
remap_hardcoded-IsOutcome_example = remap_hardcoded-IsOutcome willing toy_request

statuses-every_other_example :
    statuses
      ((toy_request, willing) ∷ (toy_request, willing) ∷ [])
      (record { processing_counter = 5; my_local_counter = 5 / 2 })
    ≡ some (every_other 2 5)
statuses-every_other_example =
    statuses-every_other ((toy_request, willing) ∷ (toy_request, willing) ∷ []) 5 (omega arith)
