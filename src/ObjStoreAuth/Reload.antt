-- ===== src/ObjStoreAuth/Reload.antt =====
-- The scheduled reloads of src/obj_store_auth/obj_store_auth.cc: `cal_reload_delay`,
-- `S3Config::schedule_conf_reload`, `S3Config::check_current_action` and `config_reloader`.
pub mod Delay
pub mod Schedule
pub mod Rounds
use ats_plugin_experiment.Base.{
  ℕ, ◌+◌, ◌-◌, ◌*◌, ◌%◌, Bool, true, false, not, ◌==◌, Option, none, some, List, [], ◌∷◌, ◌++◌,
  Bytes, codes, ltb, ℤ, pos, negsuc, ◌-ℤ◌, int_eq, if◌then◌else◌,
}
use ats_plugin_experiment.ObjStoreAuth.Files.{Files}
use ats_plugin_experiment.ObjStoreAuth.Config.{
  S3Config, valid, copy_changes_from, incr_conf_reload_count, reset_conf_reload_count,
}
use ats_plugin_experiment.ObjStoreAuth.ConfigFile.{TextView}
use ats_plugin_experiment.ObjStoreAuth.ConfigCache.{Cache, get}

-- `TSActionDone`, and the action that `TSContScheduleOnPool` returns for a delay in milliseconds.
pub record Actions : Type 0 where
  pub action_done : ℕ → Bool
  pub scheduled : ℤ → ℕ

-- The configuration of a remap rule, with `_conf_rld_act`.
pub record Instance : Type 0 where
  pub s3 : S3Config
  pub conf_rld_act : Option ℕ

-- The calls that leave the plugin.
pub data Call : Type 0 where
  action_cancel : ℕ → Call
  schedule_on_pool : ℤ → Call
  error : Bytes → Call

pub data Status : Type 0 where
  ts_success : Status
  ts_error : Status

unfoldable pub cal_reload_delay : ℤ → ℤ
cal_reload_delay (pos n) =
    if ltb 3600 n then pos (n - 3600) else if ltb 900 n then pos (n - 900) else pos n
cal_reload_delay (negsuc n) = negsuc n

-- `delay * 1000`, where the product fits a `long`.
abbrev pub milliseconds : ℤ → ℤ
milliseconds (pos n) = pos (n * 1000)
milliseconds (negsuc n) = negsuc ((n + 1) * 1000 - 1)

unfoldable pub schedule_conf_reload : Actions → ℤ → Instance → Instance × List Call
schedule_conf_reload actions delay i =
    let ms = milliseconds delay in
    let cancelled : List Call = elim i.conf_rld_act [
      | none ↦ []
      | some act ↦ if not (actions.action_done act) then action_cancel act ∷ [] else []
    ] in
    (record i { conf_rld_act = some (actions.scheduled ms) }, cancelled ++ schedule_on_pool ms ∷ [])

-- `edata | 0x1`
abbrev pub tagged : ℕ → ℕ
tagged edata = if edata % 2 == 0 then edata + 1 else edata

unfoldable pub check_current_action : ℕ → Instance → Instance
check_current_action edata i = elim i.conf_rld_act [
  | none ↦ i
  | some act ↦ if act == tagged edata then record i { conf_rld_act = none } else i
]

abbrev pub is_positive : ℤ → Bool
is_positive (pos n) = ltb 0 n
is_positive (negsuc n) = false

abbrev pub retry_message : Bytes
retry_message =
    codes "tried to reload config automatically but failed, please try manual reloading the config"

abbrev pub secret_message : Bytes
secret_message = codes "requires both shared and AWS secret configuration"

-- The end of `config_reloader`, behind `copy_changes_from`, at the time `now`.
unfoldable pub reschedule : Actions → ℕ → Instance → Instance × List Call
reschedule actions now i =
    let time_diff = ◌-ℤ◌ i.s3.expiration now in
    let counted = incr_conf_reload_count i.s3 in
    let later = schedule_conf_reload actions (pos 60) (record i { s3 = counted.0 }) in
    if int_eq i.s3.expiration 0
    then (i, [])
    else if is_positive time_diff
    then schedule_conf_reload actions (cal_reload_delay time_diff)
        (record i { s3 = reset_conf_reload_count i.s3 })
    else if counted.1 == 10
    then (later.0, error retry_message ∷ later.1)
    else later

-- The same at the end of `TSRemapNewInstance`, which does not count.
unfoldable pub schedule_first : Actions → ℕ → Instance → Instance × List Call
schedule_first actions now i =
    let time_diff = ◌-ℤ◌ i.s3.expiration now in
    if int_eq i.s3.expiration 0
    then (i, [])
    else if is_positive time_diff
    then schedule_conf_reload actions (cal_reload_delay time_diff)
        (record i { s3 = reset_conf_reload_count i.s3 })
    else schedule_conf_reload actions (pos 60) i

pub record Reloaded : Type 0 where
  pub rule : Instance
  pub cache : Cache
  pub calls : List Call
  pub status : Status

module _ (tv : TextView) (files : Files) (actions : Actions) where
  -- With the configuration that the cache returned.
  unfoldable pub reload_from : ℕ → Instance → Cache → Option S3Config → Reloaded
  reload_from now i cache none = record {
    rule = i;
    cache = cache;
    calls = error secret_message ∷ [];
    status = ts_error;
  }
  reload_from now i cache (some file_config) =
      let copied = record i { s3 = copy_changes_from file_config i.s3 } in
      let planned = reschedule actions now copied in
      if not (valid file_config)
      then record { rule = i; cache = cache; calls = error secret_message ∷ []; status = ts_error }
      else record { rule = planned.0; cache = cache; calls = planned.1; status = ts_success }

  -- `none` where the configuration has no file name, and a string is built from a null pointer.
  unfoldable pub config_reloader : ℕ → ℕ → Instance → Cache → Option Reloaded
  config_reloader now edata i cache =
      let checked = check_current_action edata i in
      elim checked.s3.conf_fname [
        | none ↦ none
        | some fname ↦ some (
            reload_from now checked (get tv files now fname cache).0
              (get tv files now fname cache).1)
      ]
