-- ===== src/Tests/Plugin.antt =====
-- The theorems on src/obj_store_auth/obj_store_auth.cc and src/lmdb_setup/lmdb_setup.cc at concrete
-- inputs.
use ats_plugin_experiment.Base.{
  List, inl, inr, ℕ, ◌+◌, ◌<◌, ◌-◌, Bool, true, false, Option, none, some, List, [], ◌∷◌, ◌++◌,
  Bytes, codes, length, bytes_eq, is_empty, getlines, if◌then◌else◌, ℤ, pos, ◌-ℤ◌, is_space, strtol,
  strtol_signed, to_int, digits_value, is_digit, take, drop, find, ◌≡◌, ◌≢◌, refl, arith,
}
use ats_plugin_experiment.Containers.StringMap
use ats_plugin_experiment.AwsAuthV4.Region.{get_region, find_last, rfind, region_loop}
use ats_plugin_experiment.AwsAuthV4.Request.{get_payload_sha256}
use ats_plugin_experiment.AwsAuthV4.Authorization.{
  new_aws_auth_v4, get_payload_hash, authorization_header_in, get_authorization_header,
}
use ats_plugin_experiment.ObjStoreAuth.Files.{make_config_path}
use ats_plugin_experiment.ObjStoreAuth.RegionMap.{load_region_map}
use ats_plugin_experiment.ObjStoreAuth.RegionMap.Default.{
  last_region, all_well_formed, load_region_map_lem,
}
use ats_plugin_experiment.ObjStoreAuth.Config.{
  S3Config, new_config, valid, set_secret, set_keyid, set_version,
}
use ats_plugin_experiment.ObjStoreAuth.ConfigFile.{is_comment, parse_config}
use ats_plugin_experiment.ObjStoreAuth.ConfigFile.Settings.{
  Setting, version, session_token, unknown, AreSettings, print_settings, perform_all,
  parse_config-print_settings,
}
use ats_plugin_experiment.ObjStoreAuth.ConfigCache.{ConfigData, Cache, get}
use ats_plugin_experiment.ObjStoreAuth.ConfigCache.Entries.{AreCached, OptionNamed, get-AreCached}
use ats_plugin_experiment.ObjStoreAuth.Reload.{
  Reloaded, cal_reload_delay, reschedule, schedule_first, config_reloader,
}
use ats_plugin_experiment.ObjStoreAuth.Reload.Delay.{headroom, cal_reload_delay-headroom}
use ats_plugin_experiment.ObjStoreAuth.Reload.Schedule.{Schedules, reschedule_future}
use ats_plugin_experiment.ObjStoreAuth.Reload.Rounds.{IsUsable, IsRound, config_reloader-IsRound}
use ats_plugin_experiment.ObjStoreAuth.Credentials.{find_from, parse_user_config}
use ats_plugin_experiment.ObjStoreAuth.Credentials.RoundTrip.{record_text}
use ats_plugin_experiment.ObjStoreAuth.S3Request.{
  set_header, create_field, set_token_header, set_authorization, sign_request, auth_of,
  authorize_v4, authorize,
}
use ats_plugin_experiment.ObjStoreAuth.S3Request.Signed.{IsLetThrough, authorize-ok}
use ats_plugin_experiment.ObjStoreAuth.S3Request.SetHeader.{set_header-found}
use ats_plugin_experiment.ObjStoreAuth.Remap.{
  Handled, http_continue, event_handler, answer, Opt, secret_key, access_key, version, apply_opt,
  apply_opts, merged, create_from, remap_new_instance,
}
use ats_plugin_experiment.ObjStoreAuth.Remap.Requests.{event_handler-continue}
use ats_plugin_experiment.ObjStoreAuth.Remap.Creation.{IsReady, remap_new_instance-IsReady}
use ats_plugin_experiment.Tests.Values.{
  toy_sodium, toy_view, toy_files, toy_config, toy_rule, toy_actions, counting_mime, list_mime,
  Fields, next_of-set_value, next_of-take_out,
}

load_region_map_lem_example :
    ((k : Bytes)
      → StringMap.find (load_region_map (toy_files (codes "a: b")) [] (codes "f")).0 k
        ≡ last_region k
            (if bytes_eq [] k then some [] else StringMap.find [] k)
            (getlines 10 (codes "a: b")))
    × ((load_region_map (toy_files (codes "a: b")) [] (codes "f")).1
        ≡ all_well_formed (getlines 10 (codes "a: b")))
unfolding bytes_eq make_config_path
load_region_map_lem_example =
    load_region_map_lem (toy_files (codes "a: b")) [] (codes "f") (codes "a: b") refl

abbrev toy_text : Bytes
toy_text = codes "version=4\n"

abbrev toy_settings : List Setting
toy_settings = version (codes "4") ∷ session_token [] ∷ unknown (codes "k") (codes "v w") ∷ []

toy-AreSettings : AreSettings toy_settings
unfolding is_space is_comment bytes_eq
toy-AreSettings = (
  record { solid = inr (refl, refl); one_line = ground arith },
  (
    record { solid = inl refl; one_line = tt },
    (
      (
        record {
          starts = refl;
          ends = refl;
          no_comment = refl;
          without_equals = ground arith;
          one_line = ground arith;
        },
        (
          (refl, (refl, (refl, (refl, (refl, (refl, (refl, (refl, (refl, tt))))))))),
          record { solid = inr (refl, refl); one_line = ground arith },
        ),
      ),
      tt,
    ),
  ),
)

parse_config-print_settings_example :
    parse_config toy_view (toy_files (print_settings toy_settings)) (codes "/c/f") new_config
    ≡ (perform_all (toy_files (print_settings toy_settings)) toy_settings new_config, true)
unfolding bytes_eq
parse_config-print_settings_example =
    parse_config-print_settings toy_view (toy_files (print_settings toy_settings)) (codes "/c/f")
      toy_settings new_config refl toy-AreSettings refl

abbrev toy_data : ConfigData
toy_data = record { update_status = 2; config = some toy_config; load_time = 1000 }

abbrev toy_cache : Cache
toy_cache = (codes "/c/f", toy_data) ∷ []

toy_config-IsUsable : IsUsable toy_config
unfolding valid
toy_config-IsUsable = record {
  named = record {
    named = (codes "f", refl);
    sized = record { secret_sized = refl; keyid_sized = refl; token_sized = refl };
  };
  usable = refl;
}

toy_cache-AreCached : AreCached toy_cache
toy_cache-AreCached = (record { idle = refl; holds = toy_config-IsUsable.named }, tt)

get-AreCached_example :
    AreCached (get toy_view (toy_files toy_text) 2000 (codes "f") toy_cache).0
    × OptionNamed (get toy_view (toy_files toy_text) 2000 (codes "f") toy_cache).1
get-AreCached_example =
    get-AreCached toy_view (toy_files toy_text) (codes "f") 2000 toy_cache toy_cache-AreCached

cal_reload_delay-headroom_example :
    (d : ℕ) × (cal_reload_delay (pos 5000) ≡ pos d) × (0 < d) × (d + headroom 5000 ≡ 5000)
cal_reload_delay-headroom_example = cal_reload_delay-headroom 5000 (ground arith)

reschedule_future_example :
    (d : ℕ) × (Schedules toy_actions d (reschedule toy_actions 4000 toy_rule))
    × (0 < d)
    × (4000 + d + headroom (9000 - 4000) ≡ 9000)
    × ((reschedule toy_actions 4000 toy_rule).0.s3.conf_reload_count ≡ 0)
reschedule_future_example = reschedule_future toy_actions 4000 toy_rule 9000 refl (ground arith)

config_reloader-IsRound_example :
    (r : Reloaded) × (config_reloader toy_view
        (toy_files toy_text)
        toy_actions
        2000
        4
        toy_rule
        toy_cache
      ≡ some r)
    × IsRound r
config_reloader-IsRound_example =
    config_reloader-IsRound toy_view (toy_files toy_text) toy_actions 2000 4 toy_rule toy_cache
      toy_config-IsUsable toy_cache-AreCached

abbrev toy_record : Bytes
toy_record = record_text (codes "b") (codes "e") (codes "r") (codes "AK") (codes "SK")

abbrev toy_fields : Fields
toy_fields = (4, codes "x") ∷ (5, codes "y") ∷ (6, codes "z") ∷ []

set_header-found_example :
    set_header list_mime 3 (codes "a") (codes "v") toy_fields ≡ some ((4, codes "v") ∷ [], true)
set_header-found_example =
    set_header-found list_mime
      (record {
        next_dup-set = λ h l m v. next_of-set_value h l m v;
        next_dup-destroy = next_of-take_out;
      })
      3 (codes "a") (codes "v") toy_fields 4 (5 ∷ 6 ∷ []) refl refl (refl, (refl, refl))
      (((λ e. absurd (omega (arith, e))), tt), (tt, tt)) (ground arith)

authorize-ok_example :
    IsLetThrough counting_mime toy_sodium 20
      (codes "20240102T030405Z")
      toy_config
      (some toy_record)
      0
      3
unfolding authorize authorize_v4 parse_user_config find_from ats_plugin_experiment.Base.find
    sign_request set_header create_field set_token_header set_authorization get_payload_hash
    get_payload_sha256 get_authorization_header get_region find_last rfind region_loop
    new_aws_auth_v4 auth_of StringMap.find bytes_eq authorization_header_in
authorize-ok_example =
    authorize-ok counting_mime toy_sodium 20 (codes "20240102T030405Z") toy_config (some toy_record)
      true 0 3 refl

abbrev toy_done : Handled ℕ
toy_done = record { header = 3; status_set = none; enable_event = http_continue }

event_handler-continue_example :
    (true ≡ true)
    × (toy_done.status_set ≡ none)
    × IsLetThrough counting_mime toy_sodium 20
        (codes "20240102T030405Z")
        toy_config
        (some toy_record)
        0
        3
unfolding event_handler answer authorize authorize_v4 parse_user_config find_from
    ats_plugin_experiment.Base.find sign_request set_header create_field set_token_header
    set_authorization get_payload_hash get_payload_sha256 get_authorization_header get_region
    find_last rfind region_loop new_aws_auth_v4 auth_of StringMap.find bytes_eq
    authorization_header_in
event_handler-continue_example =
    event_handler-continue counting_mime toy_sodium 20 (codes "20240102T030405Z") (some toy_record)
      true true toy_config 0 toy_done refl refl

abbrev made_options : List Opt
made_options = secret_key (codes "SK") ∷ access_key (codes "AK") ∷ version (codes "4") ∷ []

abbrev made_config : S3Config
made_config = record new_config {
  secret = some (codes "SK");
  secret_len = 2;
  keyid = some (codes "AK");
  keyid_len = 2;
  version = pos 4;
  version_modified = true;
}

remap_new_instance-IsReady_example : IsReady made_config
unfolding remap_new_instance create_from apply_opts apply_opt merged set_secret set_keyid
    set_version strtol strtol_signed digits_value to_int is_space valid schedule_first
remap_new_instance-IsReady_example =
    remap_new_instance-IsReady toy_view (toy_files []) 0 toy_actions (λ p. true) made_options []
      (record { s3 = made_config; conf_rld_act = none }) tt refl
