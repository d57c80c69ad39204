-- ===== src/ObjStoreAuth/Remap.antt =====
-- The functions of src/obj_store_auth/obj_store_auth.cc that the server calls: `event_handler`,
-- `TSRemapNewInstance` and `TSRemapDoRemap`.
pub mod Requests
pub mod Creation
use ats_plugin_experiment.Base.{
  ℕ, Bool, true, false, not, Option, none, some, List, [], ◌∷◌, ◌++◌, Bytes, codes, if◌then◌else◌,
}
use ats_plugin_experiment.AwsAuthV4.Sodium.{Sodium}
use ats_plugin_experiment.ObjStoreAuth.Files.{Files, make_config_path}
use ats_plugin_experiment.ObjStoreAuth.Config.{
  S3Config, new_config, valid, set_secret, set_keyid, set_token, set_virt_host, set_version,
  set_include_headers, set_exclude_headers, set_region_map, copy_changes_from,
}
use ats_plugin_experiment.ObjStoreAuth.ConfigFile.{TextView}
use ats_plugin_experiment.ObjStoreAuth.ConfigCache.{Cache, get}
use ats_plugin_experiment.ObjStoreAuth.Reload.{
  Actions, Instance, Call, error, secret_message, schedule_first,
}
use ats_plugin_experiment.ObjStoreAuth.S3Request.{
  Mime, HttpStatus, ok, internal_server_error, authorize,
}

pub data Event : Type 0 where
  send_request_hdr : Event
  other_event : Event

pub data EnableEvent : Type 0 where
  http_continue : EnableEvent
  http_error : EnableEvent

-- The header, the status that is set on the transaction, and the event it is enabled with.
pub record Handled (H : Type 0) : Type 0 where
  pub header : H
  pub status_set : Option HttpStatus
  pub enable_event : EnableEvent

unfoldable pub answer : {H : Type 0} → H × HttpStatus → Handled H
answer (h, ok) = record { header = h; status_set = none; enable_event = http_continue }
answer (h, internal_server_error) = record {
  header = h;
  status_set = some internal_server_error;
  enable_event = http_error;
}

module _ {H L : Type 0} (mime : Mime H L) (sodium : Sodium) where
  -- `initialized` is what `S3Request::initialize` returns.
  unfoldable pub event_handler :
      ℕ → Bytes → Option Bytes → Bool → Bool → S3Config → Event → H → Option (Handled H)
  event_handler rounds date_time stored committed initialized s3 other_event h =
      some (record { header = h; status_set = none; enable_event = http_continue })
  event_handler rounds date_time stored committed initialized s3 send_request_hdr h =
      let signed = authorize mime sodium rounds date_time stored committed s3 h in
      elim (if initialized then signed else some (h, internal_server_error)) [
        | none ↦ none
        | some result ↦ some (answer result)
      ]

-- `TSRemapDoRemap`: the hook for the rule's continuation is added, or the status is set; the remap
-- itself is never done.
unfoldable pub remap_do_remap : Option Instance → Bool × Option HttpStatus
remap_do_remap (some i) = (true, none)
remap_do_remap none = (false, some internal_server_error)

-- What `getopt_long` finds, by its long name; any other result is ignored.
pub data Opt : Type 0 where
  config : Bytes → Opt
  access_key : Bytes → Opt
  secret_key : Bytes → Opt
  session_token : Bytes → Opt
  virtual_host : Opt
  version : Bytes → Opt
  v4_include_headers : Bytes → Opt
  v4_exclude_headers : Bytes → Opt
  v4_region_map : Bytes → Opt
  config_path : Bytes → Opt
  ignored : Opt

-- The locals of the loop over the options, with the cache.
pub record Options : Type 0 where
  pub s3 : S3Config
  pub file_config : Option S3Config
  pub lmdb_path : Bytes
  pub cache : Cache

pub record Created : Type 0 where
  pub rule : Option Instance
  pub calls : List Call

abbrev pub no_options : Cache → Options
no_options cache = record { s3 = new_config; file_config = none; lmdb_path = []; cache = cache }

unfoldable pub merged : Option S3Config → S3Config → S3Config
merged none s3 = s3
merged (some file_config) s3 = copy_changes_from file_config s3

module _ (tv : TextView) (files : Files) (now : ℕ) where
  -- `none` for a configuration that the cache does not have, behind which the function returns.
  unfoldable pub apply_opt : Opt → Options → Option Options
  apply_opt (config fname) o =
      let got = get tv files now fname o.cache in
      elim got.1 [ none ↦ none | some s ↦ some (record o { file_config = some s; cache = got.0 }) ]
  apply_opt (access_key s) o = some (record o { s3 = set_keyid s o.s3 })
  apply_opt (secret_key s) o = some (record o { s3 = set_secret s o.s3 })
  apply_opt (session_token s) o = some (record o { s3 = set_token s o.s3 })
  apply_opt virtual_host o = some (record o { s3 = set_virt_host o.s3 })
  apply_opt (version s) o = some (record o { s3 = set_version s o.s3 })
  apply_opt (v4_include_headers s) o = some (record o { s3 = set_include_headers s o.s3 })
  apply_opt (v4_exclude_headers s) o = some (record o { s3 = set_exclude_headers s o.s3 })
  apply_opt (v4_region_map s) o = some (record o { s3 = set_region_map files s o.s3 })
  apply_opt (config_path s) o = some (record o { lmdb_path = make_config_path files s })
  apply_opt ignored o = some o

  unfoldable pub apply_opts : List Opt → Options → Option Options
  apply_opts [] o = some o
  apply_opts (opt ∷ opts) o = elim (apply_opt opt o) [ none ↦ none | some p ↦ apply_opts opts p ]

  -- Behind the loop. `opened` tells whether `doOpenLmdbDb`, called once in a process, ends without an
  -- exception.
  unfoldable pub create_from : Actions → (Bytes → Bool) → Option Options → Created
  create_from actions opened none = record {
    rule = none;
    calls = error (codes "invalid configuration file") ∷ [];
  }
  create_from actions opened (some o) =
      let s3 = merged o.file_config o.s3 in
      let first = schedule_first actions now (record { s3 = s3; conf_rld_act = none }) in
      if not (opened o.lmdb_path)
      then record { rule = none; calls = error (codes "lmdb error") ∷ [] }
      else if not (valid s3)
      then record { rule = none; calls = error secret_message ∷ [] }
      else record { rule = some first.0; calls = first.1 }

  unfoldable pub remap_new_instance : Actions → (Bytes → Bool) → List Opt → Cache → Created
  remap_new_instance actions opened opts cache =
      create_from actions opened (apply_opts opts (no_options cache))
