-- ===== src/Remap.antt =====
-- The remap plugin of src/remap/remap.cc: what its static members and globals hold, and its entry
-- points. The children prove what becomes of the list of instances (Chain, Instances) and of the
-- requests (Paths, Counting).
pub mod Entries
pub mod Requests
pub mod Chain
pub mod Skip
pub mod Instances
pub mod History
pub mod Paths
pub mod Counting
use ats_plugin_experiment.Base.{
  ℕ, ◌+◌, ◌-◌, ◌<◌, Bool, true, false, ◌||◌, ◌==◌, ltb, leb, if◌then◌else◌, Option, none, some,
  List, [], ◌∷◌, Bytes, codes, take,
}

-- A `remap_entry`; `argv` is `none` for a null pointer, and `argc` is the length of the copied
-- arguments.
pub record Entry : Type 0 where
  pub next : Option ℕ
  pub argc : ℕ
  pub argv : Option (List Bytes)

-- The instances by their addresses, `active_list`, and `plugin_init_counter`.
pub record Plugin : Type 0 where
  pub entries : ℕ → Option Entry
  pub active_list : Option ℕ
  pub plugin_init_counter : ℕ

-- `TS_SUCCESS` and `TS_ERROR`.
pub data ReturnCode : Type 0 where
  success : ReturnCode
  error : ReturnCode

-- A buffer for an error message: its size, and what it holds up to the terminator.
pub record Buffer : Type 0 where
  pub size : ℕ
  pub message : Bytes

-- `err_msg_buf` is `none` for a null pointer; `text` is what the format gives, without a NUL.
unfoldable pub store_my_error_message :
    ReturnCode → Option Buffer → Bytes → ReturnCode × Option Buffer
store_my_error_message code none text = (code, none)
store_my_error_message code (some b) text =
    (code, some (if ltb 0 b.size then record b { message = take (b.size - 1) text } else b))

-- The `TSRemapInterface` that Traffic Server passes.
pub record ApiInfo : Type 0 where
  pub size : ℕ
  pub tsremap_version : ℕ

-- What the headers and the libraries decide: `sizeof(TSRemapInterface)`, `TSREMAP_VERSION`, whether
-- each mutex is initialised, and the texts of the messages that carry numbers.
pub record Host : Type 0 where
  pub interface_size : ℕ
  pub version : ℕ
  pub mutexes_ready : Bool
  pub size_text : ℕ → ℕ → Bytes
  pub version_text : ℕ → Bytes
  pub count_text : ℕ → Bytes

module _ (host : Host) where
  -- `TSRemapInit`.
  unfoldable pub remap_init :
      Option ApiInfo → Option Buffer → Plugin → (ReturnCode × Option Buffer) × Plugin
  remap_init api_info errbuf s =
      let reject : Bytes → (ReturnCode × Option Buffer) × Plugin =
        λ text. (store_my_error_message error errbuf text, s) in
      if s.plugin_init_counter == 0
      then elim api_info [
        | none ↦ reject (codes "Invalid TSRemapInterface argument")
        | some api ↦
            if ltb api.size host.interface_size
            then reject (host.size_text api.size host.interface_size)
            else if ltb api.tsremap_version host.version
            then reject (host.version_text api.tsremap_version)
            else if host.mutexes_ready
            then ((success, errbuf), record s { plugin_init_counter = s.plugin_init_counter + 1 })
            else reject (codes "Mutex initialization error")
      ]
      else ((success, errbuf), s)
