-- ===== src/ObjStoreAuth/Files.antt =====
-- The files that the plugin reads, and `makeConfigPath` of src/obj_store_auth/obj_store_auth.cc.
use ats_plugin_experiment.Base.{Option, [], ◌∷◌, ◌++◌, ◌==◌, Bytes, codes, if◌then◌else◌}

-- The environment: `TSConfigDirGet`, and what `std::ifstream` reads from a path; `none` where the
-- file cannot be opened.
pub record Files : Type 0 where
  pub config_dir : Bytes
  pub read : Bytes → Option Bytes

unfoldable pub make_config_path : Files → Bytes → Bytes
make_config_path files [] = []
make_config_path files (c ∷ path) =
    if c == b'/' then c ∷ path else files.config_dir ++ codes "/" ++ c ∷ path

-- A C string: what stands in front of the first zero byte.
unfoldable pub c_str : Bytes → Bytes
c_str [] = []
c_str (c ∷ s) = let rest = c_str s in if c == 0 then [] else c ∷ rest
