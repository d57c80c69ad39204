-- ===== src/HeaderAdd.antt =====
-- src/remap_header_add/remap_header_add.cc: the plugin that adds the header fields of its arguments.
pub mod Arguments
use ats_plugin_experiment.Base.{
  ℕ, suc, ◌+◌, ◌-◌, Bool, true, false, ◌&&◌, ◌==◌, ltb, Option, none, some, List, [], ◌∷◌, ◌++◌,
  Bytes, find, take, drop, length, if◌then◌else◌,
}

unfoldable pub starts_with_quote : Bytes → Bool
starts_with_quote [] = false
starts_with_quote (c ∷ s) = c == b'"'

-- The value without the quotes around it.
unfoldable pub unquote : Bytes → Bytes
unquote value =
    let val_len = length value in
    if ltb 1 val_len && starts_with_quote value && starts_with_quote (drop (val_len - 1) value)
    then take (val_len - 2) (drop 1 value)
    else value

-- `ParseArgIntoNv`: name and value, both null where the argument has no colon.
unfoldable pub parse_arg_into_nv : Bytes → Option Bytes × Option Bytes
parse_arg_into_nv arg = elim (find b':' arg) [
  | none ↦ (none, none)
  | some colon ↦ (some (take colon arg), some (unquote (drop (suc colon) arg)))
]

-- `TSRemapNewInstance`: the pairs of the arguments behind the two URLs.
unfoldable pub parse_args : List Bytes → List (Option Bytes × Option Bytes)
parse_args [] = []
parse_args (arg ∷ args) = parse_arg_into_nv arg ∷ parse_args args

unfoldable pub new_line : List Bytes → List (Option Bytes × Option Bytes)
new_line argv = parse_args (drop 2 argv)

-- The loop of `TSRemapDoRemap`, from the pair with the number `i`, on the fields of the request;
-- `created i` tells whether the field could be created. `none` where the length of a null pointer is
-- taken.
unfoldable pub attach :
    (ℕ → Bool)
    → ℕ
    → List (Option Bytes × Option Bytes)
    → List (Bytes × Bytes)
    → Option (List (Bytes × Bytes))
attach created i [] fields = some fields
attach created i ((some name, some val) ∷ nvs) fields =
    let added = attach created (i + 1) nvs (fields ++ (name, val) ∷ []) in
    let skipped = attach created (i + 1) nvs fields in if created i then added else skipped
attach created i ((some name, none) ∷ nvs) fields =
    let skipped = attach created (i + 1) nvs fields in if created i then none else skipped
attach created i ((none, val) ∷ nvs) fields =
    let skipped = attach created (i + 1) nvs fields in if created i then none else skipped
