-- ===== src/Tests/HeaderAdd.antt =====
-- The theorems on src/remap_header_add/remap_header_add.cc at concrete inputs.
use ats_plugin_experiment.Base.{true, some, [], ◌∷◌, codes, ◌≡◌, refl, arith}
use ats_plugin_experiment.HeaderAdd.{new_line, attach}
use ats_plugin_experiment.HeaderAdd.Arguments.{quoted_args, attach-new_line}

attach-new_line_example :
    attach
      (λ i. true)
      0
      (new_line (codes "f" ∷ codes "t" ∷ quoted_args ((codes "a", codes "1:2") ∷ [])))
      ((codes "h", codes "x") ∷ [])
    ≡ some ((codes "h", codes "x") ∷ (codes "a", codes "1:2") ∷ [])
attach-new_line_example =
    attach-new_line (λ i. true) (codes "f") (codes "t") ((codes "a", codes "1:2") ∷ [])
      ((codes "h", codes "x") ∷ []) (λ j. refl) (ground arith, tt)
