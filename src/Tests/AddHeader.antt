-- ===== src/Tests/AddHeader.antt =====
-- The theorems on src/add_header/add_header.cc at concrete inputs.
use ats_plugin_experiment.Base.{
  ℕ, zero, suc, true, false, some, List, [], ◌∷◌, ◌++◌, Bytes, codes, map, ◌≡◌, refl, arith,
}
use ats_plugin_experiment.AddHeader.{plugin_init, Copying, Request, add_header}
use ats_plugin_experiment.AddHeader.Delivery.{
  all_made, all_copied, upto_failure, print_arg, field_of, IsSettled, add_header-plugin_init,
  add_header-IsSettled,
}

abbrev toy_request : Request
toy_request = record {
  fields = record { name = codes "Host"; value = some (codes "h") } ∷ [];
  fetched = 0;
  let_go = 0;
  made = 0;
  made_let_go = 0;
}

abbrev toy_pairs : List (Bytes × Bytes)
toy_pairs = (codes "a", codes "1") ∷ (codes "b", codes "2") ∷ []

add_header-plugin_init_example :
    (add_header true
      (λ i. all_copied)
      (plugin_init true true (λ i. all_made) (codes "p" ∷ map print_arg toy_pairs)).0
      toy_request).fields
    ≡ toy_request.fields ++ upto_failure (λ i. all_copied) 0 (map field_of toy_pairs)
add_header-plugin_init_example =
    add_header-plugin_init (λ i. all_copied) (codes "p") toy_pairs toy_request
      (ground arith, (ground arith, tt))

-- The copy of the second field fails.
abbrev toy_failures : ℕ → Copying
toy_failures zero = all_copied
toy_failures (suc i) = record { created = true; copied = false; appended = true }

add_header-IsSettled_example :
    IsSettled 1 (add_header true toy_failures (map field_of toy_pairs) toy_request)
add_header-IsSettled_example =
    add_header-IsSettled true toy_failures (map field_of toy_pairs) toy_request refl refl
