-- ===== src/Tests/TsApi.antt =====
-- The theorem on src/obj_store_auth/aws_auth_v4_wrap.h at a concrete request.
use ats_plugin_experiment.Base.{
  ◌==◌, none, some, [], ◌∷◌, codes, map, if◌then◌else◌, ◌≡◌, refl, arith,
}
use ats_plugin_experiment.AwsAuthV4.TsApi.{Api, each_field, header_end, field_at, each_field_lem}

-- A header with the fields 3 and 4.
abbrev toy_server : Api
toy_server = record {
  method_get = λ b h. codes "GET";
  host_get = λ b h. codes "h";
  path_get = λ b u. [];
  params_get = λ b u. [];
  query_get = λ b u. [];
  field_get = λ b h. some 3;
  field_next = λ b h loc. if loc == 3 then some 4 else none;
  name_get = λ b h loc. some (codes "n");
  value_get = λ b h loc. loc ∷ [];
}

each_field_lem_example :
    each_field toy_server 3
      (record { bufp = 1; hdrs = 2; field = some 3 })
      (header_end toy_server 1 2)
    ≡ some (map (field_at toy_server 1 2) (3 ∷ 4 ∷ []), 3 ∷ 4 ∷ [])
each_field_lem_example =
    each_field_lem toy_server 2 1 2 (some 3) (3 ∷ 4 ∷ []) (omega arith) (refl, (refl, refl))
