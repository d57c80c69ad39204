-- ===== src/AwsAuthV4/Defaults.antt =====
-- `createDefaultRegionMap`, `createDefaultExcludeHeaders` and `createDefaultIncludeHeaders` of
-- src/obj_store_auth/aws_auth_v4.cc.
pub mod Buckets
use ats_plugin_experiment.Base.{String, List, [], ◌∷◌, Bytes, codes}
use ats_plugin_experiment.Containers.StringSet.{StringSet, insert}
use ats_plugin_experiment.Containers.StringMap.{StringMap, assign}

-- The assignments, in the order of the source.
abbrev pub default_entries : List (String × String)
default_entries =
    ("s3.us-east-2.amazonaws.com", "us-east-2")
    ∷ ("s3-us-east-2.amazonaws.com", "us-east-2")
    ∷ ("s3.dualstack.us-east-2.amazonaws.com", "us-east-2")
    ∷ ("s3.amazonaws.com", "us-east-1")
    ∷ ("s3.us-east-1.amazonaws.com", "us-east-1")
    ∷ ("s3-external-1.amazonaws.com", "us-east-1")
    ∷ ("s3.dualstack.us-east-1.amazonaws.com", "us-east-1")
    ∷ ("s3.us-west-1.amazonaws.com", "us-west-1")
    ∷ ("s3-us-west-1.amazonaws.com", "us-west-1")
    ∷ ("s3.dualstack.us-west-1.amazonaws.com", "us-west-1")
    ∷ ("s3.us-west-2.amazonaws.com", "us-west-2")
    ∷ ("s3-us-west-2.amazonaws.com", "us-west-2")
    ∷ ("s3.dualstack.us-west-2.amazonaws.com", "us-west-2")
    ∷ ("s3.ap-south-1.amazonaws.com", "ap-south-1")
    ∷ ("s3-ap-south-1.amazonaws.com", "ap-south-1")
    ∷ ("s3.dualstack.ap-south-1.amazonaws.com", "ap-south-1")
    ∷ ("s3.ap-northeast-3.amazonaws.com", "ap-northeast-3")
    ∷ ("s3-ap-northeast-3.amazonaws.com", "ap-northeast-3")
    ∷ ("s3.dualstack.ap-northeast-3.amazonaws.com", "ap-northeast-3")
    ∷ ("s3.ap-northeast-2.amazonaws.com", "ap-northeast-2")
    ∷ ("s3-ap-northeast-2.amazonaws.com", "ap-northeast-2")
    ∷ ("s3.dualstack.ap-northeast-2.amazonaws.com", "ap-northeast-2")
    ∷ ("s3.ap-southeast-1.amazonaws.com", "ap-southeast-1")
    ∷ ("s3-ap-southeast-1.amazonaws.com", "ap-southeast-1")
    ∷ ("s3.dualstack.ap-southeast-1.amazonaws.com", "ap-southeast-1")
    ∷ ("s3.ap-southeast-2.amazonaws.com", "ap-southeast-2")
    ∷ ("s3-ap-southeast-2.amazonaws.com", "ap-southeast-2")
    ∷ ("s3.dualstack.ap-southeast-2.amazonaws.com", "ap-southeast-2")
    ∷ ("s3.ap-northeast-1.amazonaws.com", "ap-northeast-1")
    ∷ ("s3-ap-northeast-1.amazonaws.com", "ap-northeast-1")
    ∷ ("s3.dualstack.ap-northeast-1.amazonaws.com", "ap-northeast-1")
    ∷ ("s3.ca-central-1.amazonaws.com", "ca-central-1")
    ∷ ("s3-ca-central-1.amazonaws.com", "ca-central-1")
    ∷ ("s3.dualstack.ca-central-1.amazonaws.com", "ca-central-1")
    ∷ ("s3.cn-north-1.amazonaws.com.cn", "cn-north-1")
    ∷ ("s3.cn-northwest-1.amazonaws.com.cn", "cn-northwest-1")
    ∷ ("s3.eu-central-1.amazonaws.com", "eu-central-1")
    ∷ ("s3-eu-central-1.amazonaws.com", "eu-central-1")
    ∷ ("s3.dualstack.eu-central-1.amazonaws.com", "eu-central-1")
    ∷ ("s3.eu-west-1.amazonaws.com", "eu-west-1")
    ∷ ("s3-eu-west-1.amazonaws.com", "eu-west-1")
    ∷ ("s3.dualstack.eu-west-1.amazonaws.com", "eu-west-1")
    ∷ ("s3.eu-west-2.amazonaws.com", "eu-west-2")
    ∷ ("s3-eu-west-2.amazonaws.com", "eu-west-2")
    ∷ ("s3.dualstack.eu-west-2.amazonaws.com", "eu-west-2")
    ∷ ("s3.eu-west-3.amazonaws.com", "eu-west-3")
    ∷ ("s3-eu-west-3.amazonaws.com", "eu-west-3")
    ∷ ("s3.dualstack.eu-west-3.amazonaws.com", "eu-west-3")
    ∷ ("s3.sa-east-1.amazonaws.com", "sa-east-1")
    ∷ ("s3-sa-east-1.amazonaws.com", "sa-east-1")
    ∷ ("s3.dualstack.sa-east-1.amazonaws.com", "sa-east-1")
    ∷ ("", "us-east-1")
    ∷ []

unfoldable pub assign_all : StringMap → List (String × String) → StringMap
assign_all m [] = m
assign_all m ((entry_point, region) ∷ entries) =
    assign_all (assign (codes entry_point) (codes region) m) entries

unfoldable pub create_default_region_map : StringMap
unfolding assign_all assign
create_default_region_map = assign_all [] default_entries

unfoldable pub create_default_exclude_headers : StringSet
unfolding insert
create_default_exclude_headers =
    insert (codes "via") (insert (codes "forwarded") (insert (codes "x-forwarded-for") []))

unfoldable pub create_default_include_headers : StringSet
create_default_include_headers = []
