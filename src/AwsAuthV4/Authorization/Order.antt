-- ===== src/AwsAuthV4/Authorization/Order.antt =====
-- The Authorization header does not depend on the order in which different headers arrive.
use ats_plugin_experiment.Base.{Option, none, some, List, Bytes}
use ats_plugin_experiment.Containers.StringSet.{StringSet}
use ats_plugin_experiment.AwsAuthV4.Sodium.{Sodium}
use ats_plugin_experiment.AwsAuthV4.Headers.{HeaderField}
use ats_plugin_experiment.AwsAuthV4.Authorization.{AwsAuthV4}

-- The same request with other header fields.
abbrev pub with_headers : AwsAuthV4 → List HeaderField → AwsAuthV4
with_headers auth fs = record auth { api = record auth.api { headers = fs } }

abbrev map_region : Option Bytes → (Bytes → Bytes) → Option Bytes
map_region o header = elim o [ none ↦ none | some region ↦ some (header region) ]
