-- ===== src/AwsAuthV4/Query/Order.antt =====
-- The canonical query string is in the order of the names, whatever order the tokens came in.
use ats_plugin_experiment.Base.{
  false, List, [], ◌∷◌, ◌++◌, Option, none, Bytes, ◌≡◌, ◌≢◌, refl, sym, arith, ap, ◌∙◌,
  bytes_eq_iff, getlines,
}
use ats_plugin_experiment.Containers.StringSet.{StringSet}
use ats_plugin_experiment.Containers.StringMap.{StringMap, find, index}
use ats_plugin_experiment.Containers.Extensionality.{IsSorted-ext}
use ats_plugin_experiment.AwsAuthV4.Encode.{canonical_encode}
use ats_plugin_experiment.AwsAuthV4.Query.{
  token_param, add_tokens, no_params, append_param, write_params, canonical_query,
}
use ats_plugin_experiment.AwsAuthV4.Query.Collected.{
  newer_value, last_value, is_some, add_tokens-IsConsistent, find-add_tokens,
  no_params-IsConsistent,
}

append_param-ext :
    (m n : StringMap) (out name : Bytes)
    → find m name ≡ find n name
    → append_param m out name ≡ append_param n out name
unfolding append_param index
append_param-ext m n out name h = ground arith

write_params-ext :
    (m n : StringMap) (names : StringSet) (out : Bytes)
    → ((k : Bytes) → find m k ≡ find n k)
    → write_params m names out ≡ write_params n names out
unfolding write_params
write_params-ext m n [] out h = refl
write_params-ext m n (name ∷ names) out h =
    ap (write_params m names) (append_param-ext m n out name (h name))
    ∙ write_params-ext m n names (append_param n out name) h

collected_same :
    (ts us : List Bytes)
    → ((k : Bytes) → last_value k none ts ≡ last_value k none us)
    → (k : Bytes)
    → find (add_tokens no_params ts).values k ≡ find (add_tokens no_params us).values k
collected_same ts us h k =
    find-add_tokens no_params ts k ∙ unfold find in (h k ∙ sym (find-add_tokens no_params us k))

names_same :
    (ts us : List Bytes)
    → ((k : Bytes) → last_value k none ts ≡ last_value k none us)
    → (add_tokens no_params ts).names ≡ (add_tokens no_params us).names
names_same ts us h =
    let a = add_tokens-IsConsistent no_params ts no_params-IsConsistent in
    let b = add_tokens-IsConsistent no_params us no_params-IsConsistent in
    IsSorted-ext (add_tokens no_params ts).names (add_tokens no_params us).names a.sorted b.sorted
      λ k. a.same_keys k ∙ ap is_some (collected_same ts us h k) ∙ sym (b.same_keys k)

-- The canonical query string depends only on the last value of each parameter.
pub canonical_query-last_value :
    (q r : Bytes)
    → ((k : Bytes) → last_value k none (getlines b'&' q) ≡ last_value k none (getlines b'&' r))
    → canonical_query q ≡ canonical_query r
unfolding canonical_query
canonical_query-last_value q r h =
    let ps = add_tokens no_params (getlines b'&' q) in
    let rs = add_tokens no_params (getlines b'&' r) in
    ap (λ names. write_params ps.values names []) (names_same (getlines b'&' q) (getlines b'&' r) h)
    ∙ write_params-ext ps.values rs.values rs.names []
        (collected_same (getlines b'&' q) (getlines b'&' r) h)

last_value-append :
    (k : Bytes) (o : Option Bytes) (ts us : List Bytes)
    → last_value k o (ts ++ us) ≡ last_value k (last_value k o ts) us
unfolding last_value
last_value-append k o [] us = refl
last_value-append k o (t ∷ ts) us = last_value-append k (newer_value k o t) ts us

last_value_swap :
    (k : Bytes) (o : Option Bytes) (s t : Bytes) (us : List Bytes)
    → canonical_encode (token_param s) false ≢ canonical_encode (token_param t) false
    → last_value k o (s ∷ t ∷ us) ≡ last_value k o (t ∷ s ∷ us)
unfolding last_value newer_value
last_value_swap k o s t us h =
    ap (λ p. last_value k p us)
      (ground (
        arith,
        bytes_eq_iff (canonical_encode (token_param s) false) k,
        bytes_eq_iff (canonical_encode (token_param t) false) k,
      ))

-- Two neighbouring parameters whose encoded names differ may be exchanged: the canonical query
-- string stays.
pub canonical_query_swap :
    (q r : Bytes) (us vs : List Bytes) (s t : Bytes)
    → getlines b'&' q ≡ us ++ s ∷ t ∷ vs
    → getlines b'&' r ≡ us ++ t ∷ s ∷ vs
    → canonical_encode (token_param s) false ≢ canonical_encode (token_param t) false
    → canonical_query q ≡ canonical_query r
canonical_query_swap q r us vs s t hq hr h = canonical_query-last_value q r λ k.
    rw (hq, hr, last_value-append, last_value-append)
      (last_value_swap k (last_value k none us) s t vs h)
