-- ===== src/ObjStoreAuth/Credentials/RoundTrip.antt =====
-- What the setup program stores is what the plugin reads.
use ats_plugin_experiment.Base.{
  ℕ, ◌+◌, ◌-◌, some, [], ◌∷◌, ◌++◌, ◌≡◌, refl, ap, ◌∙◌, arith, Bytes, Lacks, find-append, drop,
  length, append-nil, append_assoc, take-length, drop-length, length-append,
}
use ats_plugin_experiment.ObjStoreAuth.Credentials.{
  find_from, substr, parse_user_config, BufferWriter, credential_value,
}

-- A tab that ends a field is found from the field's beginning.
find_from-field :
    (front field rest : Bytes)
    → Lacks 9 field
    → find_from 9 (length front) (front ++ (field ++ 9 ∷ rest)) ≡ some (length front + length field)
unfolding find_from
find_from-field front field rest h =
    rw (drop-length front (field ++ 9 ∷ rest), find-append 9 field rest h) refl

-- The front that ends behind the tab.
abbrev upto : Bytes → Bytes → Bytes
upto front field = front ++ (field ++ 9 ∷ [])

length-upto : (front field : Bytes) → length (upto front field) ≡ length front + length field + 1
length-upto front field =
    length-append front (field ++ 9 ∷ [])
    ∙ ap (λ n. length front + n) (length-append field (9 ∷ []))
    ∙ omega arith

upto-split : (front field rest : Bytes) → front ++ (field ++ 9 ∷ rest) ≡ upto front field ++ rest
upto-split front field rest =
    cc (append_assoc front (field ++ 9 ∷ []) rest, append_assoc field (9 ∷ []) rest)

abbrev pub record_text : Bytes → Bytes → Bytes → Bytes → Bytes → Bytes
record_text bucket endpoint region access_key secret_key =
    bucket ++ (9 ∷ endpoint ++ (9 ∷ region ++ (9 ∷ access_key ++ (9 ∷ secret_key))))

find_from_split :
    (front field rest text : Bytes) (n : ℕ)
    → Lacks 9 field
    → text ≡ front ++ (field ++ 9 ∷ rest)
    → n ≡ length front
    → find_from 9 n text ≡ some (n + length field)
find_from_split front field rest text n h t e = rw (t, e) (find_from-field front field rest h)

parse_by_positions :
    (text access secret : Bytes) (n1 n2 n3 n4 : ℕ)
    → find_from 9 0 text ≡ some n1
    → find_from 9 (n1 + 1) text ≡ some n2
    → find_from 9 (n2 + 1) text ≡ some n3
    → find_from 9 (n3 + 1) text ≡ some n4
    → substr (n3 + 1) (n4 - (n3 + 1)) text ≡ access
    → drop (n4 + 1) text ≡ secret
    → parse_user_config text ≡ some (access, secret)
unfolding parse_user_config
parse_by_positions text access secret n1 n2 n3 n4 h1 h2 h3 h4 ha hs =
    ground (arith, h1, h2, h3, h4, ha, hs)

substr_split :
    (front field rest text : Bytes) (n len : ℕ)
    → text ≡ front ++ (field ++ rest)
    → n ≡ length front
    → len ≡ length field
    → substr n len text ≡ field
unfolding substr
substr_split front field rest text n len t e l =
    rw (t, e, l, drop-length front (field ++ rest), take-length field rest) refl

drop_split :
    (front rest text : Bytes) (n : ℕ) → text ≡ front ++ rest → n ≡ length front → drop n text ≡ rest
drop_split front rest text n t e = rw (t, e, drop-length front rest) refl

-- Fields without a tab, joined by tabs, are read back: the fourth is the access key, and all behind
-- the fourth tab is the secret key.
pub parse_user_config-record_text :
    (bucket endpoint region access_key secret_key : Bytes)
    → Lacks 9 bucket
    → Lacks 9 endpoint
    → Lacks 9 region
    → Lacks 9 access_key
    → parse_user_config (record_text bucket endpoint region access_key secret_key)
      ≡ some (access_key, secret_key)
parse_user_config-record_text b e r a s hb he hr ha =
    let text = record_text b e r a s in
    let t3 = a ++ 9 ∷ s in
    let t2 = r ++ 9 ∷ t3 in
    let t1 = e ++ 9 ∷ t2 in
    let f2 = upto [] b in
    let f3 = upto f2 e in
    let f4 = upto f3 r in
    let f5 = upto f4 a in
    let s2 : text ≡ f2 ++ t1 = upto-split [] b t1 in
    let s3 : text ≡ f3 ++ t2 = s2 ∙ upto-split f2 e t2 in
    let s4 : text ≡ f4 ++ t3 = s3 ∙ upto-split f3 r t3 in
    let s5 : text ≡ f5 ++ s = s4 ∙ upto-split f4 a s in
    let l2 : length f2 ≡ 0 + length b + 1 = length-upto [] b in
    let l3 : length f3 ≡ length f2 + length e + 1 = length-upto f2 e in
    let l4 : length f4 ≡ length f3 + length r + 1 = length-upto f3 r in
    let l5 : length f5 ≡ length f4 + length a + 1 = length-upto f4 a in
    let n1 = 0 + length b in
    let n2 = n1 + 1 + length e in
    let n3 = n2 + 1 + length r in
    let n4 = n3 + 1 + length a in
    let e2 : n1 + 1 ≡ length f2 = omega (arith, l2) in
    let e3 : n2 + 1 ≡ length f3 = omega (arith, l2, l3) in
    let e4 : n3 + 1 ≡ length f4 = omega (arith, l2, l3, l4) in
    let e5 : n4 + 1 ≡ length f5 = omega (arith, l2, l3, l4, l5) in
    parse_by_positions text a s n1 n2 n3 n4 (find_from_split [] b t1 text 0 hb refl refl)
      (find_from_split f2 e t2 text (n1 + 1) he s2 e2)
      (find_from_split f3 r t3 text (n2 + 1) hr s3 e3)
      (find_from_split f4 a s text (n3 + 1) ha s4 e4)
      (substr_split f4 a (9 ∷ s) text (n3 + 1) (n4 - (n3 + 1)) s4 e4 (omega arith))
      (drop_split f5 s text (n4 + 1) s5 e5)

-- What the setup program stores for a user, where it fits the buffer, is read by the plugin as the
-- user's access key and secret key, if the bucket, the endpoint, the region and the access key
-- contain no tab.
pub parse_user_config-credential_value :
    (writer : BufferWriter) (bucket endpoint region access_key secret_key value : Bytes)
    → credential_value writer bucket endpoint region access_key secret_key ≡ some value
    → Lacks 9 bucket
    → Lacks 9 endpoint
    → Lacks 9 region
    → Lacks 9 access_key
    → parse_user_config value ≡ some (access_key, secret_key)
unfolding credential_value
parse_user_config-credential_value writer b e r a s value h hb he hr ha =
    let tab = 9 ∷ [] in
    let stored : value ≡ record_text b e r a s =
      writer.written-concat 1024 (b ∷ tab ∷ e ∷ tab ∷ r ∷ tab ∷ a ∷ tab ∷ s ∷ []) value h
      ∙ ap (λ t. b ++ (9 ∷ e ++ (9 ∷ r ++ (9 ∷ a ++ (9 ∷ t))))) (append-nil s) in
    ap parse_user_config stored ∙ parse_user_config-record_text b e r a s hb he hr ha
