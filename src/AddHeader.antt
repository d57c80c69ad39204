-- ===== src/AddHeader.antt =====
-- src/add_header/add_header.cc: the global plugin that adds the header fields of its arguments to
-- every client request.
pub mod Delivery
use ats_plugin_experiment.Base.{
  ℕ, suc, ◌+◌, Bool, true, false, ltb, Option, none, some, List, [], ◌∷◌, ◌++◌, Bytes, codes, find,
  take, drop, length, is_space, if◌then◌else◌,
}

-- A field of a header: its name, and its value where one was inserted.
pub record Field : Type 0 where
  pub name : Bytes
  pub value : Option Bytes

-- `while (isspace(*p)) p += 1`.
unfoldable pub skip_spaces : Bytes → Bytes
skip_spaces [] = []
skip_spaces (c ∷ s) = let rest = skip_spaces s in if is_space c then rest else c ∷ s

-- What an argument says: the name before the first colon and the value behind it, or a name only.
unfoldable pub parse_field : Bytes → Field
parse_field arg = elim (find b':' arg) [
  | none ↦ record { name = arg; value = none }
  | some colon ↦ record { name = take colon arg; value = some (skip_spaces (drop (suc colon) arg)) }
]

-- Whether the calls of the API that make and append a field succeed, for one field.
pub record Making : Type 0 where
  pub created : Bool
  pub named : Bool
  pub valued : Bool
  pub appended : Bool

abbrev pub has_value : Option Bytes → Bool
has_value none = false
has_value (some v) = true

-- One round of the loop of `TSPluginInit`: whether the field is appended.
unfoldable pub makes : Making → Field → Bool
makes m f =
    if m.created
    then if m.named
      then if has_value f.value then if m.valued then m.appended else false else m.appended
      else false
    else false

-- The loop of `TSPluginInit`, from the argument with the number `i`: the fields of the header, and
-- whether the loop came to its end.
unfoldable pub make_fields : (ℕ → Making) → ℕ → List Bytes → List Field → List Field × Bool
make_fields making i [] fields = (fields, true)
make_fields making i (arg ∷ args) fields =
    let f = parse_field arg in
    let rest = make_fields making (i + 1) args (fields ++ f ∷ []) in
    if makes (making i) f then rest else (fields, false)

-- `TSPluginInit`: the header of the fields to add, and whether the hook was added. `registered` and
-- `header_created` are the results of the calls before the loop.
unfoldable pub plugin_init : Bool → Bool → (ℕ → Making) → List Bytes → List Field × Bool
plugin_init registered header_created making argv =
    if registered
    then if ltb (length argv) 2
      then ([], false)
      else if header_created
      then make_fields making 0 (drop 1 argv) []
      else ([], false)
    else ([], false)

-- Whether the calls that copy a field into the request succeed.
pub record Copying : Type 0 where
  pub created : Bool
  pub copied : Bool
  pub appended : Bool

-- The fields of a request, and counts of the handles: those of the plugin's header that were fetched
-- and released, and those of new fields of the request that were created and released.
pub record Request : Type 0 where
  pub fields : List Field
  pub fetched : ℕ
  pub let_go : ℕ
  pub made : ℕ
  pub made_let_go : ℕ

abbrev pub fetch : Request → Request
fetch r = record r { fetched = r.fetched + 1 }

abbrev pub leave : Request → Request
leave r = record r { let_go = r.let_go + 1 }

abbrev pub make : Request → Request
make r = record r { made = r.made + 1 }

-- `TSMimeHdrFieldNext`: a handle, where there is another field.
abbrev pub fetch_next : List Field → Request → Request
fetch_next [] r = r
fetch_next (f ∷ fs) r = fetch r

-- The loop of `add_header`; the handle of the first field is fetched.
unfoldable pub add_each_field : (ℕ → Copying) → ℕ → List Field → Request → Request
add_each_field copying i [] r = r
add_each_field copying i (f ∷ fs) r =
    let c = copying i in
    let done : Request =
      leave (record (make r) { fields = r.fields ++ f ∷ []; made_let_go = r.made_let_go + 1 }) in
    let next = add_each_field copying (i + 1) fs (fetch_next fs done) in
    if c.created
    then if c.copied then if c.appended then next else leave (make r) else leave (make r)
    else leave r

-- `add_header`: whether the header of the request could be had; the request goes on in any case.
unfoldable pub add_header : Bool → (ℕ → Copying) → List Field → Request → Request
add_header request_given copying fs r =
    if request_given then add_each_field copying 0 fs (fetch_next fs r) else r
