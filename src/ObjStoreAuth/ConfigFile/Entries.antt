-- ===== src/ObjStoreAuth/ConfigFile/Entries.antt =====
-- The entries `key=value` of a configuration file: what a line does, and what a printed file does.
use mathlib.Core.Path.{subst}
use ats_plugin_experiment.Base.{
  ℕ, true, false, some, List, [], ◌∷◌, ◌++◌, append-nil, Bytes, is_empty, is_space, getlines,
  getline_go, append_assoc, ◌≡◌, ◌⊎◌, inl, inr, refl, sym, arith, ap, ◌∙◌, Lacks, All,
}
use ats_plugin_experiment.AwsAuthV4.Trim.Ends.{TrimOf, IsSpace, StartsSolid, EndsSolid}
use ats_plugin_experiment.ObjStoreAuth.Files.{Files}
use ats_plugin_experiment.ObjStoreAuth.Config.{S3Config}
use ats_plugin_experiment.ObjStoreAuth.ConfigFile.{
  TextView, apply_key, is_comment, apply_line, apply_lines, parse_config,
}

-- Trimming leaves a text that begins and ends with other bytes.
StartsSolid-left : (left t : Bytes) → All IsSpace left → StartsSolid (left ++ t) → left ≡ []
StartsSolid-left [] t h s = refl
StartsSolid-left (c ∷ left) t (hc, h) s = absurd (cc (hc, s))

EndsSolid-right : (t right : Bytes) → All IsSpace right → EndsSolid (t ++ right) → right ≡ []
EndsSolid-right t [] h e = refl
EndsSolid-right [] (c ∷ []) (hc, h) e = absurd (cc (hc, e))
EndsSolid-right [] (c ∷ d ∷ right) (hc, h) e = absurd (cc (EndsSolid-right [] (d ∷ right) h e))
EndsSolid-right (a ∷ []) (c ∷ right) h e = absurd (cc (EndsSolid-right [] (c ∷ right) h e))
EndsSolid-right (a ∷ b ∷ t) (c ∷ right) h e = EndsSolid-right (b ∷ t) (c ∷ right) h e

pub TrimOf-solid : (s t : Bytes) → StartsSolid s → EndsSolid s → TrimOf s t → t ≡ s
TrimOf-solid s t starts ends h =
    let no_left : h.left ≡ [] =
      StartsSolid-left h.left (t ++ h.right) h.left_white (rw h.splits at starts) in
    let middle : s ≡ t ++ h.right = h.splits ∙ ap (λ l. l ++ (t ++ h.right)) no_left in
    let no_right : h.right ≡ [] = EndsSolid-right t h.right h.right_white (rw middle at ends) in
    sym (middle ∙ ap (λ r. t ++ r) no_right ∙ append-nil t)

StartsSolid-append : (s t : Bytes) → StartsSolid s → StartsSolid (s ++ t)
StartsSolid-append [] t h = absurd h
StartsSolid-append (c ∷ s) t h = h

EndsSolid-append : (s t : Bytes) → EndsSolid t → EndsSolid (s ++ t)
EndsSolid-append [] t h = h
EndsSolid-append (c ∷ []) [] h = absurd h
EndsSolid-append (c ∷ []) (d ∷ t) h = h
EndsSolid-append (c ∷ d ∷ s) t h = EndsSolid-append (d ∷ s) t h

-- A text without white space comes out of a trim of white space empty.
TrimOf-empty : (t : Bytes) → TrimOf [] t → t ≡ []
TrimOf-empty [] h = refl
TrimOf-empty (c ∷ t) h = absurd (no_text h.left (t ++ h.right) h.splits)
  where
    no_text : (left rest : Bytes) → [] ≡ left ++ c ∷ rest → ⊥
    no_text [] rest e = cc e
    no_text (x ∷ left) rest e = cc e

Lacks-append : (c : ℕ) (s t : Bytes) → Lacks c s → Lacks c t → Lacks c (s ++ t)
Lacks-append c [] t hs ht = ht
Lacks-append c (x ∷ s) t (hx, hs) ht = (hx, Lacks-append c s t hs ht)

-- A key that a line can hold as it is.
pub record IsKey (key : Bytes) : Type 0 where
  pub starts : StartsSolid key
  pub ends : EndsSolid key
  pub no_comment : is_comment key ≡ false
  pub without_equals : Lacks b'=' key
  pub one_line : Lacks 10 key

-- A value that a line can hold as it is. It may be empty.
pub record IsValue (value : Bytes) : Type 0 where
  pub solid : (value ≡ []) ⊎ (StartsSolid value × EndsSolid value)
  pub one_line : Lacks 10 value

pub record IsEntry (key value : Bytes) : Type 0 where
  pub key_is : IsKey key
  pub value_is : IsValue value

entry_ends : (key value : Bytes) → IsValue value → EndsSolid (key ++ b'=' ∷ value)
unfolding is_space
entry_ends key value h = elim h.solid [
  | inl nothing ↦
      subst (λ v. EndsSolid (key ++ b'=' ∷ v)) (sym nothing) (EndsSolid-append key (b'=' ∷ []) refl)
  | inr (starts, ends) ↦
      EndsSolid-append key (b'=' ∷ value) (EndsSolid-append (b'=' ∷ []) value ends)
]

value_trimmed : (value t : Bytes) → IsValue value → TrimOf value t → t ≡ value
value_trimmed value t h trims = elim h.solid [
  | inl nothing ↦ TrimOf-empty t (subst (λ v. TrimOf v t) nothing trims) ∙ sym nothing
  | inr (starts, ends) ↦ TrimOf-solid value t starts ends trims
]

is_comment-append : (s t : Bytes) → StartsSolid s → is_comment (s ++ t) ≡ is_comment s
unfolding is_comment
is_comment-append [] t h = absurd h
is_comment-append (c ∷ s) t h = refl

is_empty-append : (s t : Bytes) → StartsSolid s → is_empty (s ++ t) ≡ false
is_empty-append [] t h = absurd h
is_empty-append (c ∷ s) t h = refl

module _ (tv : TextView) (files : Files) where
  apply_line_lem :
      (key value : Bytes) (c : S3Config)
      → IsEntry key value
      → apply_line tv files (key ++ b'=' ∷ value) c ≡ apply_key files key value c
  unfolding apply_line
  apply_line_lem key value c h =
      let line = key ++ b'=' ∷ value in
      let whole : tv.trim_space line ≡ line =
        TrimOf-solid line (tv.trim_space line)
          (StartsSolid-append key (b'=' ∷ value) h.key_is.starts) (entry_ends key value h.value_is)
          (tv.trim_space-TrimOf line) in
      let k : tv.trim_space key ≡ key =
        TrimOf-solid key (tv.trim_space key) h.key_is.starts h.key_is.ends
          (tv.trim_space-TrimOf key) in
      let v : tv.trim_space value ≡ value =
        value_trimmed value (tv.trim_space value) h.value_is (tv.trim_space-TrimOf value) in
      let cut : tv.take_prefix_at b'=' line ≡ (key, value) =
        tv.take_prefix_at-found b'=' key value h.key_is.without_equals in
      let e : is_empty line ≡ false = is_empty-append key (b'=' ∷ value) h.key_is.starts in
      let n : is_comment line ≡ false =
        is_comment-append key (b'=' ∷ value) h.key_is.starts ∙ h.key_is.no_comment in
      rw (whole, cut, k, v, e, n)

-- A file with one line for each entry.
abbrev pub print_entries : List (Bytes × Bytes) → Bytes
print_entries [] = []
print_entries ((key, value) ∷ es) = (key ++ b'=' ∷ value) ++ 10 ∷ print_entries es

abbrev pub entry_lines : List (Bytes × Bytes) → List Bytes
entry_lines [] = []
entry_lines ((key, value) ∷ es) = (key ++ b'=' ∷ value) ∷ entry_lines es

abbrev pub AreEntries : List (Bytes × Bytes) → Type 0
AreEntries [] = Unit
AreEntries ((key, value) ∷ es) = IsEntry key value × AreEntries es

abbrev pub apply_entries : Files → List (Bytes × Bytes) → S3Config → S3Config
apply_entries files [] c = c
apply_entries files ((key, value) ∷ es) c = apply_entries files es (apply_key files key value c)

getline_go-line :
    (delim : ℕ) (cur p s : Bytes)
    → Lacks delim p
    → getline_go delim cur (p ++ delim ∷ s) ≡ (cur ++ p) ∷ getline_go delim [] s
unfolding getline_go
getline_go-line delim [] [] s h = ground arith
getline_go-line delim (x ∷ cur) [] s h = ground (arith, append-nil cur)
getline_go-line delim [] (c ∷ p) s (hc, h) = ground (arith, getline_go-line delim (c ∷ []) p s h)
getline_go-line delim (x ∷ cur) (c ∷ p) s (hc, h) =
    ground (arith, getline_go-line delim (x ∷ cur ++ c ∷ []) p s h, append_assoc cur (c ∷ []) p)

entry_one_line : (key value : Bytes) → IsEntry key value → Lacks 10 (key ++ b'=' ∷ value)
entry_one_line key value h =
    Lacks-append 10 key (b'=' ∷ value) h.key_is.one_line (ground arith, h.value_is.one_line)

getlines-print_entries :
    (es : List (Bytes × Bytes))
    → AreEntries es
    → getline_go 10 [] (print_entries es) ≡ entry_lines es
unfolding getline_go
getlines-print_entries [] h = refl
getlines-print_entries ((key, value) ∷ es) (he, h) =
    getline_go-line 10 [] (key ++ b'=' ∷ value) (print_entries es) (entry_one_line key value he)
    ∙ ap (λ l. (key ++ b'=' ∷ value) ∷ l) (getlines-print_entries es h)

apply_lines-entry_lines :
    (tv : TextView) (files : Files) (es : List (Bytes × Bytes)) (c : S3Config)
    → AreEntries es
    → apply_lines tv files (entry_lines es) c ≡ apply_entries files es c
unfolding apply_lines
apply_lines-entry_lines tv files [] c h = refl
apply_lines-entry_lines tv files ((key, value) ∷ es) c (he, h) =
    ap (apply_lines tv files (entry_lines es)) (apply_line_lem tv files key value c he)
    ∙ apply_lines-entry_lines tv files es (apply_key files key value c) h

-- A file that is printed from entries, one `key=value` to a line, is parsed as the entries.
pub parse_config-print_entries :
    (tv : TextView) (files : Files) (fname : Bytes) (es : List (Bytes × Bytes)) (c : S3Config)
    → is_empty fname ≡ false
    → AreEntries es
    → files.read fname ≡ some (print_entries es)
    → parse_config tv files fname c ≡ (apply_entries files es c, true)
unfolding parse_config getlines
parse_config-print_entries tv files fname es c e h r =
    rw (e, r, getlines-print_entries es h, apply_lines-entry_lines tv files es c h)
