-- ===== src/ObjStoreAuth/RegionMap/Default.antt =====
-- What `loadRegionMap` leaves in the map.
use ats_plugin_experiment.Base.{
  suc, Bool, true, false, not, ◌&&◌, Option, none, some, List, [], ◌∷◌, Bytes, take, drop, find,
  getlines, is_empty, if◌then◌else◌, bytes_eq, bytes_eq_refl, ℕ, ◌≡◌, ◌≢◌, refl, arith, ap, ◌∙◌,
  Bool-cases, Option-cases, inl, inr,
}
use ats_plugin_experiment.Containers.StringMap
use ats_plugin_experiment.Containers.StringMap.{StringMap, assign, find-assign}
use ats_plugin_experiment.AwsAuthV4.Trim.{trim_white_spaces}
use ats_plugin_experiment.ObjStoreAuth.Files.{Files, make_config_path}
use ats_plugin_experiment.ObjStoreAuth.RegionMap.{
  strip_comment, add_entry, add_lines, load_region_map,
}

-- What a line says of the entry point `k`, where it is "entry point:region".
unfoldable pub line_region : Bytes → Bytes → Option Bytes → Option Bytes
line_region k line earlier = elim (find b':' (strip_comment line)) [
  | none ↦ earlier
  | some d ↦
      let region = trim_white_spaces (drop (suc d) (strip_comment line)) in
      if not (is_empty region) && bytes_eq (trim_white_spaces (take d (strip_comment line))) k
      then some region
      else earlier
]

-- A line that holds no more than a comment, or has a colon.
unfoldable pub is_well_formed : Bytes → Bool
is_well_formed line = elim (is_empty (strip_comment line)) [
  | true ↦ true
  | false ↦ elim (find b':' (strip_comment line)) [ none ↦ false | some d ↦ true ]
]

-- What the lines in front of the first malformed one say of `k`, the last of them first.
unfoldable pub last_region : Bytes → Option Bytes → List Bytes → Option Bytes
last_region k earlier [] = earlier
last_region k earlier (line ∷ lines) = elim (is_well_formed line) [
  | true ↦ last_region k (line_region k line earlier) lines
  | false ↦ earlier
]

unfoldable pub all_well_formed : List Bytes → Bool
all_well_formed [] = true
all_well_formed (line ∷ lines) = is_well_formed line && all_well_formed lines

-- A line is blank, malformed, or an entry.
data LineKind (m : StringMap) (line : Bytes) : Type 0 where
  blank :
      is_empty (strip_comment line) ≡ true
      → is_well_formed line ≡ true
      → ((k : Bytes) (o : Option Bytes) → line_region k line o ≡ o)
      → LineKind m line
  malformed :
      is_empty (strip_comment line) ≡ false
      → is_well_formed line ≡ false
      → add_entry m (strip_comment line) ≡ none
      → LineKind m line
  entry :
      is_empty (strip_comment line) ≡ false
      → is_well_formed line ≡ true
      → (next : StringMap) → add_entry m (strip_comment line) ≡ some next
      → ((k : Bytes) → StringMap.find next k ≡ line_region k line (StringMap.find m k))
      → LineKind m line

find-empty : (c : ℕ) (s : Bytes) → is_empty s ≡ true → find c s ≡ none
unfolding find
find-empty c [] h = refl
find-empty c (x ∷ s) h = absurd (cc h)

blank_line : (m : StringMap) (line : Bytes) → is_empty (strip_comment line) ≡ true → LineKind m line
unfolding is_well_formed line_region
blank_line m line h =
    blank h (rw (h, is_well_formed)) λ k o. rw (find-empty b':' (strip_comment line) h, line_region)

malformed_line :
    (m : StringMap) (line : Bytes)
    → is_empty (strip_comment line) ≡ false
    → find b':' (strip_comment line) ≡ none
    → LineKind m line
unfolding is_well_formed add_entry
malformed_line m line h e = malformed h (rw (h, e, is_well_formed) refl) (rw (e, add_entry))

entry_line :
    (m : StringMap) (line : Bytes) (d : ℕ)
    → is_empty (strip_comment line) ≡ false
    → find b':' (strip_comment line) ≡ some d
    → LineKind m line
unfolding is_well_formed add_entry line_region
entry_line m line d h e =
    let name = trim_white_spaces (take d (strip_comment line)) in
    let region = trim_white_spaces (drop (suc d) (strip_comment line)) in
    entry h (ground arith) (if is_empty region then m else assign name region m) (rw (e, add_entry))
      λ k. ground (arith, find-assign name k region m)

line_kind : (m : StringMap) (line : Bytes) → LineKind m line
line_kind m line = elim (Bool-cases (is_empty (strip_comment line))) [
  | inl h ↦ blank_line m line h
  | inr h ↦ elim (Option-cases (find b':' (strip_comment line))) [
    | inl e ↦ malformed_line m line h e
    | inr (d, e) ↦ entry_line m line d h e
  ]
]

add_lines-blank :
    (m : StringMap) (line : Bytes) (lines : List Bytes)
    → is_empty (strip_comment line) ≡ true
    → add_lines m (line ∷ lines) ≡ add_lines m lines
unfolding add_lines
add_lines-blank m line lines h = rw (h, add_lines)

add_lines-malformed :
    (m : StringMap) (line : Bytes) (lines : List Bytes)
    → is_empty (strip_comment line) ≡ false
    → add_entry m (strip_comment line) ≡ none
    → add_lines m (line ∷ lines) ≡ (m, false)
unfolding add_lines
add_lines-malformed m line lines h e = ground arith

add_lines-entry :
    (m next : StringMap) (line : Bytes) (lines : List Bytes)
    → is_empty (strip_comment line) ≡ false
    → add_entry m (strip_comment line) ≡ some next
    → add_lines m (line ∷ lines) ≡ add_lines next lines
unfolding add_lines
add_lines-entry m next line lines h e = ground arith

last_region-good :
    (k line : Bytes) (o : Option Bytes) (lines : List Bytes)
    → is_well_formed line ≡ true
    → last_region k o (line ∷ lines) ≡ last_region k (line_region k line o) lines
unfolding last_region
last_region-good k line o lines h = rw (h, last_region)

last_region-bad :
    (k line : Bytes) (o : Option Bytes) (lines : List Bytes)
    → is_well_formed line ≡ false
    → last_region k o (line ∷ lines) ≡ o
unfolding last_region
last_region-bad k line o lines h = rw (h, last_region)

find-add_lines :
    (m : StringMap) (lines : List Bytes) (k : Bytes)
    → StringMap.find (add_lines m lines).0 k ≡ last_region k (StringMap.find m k) lines
find-add_lines m [] k = unfold add_lines last_region in refl
find-add_lines m (line ∷ lines) k = elim (line_kind m line) [
  | blank h w same ↦
      rw
        (add_lines-blank m line lines h, last_region-good k line (StringMap.find m k) lines w, same)
        (find-add_lines m lines k)
  | malformed h w e ↦
      rw (add_lines-malformed m line lines h e, last_region-bad k line (StringMap.find m k) lines w)
  | entry h w next e read ↦
      rw
        (
          add_lines-entry m next line lines h e,
          last_region-good k line (StringMap.find m k) lines w,
          ← read k,
        )
        (find-add_lines next lines k)
]

result-add_lines :
    (m : StringMap) (lines : List Bytes) → (add_lines m lines).1 ≡ all_well_formed lines
unfolding all_well_formed
result-add_lines m [] = unfold add_lines in refl
result-add_lines m (line ∷ lines) = elim (line_kind m line) [
  | blank h w same ↦
      rw (add_lines-blank m line lines h, w, all_well_formed) (result-add_lines m lines)
  | malformed h w e ↦ rw (add_lines-malformed m line lines h e, w, all_well_formed) refl
  | entry h w next e read ↦
      rw (add_lines-entry m next line lines h e, w, all_well_formed) (result-add_lines next lines)
]

-- Where the file can be read, the map has for each entry point the region of its last line in
-- front of the first malformed line, or else what it had, with an empty default; `true` is
-- returned exactly when no line is malformed.
pub load_region_map_lem :
    (files : Files) (m : StringMap) (filename text : Bytes)
    → files.read (make_config_path files filename) ≡ some text
    → ((k : Bytes)
        → StringMap.find (load_region_map files m filename).0 k
          ≡ last_region k
              (if bytes_eq [] k then some [] else StringMap.find m k)
              (getlines 10 text))
      × ((load_region_map files m filename).1 ≡ all_well_formed (getlines 10 text))
unfolding load_region_map
load_region_map_lem files m filename text e =
    rw (e, load_region_map)
      (
        λ k.
            find-add_lines (assign [] [] m) (getlines 10 text) k
            ∙ ap (λ o. last_region k o (getlines 10 text)) (find-assign [] k [] m),
        result-add_lines (assign [] [] m) (getlines 10 text),
      )

line_region-ne-none : (k line : Bytes) (o : Option Bytes) → o ≢ none → line_region k line o ≢ none
unfolding line_region
line_region-ne-none k line o h = ground arith

last_region-ne-none :
    (k : Bytes) (o : Option Bytes) (lines : List Bytes) → o ≢ none → last_region k o lines ≢ none
unfolding last_region
last_region-ne-none k o [] h = h
last_region-ne-none k o (line ∷ lines) h =
    ground
      (arith, last_region-ne-none k (line_region k line o) lines (line_region-ne-none k line o h))

-- Once the file was opened the map has a default entry, so `m.at("")` does not throw.
pub load_region_map-has_default :
    (files : Files) (m : StringMap) (filename text : Bytes)
    → files.read (make_config_path files filename) ≡ some text
    → StringMap.find (load_region_map files m filename).0 [] ≢ none
load_region_map-has_default files m filename text e n =
    last_region-ne-none [] (some []) (getlines 10 text) (λ p. cc p)
      (cc ((load_region_map_lem files m filename text e).0 [], n, bytes_eq_refl []))
