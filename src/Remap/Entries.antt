-- ===== src/Remap/Entries.antt =====
-- `remap_entry` of src/remap/remap.cc: the constructor and the destructor, the list that links the
-- instances through their `next` members, and the entry points that create and delete one.
use mathlib.Core.Option
use ats_plugin_experiment.Base.{
  ℕ, zero, suc, Bool, ◌==◌, ltb, if◌then◌else◌, Option, none, some, List, Bytes, codes, take,
}
use ats_plugin_experiment.Remap.{
  Entry, Plugin, ReturnCode, success, error, Buffer, Host, store_my_error_message,
}

abbrev pub Entries : Type 0
Entries = ℕ → Option Entry

-- The constructor: the arguments are copied where there are any.
unfoldable pub new_entry : ℕ → Option (List Bytes) → Entry
new_entry argc none = record { next = none; argc = 0; argv = none }
new_entry argc (some argv) =
    if ltb 0 argc
    then record { next = none; argc = argc; argv = some (take argc argv) }
    else record { next = none; argc = 0; argv = none }

abbrev pub with_next : Option ℕ → Entry → Entry
with_next v e = record e { next = v }

-- `p->next = v`.
abbrev pub set_next : ℕ → Option ℕ → Entries → Entries
set_next p v entries q = if p == q then Option.map (with_next v) (entries q) else entries q

-- An allocation, or, with `none`, `delete`.
abbrev pub set_entry : ℕ → Option Entry → Entries → Entries
set_entry p e entries q = if p == q then e else entries q

-- `add_to_list`; `re` is `none` for a null pointer.
unfoldable pub add_to_list : Option ℕ → Plugin → Plugin
add_to_list none s = s
add_to_list (some re) s =
    if s.plugin_init_counter == 0
    then s
    else record s { entries = set_next re s.active_list s.entries; active_list = some re }

-- `*rre`, for the address of `active_list` (`none`) or of the `next` of an instance; `none` where
-- there is no such instance.
unfoldable pub read_link : Option ℕ → Plugin → Option (Option ℕ)
read_link none s = some s.active_list
read_link (some q) s = Option.map (λ (e : Entry). e.next) (s.entries q)

-- `*rre = v`.
unfoldable pub write_link : Option ℕ → Option ℕ → Plugin → Plugin
write_link none v s = record s { active_list = v }
write_link (some q) v s = record s { entries = set_next q v s.entries }

abbrev pub on_next : Option Entry → Option (Option ℕ)
on_next = Option.map (λ (e : Entry). e.next)

-- `*rre = re->next`.
unfoldable pub bypass : Option ℕ → ℕ → Plugin → Option Plugin
bypass rre re s = Option.map (λ v. write_link rre v s) (on_next (s.entries re))

-- The loop of `remove_from_list`, for at most so many rounds. `none`: a pointer without an instance
-- is read, or the rounds run out.
unfoldable pub unlink : ℕ → ℕ → Option ℕ → Plugin → Option Plugin
unlink zero re rre s = none
unlink (suc n) re rre s = elim (read_link rre s) [
  | none ↦ none
  | some none ↦ some s
  | some (some p) ↦ let rest = unlink n re (some p) s in if p == re then bypass rre re s else rest
]

unfoldable pub remove_from_list : ℕ → Option ℕ → Plugin → Option Plugin
remove_from_list rounds none s = some s
remove_from_list rounds (some re) s =
    if s.plugin_init_counter == 0 then some s else unlink rounds re none s

-- `delete`; `none` where there is no such instance, and no effect on a null pointer.
unfoldable pub release : Option ℕ → Plugin → Option Plugin
release none s = some s
release (some re) s = elim (s.entries re) [
  | none ↦ none
  | some e ↦ some (record s { entries = set_entry re none s.entries })
]

-- `TSRemapDeleteInstance`.
unfoldable pub remap_delete_instance : ℕ → Option ℕ → Plugin → Option Plugin
remap_delete_instance rounds ih s = elim (remove_from_list rounds ih s) [
  | none ↦ none
  | some t ↦ release ih t
]

module _ (host : Host) where
  -- `TSRemapNewInstance`: whether `ih` is given, and the address that the allocation returns; `*ih`
  -- is written only where the last result is `some`.
  unfoldable pub remap_new_instance :
      ℕ
      → Option (List Bytes)
      → Bool
      → Option Buffer
      → ℕ
      → Plugin
      → ((ReturnCode × Option Buffer) × Option ℕ) × Plugin
  remap_new_instance argc argv ih errbuf address s =
      if ltb argc 2
      then ((store_my_error_message error errbuf (host.count_text argc), none), s)
      else elim argv [
        | none ↦ ((store_my_error_message error errbuf (codes "Invalid argument(s)"), none), s)
        | some args ↦
            if ih
            then (
              ((success, errbuf), some address),
              add_to_list (some address) (record s {
                entries = set_entry address (some (new_entry argc (some args))) s.entries;
              }),
            )
            else ((store_my_error_message error errbuf (codes "Invalid argument(s)"), none), s)
      ]
