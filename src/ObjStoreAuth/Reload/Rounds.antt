-- ===== src/ObjStoreAuth/Reload/Rounds.antt =====
-- One run of `config_reloader` after another: each finds a file name, and leaves one for the next.
use mathlib.Core.Path.{subst}
use ats_plugin_experiment.Base.{
  ℕ, ◌+◌, ◌==◌, true, false, Option, none, some, List, Bytes, ◌-ℤ◌, int_eq, ◌≡◌, inl, inr, refl,
  sym, arith, Bool-cases, Option-cases,
}
use ats_plugin_experiment.ObjStoreAuth.Files.{Files}
use ats_plugin_experiment.ObjStoreAuth.Config.{
  S3Config, valid, if_set, copy_changes_from, incr_conf_reload_count, reset_conf_reload_count,
}
use ats_plugin_experiment.ObjStoreAuth.Config.Lengths.{copy_changes_from-IsSized}
use ats_plugin_experiment.ObjStoreAuth.Config.Copy.{copy_changes_from-valid}
use ats_plugin_experiment.ObjStoreAuth.ConfigFile.{TextView}
use ats_plugin_experiment.ObjStoreAuth.ConfigCache.{Cache, get}
use ats_plugin_experiment.ObjStoreAuth.ConfigCache.Entries.{
  IsNamed, OptionNamed, AreCached, get-AreCached,
}
use ats_plugin_experiment.ObjStoreAuth.Reload.{
  Actions, Instance, Call, ts_success, check_current_action, is_positive, tagged, reschedule,
  Reloaded, reload_from, config_reloader,
}
use ats_plugin_experiment.ObjStoreAuth.Reload.Schedule.{
  disabled_branch, future_branch, past_branch, tenth_branch, schedule_conf_reload-s3,
}

-- A configuration that a reload can work on.
pub record IsUsable (c : S3Config) : Type 0 where
  pub named : IsNamed c
  pub usable : valid c ≡ true

-- The count of retries is no part of that.
abbrev counted : ℕ → S3Config → S3Config
counted n c = record c { conf_reload_count = n }

counted-IsUsable : (n : ℕ) (c : S3Config) → IsUsable c → IsUsable (counted n c)
unfolding valid
counted-IsUsable n c h = record {
  named = record {
    named = h.named.named;
    sized = record {
      secret_sized = h.named.sized.secret_sized;
      keyid_sized = h.named.sized.keyid_sized;
      token_sized = h.named.sized.token_sized;
    };
  };
  usable = h.usable;
}

if_set-some :
    (o p : Option Bytes) → (s : Bytes) × (p ≡ some s) → (s : Bytes) × (if_set o p ≡ some s)
if_set-some none p h = h
if_set-some (some t) p h = (t, refl)

copied-IsUsable :
    (src c : S3Config)
    → IsNamed src
    → valid src ≡ true
    → IsUsable c
    → IsUsable (copy_changes_from src c)
unfolding copy_changes_from
copied-IsUsable src c n v h = record {
  named = record {
    named = if_set-some src.conf_fname c.conf_fname h.named.named;
    sized = copy_changes_from-IsSized src c n.sized h.named.sized;
  };
  usable = copy_changes_from-valid src c v h.usable;
}

module _ (actions : Actions) (now : ℕ) (i : Instance) where
  reschedule-IsUsable : IsUsable i.s3 → IsUsable (reschedule actions now i).0.s3
  unfolding reset_conf_reload_count incr_conf_reload_count
  reschedule-IsUsable h =
      let zero_count : IsUsable (reset_conf_reload_count i.s3) = counted-IsUsable 0 i.s3 h in
      let next_count : IsUsable (incr_conf_reload_count i.s3).0 =
        counted-IsUsable (i.s3.conf_reload_count + 1) i.s3 h in
      let usable = λ (r : Instance × List Call). IsUsable r.0.s3 in
      elim (Bool-cases (int_eq i.s3.expiration 0)) [
        | inl e ↦ subst usable (sym (disabled_branch actions now i e)) h
        | inr e ↦ elim (Bool-cases (is_positive (◌-ℤ◌ i.s3.expiration now))) [
          | inl p ↦
              subst usable (sym (future_branch actions now i e p))
                (subst IsUsable (sym (schedule_conf_reload-s3 actions _ _)) zero_count)
          | inr p ↦ elim (Bool-cases (i.s3.conf_reload_count == 10)) [
            | inl t ↦
                subst usable (sym (tenth_branch actions now i e p t))
                  (subst IsUsable (sym (schedule_conf_reload-s3 actions _ _)) next_count)
            | inr t ↦
                subst usable (sym (past_branch actions now i e p t))
                  (subst IsUsable (sym (schedule_conf_reload-s3 actions _ _)) next_count)
          ]
        ]
      ]

check_current_action-s3 : (edata : ℕ) (i : Instance) → (check_current_action edata i).s3 ≡ i.s3
unfolding check_current_action
check_current_action-s3 edata i = elim (Option-cases i.conf_rld_act) [
  | inl n ↦ rw n refl
  | inr (act, n) ↦ elim (Bool-cases (act == tagged edata)) [
    | inl b ↦ rw (n, b) refl
    | inr b ↦ rw (n, b) refl
  ]
]

-- What one run leaves.
pub record IsRound (r : Reloaded) : Type 0 where
  pub rule_usable : IsUsable r.rule.s3
  pub cache_cached : AreCached r.cache

module _ (tv : TextView) (files : Files) (actions : Actions) (now : ℕ) where
  -- A null pointer or a configuration that is not valid leaves the rule and the cache, and no
  -- further reload is scheduled.
  reload_from_rejected :
      (i : Instance) (cache : Cache) (src : S3Config)
      → valid src ≡ false
      → reload_from tv files actions now i cache (some src)
        ≡ reload_from tv files actions now i cache none
  unfolding reload_from
  reload_from_rejected i cache src h = ground (arith, h)

  reload_from_accepted :
      (i : Instance) (cache : Cache) (src : S3Config)
      → valid src ≡ true
      → reload_from tv files actions now i cache (some src) ≡ record {
        rule = (reschedule actions now (record i { s3 = copy_changes_from src i.s3 })).0;
        cache = cache;
        calls = (reschedule actions now (record i { s3 = copy_changes_from src i.s3 })).1;
        status = ts_success;
      }
  unfolding reload_from
  reload_from_accepted i cache src h = ground (arith, h)

  rejected-IsRound :
      (i : Instance) (cache : Cache)
      → IsUsable i.s3
      → AreCached cache
      → IsRound (reload_from tv files actions now i cache none)
  unfolding reload_from
  rejected-IsRound i cache h a = record { rule_usable = h; cache_cached = a }

  reload_from-IsRound :
      (i : Instance) (cache : Cache) (o : Option S3Config)
      → IsUsable i.s3
      → AreCached cache
      → OptionNamed o
      → IsRound (reload_from tv files actions now i cache o)
  reload_from-IsRound i cache none h a n = rejected-IsRound i cache h a
  reload_from-IsRound i cache (some src) h a n = elim (Bool-cases (valid src)) [
    | inr v ↦
        subst IsRound (sym (reload_from_rejected i cache src v)) (rejected-IsRound i cache h a)
    | inl v ↦ subst IsRound (sym (reload_from_accepted i cache src v)) (record {
      rule_usable =
          reschedule-IsUsable actions now (record i { s3 = copy_changes_from src i.s3 })
            (copied-IsUsable src i.s3 n v h);
      cache_cached = a;
    })
  ]

  config_reloader_run :
      (edata : ℕ) (i : Instance) (cache : Cache) (fname : Bytes)
      → (check_current_action edata i).s3.conf_fname ≡ some fname
      → config_reloader tv files actions now edata i cache
        ≡ some (
            reload_from tv files actions now
              (check_current_action edata i)
              (get tv files now fname cache).0
              (get tv files now fname cache).1)
  unfolding config_reloader
  config_reloader_run edata i cache fname h = ground (arith, h)

  -- A reload of a usable rule, from a cache whose entries are idle, named and sized, always comes to
  -- an end without touching a null file name, and leaves a usable rule and such a cache: the next
  -- reload can run.
  pub config_reloader-IsRound :
      (edata : ℕ) (i : Instance) (cache : Cache)
      → IsUsable i.s3
      → AreCached cache
      → (r : Reloaded) × (config_reloader tv files actions now edata i cache ≡ some r) × IsRound r
  config_reloader-IsRound edata i cache h a =
      let checked = check_current_action edata i in
      let usable : IsUsable checked.s3 = subst IsUsable (sym (check_current_action-s3 edata i)) h in
      let (fname, named) = usable.named.named in
      let cached = get-AreCached tv files fname now cache a in
      let got = get tv files now fname cache in
      (
        reload_from tv files actions now checked got.0 got.1,
        config_reloader_run edata i cache fname named,
        reload_from-IsRound checked got.0 got.1 usable cached.0 cached.1,
      )
