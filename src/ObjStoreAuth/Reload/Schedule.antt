-- ===== src/ObjStoreAuth/Reload/Schedule.antt =====
-- What a reload leaves: the next reload, or none, and a configuration that can be reloaded.
use mathlib.Core.Path.{subst}
use ats_plugin_experiment.Base.{
  ℕ, ◌+◌, ◌-◌, ◌*◌, ◌≤◌, ◌<◌, true, false, not, ◌==◌, none, some, List, [], ◌∷◌, ◌++◌, ltb, leb, ℤ,
  pos, sub_ℕ, ◌-ℤ◌, int_eq, ◌≡◌, inl, inr, refl, sym, arith, ap, ◌∙◌, if◌then◌else◌, Bool-cases,
}
use ats_plugin_experiment.ObjStoreAuth.Config.{incr_conf_reload_count, reset_conf_reload_count}
use ats_plugin_experiment.ObjStoreAuth.Reload.{
  Actions, Instance, Call, action_cancel, schedule_on_pool, error, cal_reload_delay,
  schedule_conf_reload, is_positive, retry_message, reschedule,
}
use ats_plugin_experiment.ObjStoreAuth.Reload.Delay.{headroom, cal_reload_delay-headroom}

-- The last call schedules a reload in `d` seconds, and its action is the one that is kept.
pub record Schedules (actions : Actions) (d : ℕ) (r : Instance × List Call) : Type 0 where
  pub before : List Call
  pub calls_are : r.1 ≡ before ++ schedule_on_pool (pos (d * 1000)) ∷ []
  pub kept : r.0.conf_rld_act ≡ some (actions.scheduled (pos (d * 1000)))

schedule_conf_reload-Schedules :
    (actions : Actions) (d : ℕ) (i : Instance)
    → Schedules actions d (schedule_conf_reload actions (pos d) i)
unfolding schedule_conf_reload
schedule_conf_reload-Schedules actions d i =
    let cancelled : List Call = elim i.conf_rld_act [
      | none ↦ []
      | some act ↦ if not (actions.action_done act) then action_cancel act ∷ [] else []
    ] in
    record { before = cancelled; calls_are = refl; kept = refl }

Schedules-error :
    (actions : Actions) (d : ℕ) (c : Call) (r : Instance × List Call)
    → Schedules actions d r
    → Schedules actions d (r.0, c ∷ r.1)
Schedules-error actions d c r h = record {
  before = c ∷ h.before;
  calls_are = ap (λ l. c ∷ l) h.calls_are;
  kept = h.kept;
}

is_positive-sub : (e now : ℕ) → now < e → sub_ℕ e now ≡ pos (e - now)
is_positive-sub e now h = ground (arith, h)

is_positive-past : (e now : ℕ) → e ≤ now → is_positive (sub_ℕ e now) ≡ false
is_positive-past e now h = elim (Bool-cases (leb now e)) [
  | inl a ↦ let z : ltb 0 (e - now) ≡ false = ground (arith, h) in rw a z
  | inr a ↦ rw a refl
]

module _ (actions : Actions) (now : ℕ) (i : Instance) where
  abbrev pub reset_rule : Instance
  reset_rule = record i { s3 = reset_conf_reload_count i.s3 }

  abbrev pub counted_rule : Instance
  counted_rule = record i { s3 = (incr_conf_reload_count i.s3).0 }

  pub disabled_branch : int_eq i.s3.expiration 0 ≡ true → reschedule actions now i ≡ (i, [])
  unfolding reschedule
  disabled_branch h = ground (arith, h)

  pub future_branch :
      int_eq i.s3.expiration 0 ≡ false
      → is_positive (◌-ℤ◌ i.s3.expiration now) ≡ true
      → reschedule actions now i
        ≡ schedule_conf_reload actions (cal_reload_delay (◌-ℤ◌ i.s3.expiration now)) reset_rule
  unfolding reschedule
  future_branch h k = ground (arith, h, k)

  pub past_branch :
      int_eq i.s3.expiration 0 ≡ false
      → is_positive (◌-ℤ◌ i.s3.expiration now) ≡ false
      → ((incr_conf_reload_count i.s3).1 == 10) ≡ false
      → reschedule actions now i ≡ schedule_conf_reload actions (pos 60) counted_rule
  unfolding reschedule
  past_branch h k n = ground (arith, h, k, n)

  pub tenth_branch :
      int_eq i.s3.expiration 0 ≡ false
      → is_positive (◌-ℤ◌ i.s3.expiration now) ≡ false
      → ((incr_conf_reload_count i.s3).1 == 10) ≡ true
      → reschedule actions now i ≡ (
        (schedule_conf_reload actions (pos 60) counted_rule).0,
        error retry_message ∷ (schedule_conf_reload actions (pos 60) counted_rule).1,
      )
  unfolding reschedule
  tenth_branch h k n = ground (arith, h, k, n)

  reset_count : (d : ℤ) → (schedule_conf_reload actions d reset_rule).0.s3.conf_reload_count ≡ 0
  unfolding schedule_conf_reload reset_conf_reload_count
  reset_count d = refl

  next_count :
      (d : ℤ)
      → (schedule_conf_reload actions d counted_rule).0.s3.conf_reload_count
        ≡ i.s3.conf_reload_count + 1
  unfolding schedule_conf_reload incr_conf_reload_count
  next_count d = refl

  -- A configuration that expires in the future is read again at the time that `headroom` says, and
  -- its count of retries is reset.
  pub reschedule_future :
      (e : ℕ)
      → i.s3.expiration ≡ pos e
      → now < e
      → (d : ℕ) × (Schedules actions d (reschedule actions now i))
        × (0 < d)
        × (now + d + headroom (e - now) ≡ e)
        × ((reschedule actions now i).0.s3.conf_reload_count ≡ 0)
  unfolding ◌-ℤ◌
  reschedule_future e h t =
      let (d, is_d, positive, room) = cal_reload_delay-headroom (e - now) (ground (arith, t)) in
      let left : ◌-ℤ◌ i.s3.expiration now ≡ pos (e - now) = rw h (is_positive-sub e now t) in
      let nonzero : int_eq i.s3.expiration 0 ≡ false = rw h (ground (arith, t)) in
      let some_left : is_positive (◌-ℤ◌ i.s3.expiration now) ≡ true =
        ap is_positive left ∙ ground (arith, t) in
      let plan : reschedule actions now i ≡ schedule_conf_reload actions (pos d) reset_rule =
        future_branch nonzero some_left
        ∙ ap (λ z. schedule_conf_reload actions z reset_rule) (ap cal_reload_delay left ∙ is_d) in
      (
        d,
        subst (Schedules actions d) (sym plan)
            (schedule_conf_reload-Schedules actions d reset_rule),
        positive,
        omega (arith, room, t),
        ap (λ (r : Instance × List Call). r.0.s3.conf_reload_count) plan ∙ reset_count (pos d),
      )

  -- A configuration with an expiration time that is not in the future is read again after a minute,
  -- and the retry is counted.
  pub reschedule_past :
      int_eq i.s3.expiration 0 ≡ false
      → is_positive (◌-ℤ◌ i.s3.expiration now) ≡ false
      → (Schedules actions 60 (reschedule actions now i))
        × ((reschedule actions now i).0.s3.conf_reload_count ≡ i.s3.conf_reload_count + 1)
  reschedule_past h k =
      let r = schedule_conf_reload actions (pos 60) counted_rule in
      let is_r : Schedules actions 60 r = schedule_conf_reload-Schedules actions 60 counted_rule in
      elim (Bool-cases ((incr_conf_reload_count i.s3).1 == 10)) [
        | inl n ↦
            let plan = tenth_branch h k n in
            (
              subst (Schedules actions 60) (sym plan)
                  (Schedules-error actions 60 (error retry_message) r is_r),
              ap (λ (r : Instance × List Call). r.0.s3.conf_reload_count) plan
                  ∙ next_count (pos 60),
            )
        | inr n ↦
            let plan = past_branch h k n in
            (
              subst (Schedules actions 60) (sym plan) is_r,
              ap (λ (r : Instance × List Call). r.0.s3.conf_reload_count) plan
                  ∙ next_count (pos 60),
            )
      ]

pub schedule_conf_reload-s3 :
    (actions : Actions) (d : ℤ) (i : Instance) → (schedule_conf_reload actions d i).0.s3 ≡ i.s3
unfolding schedule_conf_reload
schedule_conf_reload-s3 actions d i = refl
