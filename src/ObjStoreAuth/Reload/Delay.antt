-- ===== src/ObjStoreAuth/Reload/Delay.antt =====
-- How long a reload waits.
use ats_plugin_experiment.Base.{
  ℕ, ◌+◌, ◌-◌, ◌<◌, ltb, pos, ◌≡◌, refl, arith, if◌then◌else◌, Bool-cases, inl, inr,
}
use ats_plugin_experiment.ObjStoreAuth.Reload.{cal_reload_delay}

-- The time between the reload and the expiration.
abbrev pub headroom : ℕ → ℕ
headroom n = if ltb 3600 n then 3600 else if ltb 900 n then 900 else 0

-- With `n` seconds left, more than none, the delay is positive, and the reload comes an hour before
-- the expiration if more than an hour is left, else 15 minutes before it if more than that is left,
-- else at the expiration.
pub cal_reload_delay-headroom :
    (n : ℕ) → 0 < n → (d : ℕ) × (cal_reload_delay (pos n) ≡ pos d) × (0 < d) × (d + headroom n ≡ n)
unfolding cal_reload_delay
cal_reload_delay-headroom n h = elim (Bool-cases (ltb 3600 n)) [
  | inl a ↦ (n - 3600, rw a refl, ground (arith, a), ground (arith, a))
  | inr a ↦ elim (Bool-cases (ltb 900 n)) [
    | inl b ↦ (n - 900, rw (a, b) refl, ground (arith, b), ground (arith, a, b))
    | inr b ↦ (n, rw (a, b) refl, h, ground (arith, a, b))
  ]
]
