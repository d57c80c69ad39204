-- ===== src/AwsAuthV4/Region/Diverges.antt =====
-- The loop of `getRegion` on a host name that begins with a dot: at position 0 the next search
-- starts from `0 - 1`, the greatest `size_t`, and so from the end again.
use mathlib.Core.List.{concat-ne-nil}
use mathlib.Core.Path.{subst}
use ats_plugin_experiment.Base.{
  ℕ, List, ◌⊎◌, zero, suc, ◌+◌, ◌-◌, ◌%◌, ◌^◌, ◌<◌, [], ◌∷◌, ◌++◌, append_assoc, append-nil, none,
  some, Bytes, ◌≡◌, ◌≢◌, inl, inr, refl, sym, arith, ap, ◌∙◌, Option-cases, drop, length, All,
}
use ats_plugin_experiment.Containers.StringMap.{StringMap, find}
use ats_plugin_experiment.AwsAuthV4.Region.{npos, find_last, rfind, region_loop, get_region}
use ats_plugin_experiment.AwsAuthV4.Region.Candidates.{
  behind, behind_dots, Searches, LastDot, length_before, next-Searches, drop_behind, find_last-none,
  find_last-some, behind_dots-append, take_all,
}

abbrev pub LeadingDot : Bytes → Type 0
LeadingDot [] = ⊥
LeadingDot (c ∷ s) = c ≡ b'.'

-- None of the names is in the map.
abbrev pub NoneFound : StringMap → List Bytes → Type 0
NoneFound region_map names = All (λ name. find region_map name ≡ none) names

behind_dots-ne-nil : (s q : Bytes) → LeadingDot s → behind_dots s q ≢ []
unfolding behind_dots behind
behind_dots-ne-nil [] q h e = h
behind_dots-ne-nil (c ∷ s) q h e = concat-ne-nil (s ++ q) (behind_dots s q) (ground arith)

LeadingDot-before :
    (before a b : Bytes) → before ≡ a ++ b'.' ∷ b → LeadingDot before → (a ≡ []) ⊎ LeadingDot a
LeadingDot-before before [] b e h = inl refl
LeadingDot-before before (c ∷ a) b e h = inr (rw e at h)

region_loop_round :
    (rounds : ℕ) (m : StringMap) (host : Bytes) (dot next : ℕ) (rest : Bytes)
    → rfind b'.' ((dot + 2 ^ 64 - 1) % 2 ^ 64) host ≡ some next
    → drop (suc next) host ≡ rest
    → find m rest ≡ none
    → region_loop rounds m host next ≡ none
    → region_loop (suc rounds) m host dot ≡ none
unfolding region_loop
region_loop_round rounds m host dot next rest h e k l = ground arith

LeadingDot-pos : (a : Bytes) → LeadingDot a → 0 < length a
LeadingDot-pos [] h = absurd h
LeadingDot-pos (c ∷ a) h = omega arith

module _ (m : StringMap) (host : Bytes) (leading : LeadingDot host) (small : length host < npos)
    (unknown : NoneFound m (behind_dots host [])) where
  whole-Searches : Searches 0 host []
  whole-Searches = rw append-nil (take_all (2 ^ 64) host (omega arith))

  region_loop_diverges :
      (rounds : ℕ) (before after : Bytes) (dot : ℕ)
      → host ≡ before ++ after
      → Searches dot before after
      → length before < 2 ^ 64
      → LeadingDot before
      → NoneFound m (behind_dots before after)
      → region_loop rounds m host dot ≡ none
  region_loop_diverges zero before after dot e s short h n = unfold region_loop in refl
  region_loop_diverges (suc r) before after dot e s short h n =
      elim (Option-cases (find_last b'.' before)) [
        | inl none_left ↦
            absurd (behind_dots-ne-nil before after h (find_last-none before after none_left))
        | inr (i, found) ↦
            let d : LastDot before i = find_last-some before i found in
            let host_is : host ≡ d.before ++ b'.' ∷ (d.after ++ after) =
              e ∙ ap (λ t. t ++ after) d.splits ∙ append_assoc d.before (b'.' ∷ d.after) after in
            let unknowns =
              subst (NoneFound m)
                (ap (λ t. behind_dots t after) d.splits
                  ∙ behind_dots-append d.before d.after after d.no_more)
                n in
            region_loop_round r m host dot i (d.after ++ after)
              (rw e (unfold rfind in ap (find_last b'.') s ∙ found))
              (rw host_is (drop_behind d.before d.after after i d.position)) unknowns.0
              (elim (LeadingDot-before before d.before d.after d.splits h) [
                | inl first ↦
                    let at_zero : i ≡ 0 = omega (arith, d.position, ap (length {A = ℕ}) first) in
                    rw at_zero (
                      region_loop_diverges r host [] 0 (sym (append-nil host)) whole-Searches
                        (omega arith) leading unknown)
                | inr later ↦
                    region_loop_diverges r d.before (b'.' ∷ (d.after ++ after)) i host_is
                      (next-Searches d.before (b'.' ∷ (d.after ++ after)) i d.position
                        (LeadingDot-pos d.before later)
                        (omega (arith, length_before before d.before d.after d.splits)))
                      (omega (arith, length_before before d.before d.after d.splits)) later
                      unknowns.1
              ])
      ]

-- `getRegion` does not return for a host name that begins with a dot, where the map has no entry
-- for what follows any of its dots: no number of rounds is enough.
pub get_region_diverges :
    (rounds : ℕ) (region_map : StringMap) (hostname : Bytes)
    → LeadingDot hostname
    → length hostname < npos
    → NoneFound region_map (behind_dots hostname [])
    → get_region rounds region_map hostname ≡ none
unfolding get_region
get_region_diverges rounds m host h small n =
    let loops =
      region_loop_diverges m host h small n rounds host [] npos (sym (append-nil host))
        (rw append-nil (take_all (2 ^ 64 - 1) host (omega arith))) (omega arith) h n in
    rw (loops, get_region)
