-- ===== src/AwsAuthV4/Region/Candidates.antt =====
-- What `getRegion` finds for a host name that does not begin with a dot.
use ats_plugin_experiment.Base.{
  ℕ, zero, suc, ◌+◌, ◌-◌, ◌%◌, ◌^◌, ◌<◌, ◌≤◌, List, [], ◌∷◌, ◌++◌, append_assoc, append-nil, none,
  some, Bytes, ◌≡◌, ◌≢◌, inl, inr, refl, sym, arith, ap, ◌∙◌, Option-cases, take, drop, length,
  length-append, ◌==◌, if◌then◌else◌, take-length,
}
use ats_plugin_experiment.Containers.StringMap.{StringMap, find}
use ats_plugin_experiment.AwsAuthV4.Region.{
  npos, find_last, rfind, region_loop, or_default, get_region,
}

-- The rest of a text behind its first byte, if that is a dot.
unfoldable pub behind : ℕ → Bytes → List Bytes
behind c rest = if c == b'.' then rest ∷ [] else []

-- What follows each dot of `before` in `before ++ after`, the shortest first.
unfoldable pub behind_dots : Bytes → Bytes → List Bytes
behind_dots [] after = []
behind_dots (c ∷ before) after = behind_dots before after ++ behind c (before ++ after)

-- The names that are looked up: what follows a dot, from the shortest on, and the host name.
unfoldable pub candidates : Bytes → List Bytes
candidates hostname = behind_dots hostname [] ++ hostname ∷ []

-- The region of the first candidate that the map has.
unfoldable pub first_match : StringMap → List Bytes → Bytes
first_match region_map [] = []
first_match region_map (name ∷ names) = elim (find region_map name) [
  | some region ↦ region
  | none ↦ first_match region_map names
]

-- The last dot cuts a text in two.
pub record LastDot (s : Bytes) (i : ℕ) : Type 0 where
  pub before : Bytes
  pub after : Bytes
  pub splits : s ≡ before ++ b'.' ∷ after
  pub position : length before ≡ i
  pub no_more : (q : Bytes) → behind_dots after q ≡ []

pub find_last-none : (s q : Bytes) → find_last b'.' s ≡ none → behind_dots s q ≡ []
unfolding find_last behind_dots behind
find_last-none [] q h = refl
find_last-none (c ∷ s) q h = elim (Option-cases (find_last b'.' s)) [
  | inl e ↦ rw (find_last-none s q e) (ground arith)
  | inr (j, e) ↦ absurd (ground arith)
]

LastDot-cons : (c : ℕ) (s : Bytes) (i : ℕ) → LastDot s i → LastDot (c ∷ s) (suc i)
LastDot-cons c s i d = record {
  before = c ∷ d.before;
  after = d.after;
  splits = ap (◌∷◌ c) d.splits;
  position = ap suc d.position;
  no_more = d.no_more;
}

find_last_head :
    (c : ℕ) (s : Bytes) (i : ℕ)
    → find_last b'.' (c ∷ s) ≡ some i
    → find_last b'.' s ≡ none
    → (c ≡ b'.') × (0 ≡ i)
unfolding find_last
find_last_head c s i h e = ground arith

pub find_last-some : (s : Bytes) (i : ℕ) → find_last b'.' s ≡ some i → LastDot s i
unfolding find_last
find_last-some [] i h = absurd (cc h)
find_last-some (c ∷ s) i h = elim (Option-cases (find_last b'.' s)) [
  | inl e ↦
      let (dot, first) = find_last_head c s i h e in
      record {
        before = [];
        after = s;
        splits = ap (λ x. x ∷ s) dot;
        position = first;
        no_more = λ q. find_last-none s q e;
      }
  | inr (j, e) ↦
      let next : i ≡ suc j = ground arith in rw next (LastDot-cons c s j (find_last-some s j e))
]

pub behind_dots-append :
    (a b q : Bytes)
    → ((r : Bytes) → behind_dots b r ≡ [])
    → behind_dots (a ++ b'.' ∷ b) q ≡ (b ++ q) ∷ behind_dots a (b'.' ∷ (b ++ q))
unfolding behind_dots
behind_dots-append [] b q h = rw h behind_dot
  where
    behind_dot : behind b'.' (b ++ q) ≡ (b ++ q) ∷ []
    behind_dot = unfold behind in refl
behind_dots-append (c ∷ a) b q h =
    ap (λ t. t ++ behind c ((a ++ b'.' ∷ b) ++ q)) (behind_dots-append a b q h)
    ∙ ap (λ t. (b ++ q) ∷ behind_dots a (b'.' ∷ (b ++ q)) ++ behind c t)
        (append_assoc a (b'.' ∷ b) q)

-- A position that `rfind` is given leaves exactly `before` to be searched.
abbrev pub Searches : ℕ → Bytes → Bytes → Type 0
Searches dot before after = take (suc ((dot + 2 ^ 64 - 1) % 2 ^ 64)) (before ++ after) ≡ before

region_loop-none :
    (rounds : ℕ) (m : StringMap) (host : Bytes) (dot : ℕ)
    → rfind b'.' ((dot + 2 ^ 64 - 1) % 2 ^ 64) host ≡ none
    → region_loop (suc rounds) m host dot ≡ some (first_match m (host ∷ []))
unfolding region_loop first_match
region_loop-none rounds m host dot h = rw (h, region_loop) (ground arith)

pub region_loop-some :
    (rounds : ℕ) (m : StringMap) (host : Bytes) (dot next : ℕ) (rest : Bytes) (names : List Bytes)
    → rfind b'.' ((dot + 2 ^ 64 - 1) % 2 ^ 64) host ≡ some next
    → drop (suc next) host ≡ rest
    → region_loop rounds m host next ≡ some (first_match m names)
    → region_loop (suc rounds) m host dot ≡ some (first_match m (rest ∷ names))
unfolding region_loop first_match
region_loop-some rounds m host dot next rest names h e k = ground arith

-- A host name that begins with a dot is excluded.
abbrev pub NoLeadingDot : Bytes → Type 0
NoLeadingDot [] = Unit
NoLeadingDot (c ∷ s) = c ≢ b'.'

pub length_before : (before a b : Bytes) → before ≡ a ++ b'.' ∷ b → length a < length before
length_before before a b e = omega (arith, ap (length {A = ℕ}) e, length-append a (b'.' ∷ b))

before-ne-nil : (before a b : Bytes) → before ≡ a ++ b'.' ∷ b → NoLeadingDot before → 0 < length a
before-ne-nil before [] b e h = absurd (rw e at h refl)
before-ne-nil before (c ∷ a) b e h = omega arith

NoLeadingDot-before :
    (before a b : Bytes) → before ≡ a ++ b'.' ∷ b → NoLeadingDot before → NoLeadingDot a
NoLeadingDot-before before [] b e h = tt
NoLeadingDot-before before (c ∷ a) b e h = rw e at h

pub next-Searches :
    (a after : Bytes) (i : ℕ) → length a ≡ i → 0 < length a → length a < 2 ^ 64 → Searches i a after
next-Searches a after i e pos small =
    let n : suc ((i + 2 ^ 64 - 1) % 2 ^ 64) ≡ length a = omega arith in
    ap (λ k. take k (a ++ after)) n ∙ take-length a after

pub drop_behind :
    (a b after : Bytes) (i : ℕ)
    → length a ≡ i
    → drop (suc i) (a ++ b'.' ∷ (b ++ after)) ≡ b ++ after
drop_behind a b after i e = rw (← e) (drop_dot a (b ++ after))
  where
    drop_dot : (a s : Bytes) → drop (suc (length a)) (a ++ b'.' ∷ s) ≡ s
    drop_dot [] s = refl
    drop_dot (c ∷ a) s = drop_dot a s

region_loop_lem :
    (rounds : ℕ) (m : StringMap) (before after host : Bytes) (dot : ℕ)
    → host ≡ before ++ after
    → Searches dot before after
    → length before < 2 ^ 64
    → length before < rounds
    → NoLeadingDot before
    → region_loop rounds m host dot ≡ some (first_match m (behind_dots before after ++ host ∷ []))
region_loop_lem zero m before after host dot e s small enough h = absurd (omega arith)
region_loop_lem (suc r) m before after host dot e s small enough h =
    elim (Option-cases (find_last b'.' before)) [
      | inl none_left ↦
          region_loop-none r m host dot (rw e (unfold rfind in ap (find_last b'.') s ∙ none_left))
          ∙ ap (λ t. some (first_match m (t ++ host ∷ [])))
              (sym (find_last-none before after none_left))
      | inr (i, found) ↦
          let d : LastDot before i = find_last-some before i found in
          let host_is : host ≡ d.before ++ b'.' ∷ (d.after ++ after) =
            e ∙ ap (λ t. t ++ after) d.splits ∙ append_assoc d.before (b'.' ∷ d.after) after in
          region_loop-some r m host dot i (d.after ++ after)
            (behind_dots d.before (b'.' ∷ (d.after ++ after)) ++ host ∷ [])
            (rw e (unfold rfind in ap (find_last b'.') s ∙ found))
            (rw host_is (drop_behind d.before d.after after i d.position))
            (region_loop_lem r m d.before (b'.' ∷ (d.after ++ after)) host i host_is
              (next-Searches d.before (b'.' ∷ (d.after ++ after)) i d.position
                (before-ne-nil before d.before d.after d.splits h)
                (omega (arith, length_before before d.before d.after d.splits)))
              (omega (arith, length_before before d.before d.after d.splits))
              (omega (arith, length_before before d.before d.after d.splits))
              (NoLeadingDot-before before d.before d.after d.splits h))
          ∙ ap (λ t. some (first_match m (t ++ host ∷ [])))
              (sym (
                ap (λ t. behind_dots t after) d.splits
                ∙ behind_dots-append d.before d.after after d.no_more))
    ]

pub take_all : (n : ℕ) (s : Bytes) → length s ≤ n → take n s ≡ s
take_all zero [] h = refl
take_all zero (c ∷ s) h = absurd (omega arith)
take_all (suc n) [] h = refl
take_all (suc n) (c ∷ s) h = ap (◌∷◌ c) (take_all n s (omega arith))

-- With one round more than the host name has bytes, `getRegion` returns the region of the first
-- candidate, from the top-level domain on, or the default where that is empty or there is none.
-- The host name does not begin with a dot and is shorter than the greatest `size_t`.
pub get_region-first_match :
    (rounds : ℕ) (region_map : StringMap) (hostname : Bytes)
    → NoLeadingDot hostname
    → length hostname < npos
    → length hostname < rounds
    → get_region rounds region_map hostname
      ≡ some (or_default region_map (first_match region_map (candidates hostname)))
unfolding get_region candidates
get_region-first_match rounds m host h small enough =
    let found =
      region_loop_lem rounds m host [] host npos (sym (append-nil host))
        (rw append-nil (take_all (2 ^ 64 - 1) host (omega arith))) (omega arith) enough h in
    rw (found, get_region)
