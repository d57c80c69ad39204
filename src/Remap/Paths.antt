-- ===== src/Remap/Paths.antt =====
-- The paths that `TSRemapDoRemap` of src/remap/remap.cc rewrites, and the buffer that it does it in.
use ats_plugin_experiment.Base.{
  ℕ, zero, suc, bytes_eq, bytes_eq_iff, bytes_eq_refl, sym, ap, take, ◌∙◌, ◌<◌, ◌+◌, ◌-◌, ◌≤◌, Bool,
  true, false, ◌&&◌, ◌==◌, leb, some, [], ◌∷◌, ◌++◌, Bytes, codes, drop, length, ◌≡◌, inl, inr,
  refl, arith, Bool-cases, take_whole,
}
use ats_plugin_experiment.Remap.Requests.{
  RequestInfo, Api, RemapStatus, no_remap, did_remap, is_hardcoded, copy_behind, new_path,
  remap_hardcoded,
}

-- A request for a path that begins with `47/`, on port 80 of flickr.com.
pub record IsExpected (r : RequestInfo) : Type 0 where
  pub host_is : r.host ≡ codes "flickr.com"
  pub port_is : r.port ≡ 80
  pub rest : Bytes
  pub path_is : r.path ≡ codes "47/" ++ rest

-- `TSRemapDoRemap` gets as far as to change the host.
pub record IsMoved (api : Api) (r : RequestInfo) : Type 0 where
  pub expected : IsExpected r
  pub short : length r.path < 8185
  pub port_is_set : api.port_set ≡ true
  pub host_is_set : api.host_set ≡ true

-- The three ways in which it ends.
pub data IsOutcome (api : Api) (r : RequestInfo) : RemapStatus → RequestInfo → Type 0 where
  refused : (IsMoved api r → ⊥) → IsOutcome api r no_remap r
  host_only :
      IsMoved api r
      → api.path_set ≡ false
      → IsOutcome api r no_remap (record r { host = codes "foo.bar.com" })
  remapped :
      IsMoved api r
      → api.path_set ≡ true
      → IsOutcome api r did_remap
          (record r { host = codes "foo.bar.com"; path = codes "47_copy" ++ drop 2 r.path })

no_bool : false ≡ true → ⊥
no_bool e = cc e

take-drop : (n : ℕ) (s : Bytes) → s ≡ take n s ++ drop n s
take-drop zero s = refl
take-drop (suc n) [] = refl
take-drop (suc n) (c ∷ s) = ap (λ t. c ∷ t) (take-drop n s)

conjuncts :
    (a b c d e : Bool)
    → (a && b && c && d && e) ≡ true
    → (a ≡ true) × (b ≡ true) × (c ≡ true) × (e ≡ true)
conjuncts a b c d e h = ground (arith, h)

hardcoded-IsExpected : (r : RequestInfo) → is_hardcoded r ≡ true → IsExpected r
unfolding is_hardcoded
hardcoded-IsExpected r h =
    let (long, host, port, path) =
      conjuncts (length r.host == 10) (bytes_eq (take 10 r.host) (codes "flickr.com"))
        (r.port == 80) (leb 3 (length r.path)) (bytes_eq (take 3 r.path) (codes "47/")) h in
    record {
      host_is =
          sym (take_whole 10 r.host (ground (arith, long)))
          ∙ (bytes_eq_iff (take 10 r.host) (codes "flickr.com")).0 host;
      port_is = ground (arith, port);
      rest = drop 3 r.path;
      path_is =
          take-drop 3 r.path
          ∙ ap (λ t. t ++ drop 3 r.path) ((bytes_eq_iff (take 3 r.path) (codes "47/")).0 path);
    }

expected-is_hardcoded : (r : RequestInfo) → IsExpected r → is_hardcoded r ≡ true
unfolding is_hardcoded
expected-is_hardcoded r h =
    let long : leb 3 (suc (suc (suc (length h.rest)))) ≡ true = ground arith in
    rw
      (
        h.host_is,
        h.port_is,
        h.path_is,
        long,
        bytes_eq_refl (codes "flickr.com"),
        bytes_eq_refl (codes "47/"),
      )
      refl

length-drop_two : (path : Bytes) → 3 ≤ length path → length (drop 2 path) ≡ length path - 2
length-drop_two [] h = absurd (omega (arith, h))
length-drop_two (a ∷ []) h = absurd (omega (arith, h))
length-drop_two (a ∷ b ∷ path) h = omega arith

long_of_expected : (r : RequestInfo) → IsExpected r → 3 ≤ length r.path
long_of_expected r h = let size = ap length h.path_is in omega (arith, size)

length-renamed :
    (path : Bytes) → 3 ≤ length path → length (codes "47_copy" ++ drop 2 path) ≡ length path + 5
length-renamed path h = let rest = length-drop_two path h in omega (arith, h, rest)

-- The copies stay inside the buffer.
new_path_lem :
    (path : Bytes)
    → 3 ≤ length path
    → leb 8192 (length path + 7) ≡ false
    → new_path path ≡ some (codes "47_copy" ++ drop 2 path)
unfolding new_path copy_behind
new_path_lem path long short =
    let rest = length-drop_two path long in
    let fits : leb (7 + length (drop 2 path)) 8192 ≡ true = ground (arith, rest, short, long) in
    let whole = take_whole (length path - 2) (drop 2 path) (omega (arith, rest)) in
    rw (whole, fits) refl

-- Whatever the request and the results of the setters, `TSRemapDoRemap` copies nothing past the end
-- of its buffer of 8192 bytes, and ends in one of three ways: the URL is as it was, where the request
-- is not for a path `47/` on port 80 of flickr.com, its path has 8185 bytes or more, or the port or the
-- host cannot be set; otherwise, only the host is changed, where the path cannot be set; or the host is
-- foo.bar.com, `47` at the front of the path is replaced by `47_copy`, and the rest of the path is
-- kept. It reports a remap in the last case only.
pub remap_hardcoded-IsOutcome :
    (api : Api) (r : RequestInfo)
    → (status : RemapStatus) × (left : RequestInfo) × (remap_hardcoded api r ≡ some (status, left))
      × IsOutcome api r status left
unfolding remap_hardcoded
remap_hardcoded-IsOutcome api r = elim (Bool-cases (is_hardcoded r)) [
  | inr b ↦
      (no_remap, r, rw b refl, refused (λ w. no_bool (sym b ∙ expected-is_hardcoded r w.expected)))
  | inl b ↦ elim (Bool-cases (leb 8192 (length r.path + 7))) [
    | inl l ↦ (
      no_remap,
      r,
      rw (b, l) refl,
      refused (λ w. let s = w.short in absurd (ground (arith, l, s))),
    )
    | inr l ↦ elim (Bool-cases api.port_set) [
      | inr p ↦ (no_remap, r, rw (b, l, p) refl, refused (λ w. no_bool (sym p ∙ w.port_is_set)))
      | inl p ↦ elim (Bool-cases api.host_set) [
        | inr q ↦
            (no_remap, r, rw (b, l, p, q) refl, refused (λ w. no_bool (sym q ∙ w.host_is_set)))
        | inl q ↦
            let expected = hardcoded-IsExpected r b in
            let long = long_of_expected r expected in
            let moved : IsMoved api r = record {
              expected = expected;
              short = ground (arith, l);
              port_is_set = p;
              host_is_set = q;
            } in
            let made = new_path_lem r.path long l in
            let kept =
              take_whole (length r.path + 5) (codes "47_copy" ++ drop 2 r.path)
                (omega (arith, length-renamed r.path long)) in
            elim (Bool-cases api.path_set) [
              | inr t ↦ (
                no_remap,
                record r { host = codes "foo.bar.com" },
                rw (b, l, p, q, made, t) refl,
                host_only moved t,
              )
              | inl t ↦ (
                did_remap,
                record r { host = codes "foo.bar.com"; path = codes "47_copy" ++ drop 2 r.path },
                rw (b, l, p, q, made, t, kept) refl,
                remapped moved t,
              )
            ]
      ]
    ]
  ]
]
