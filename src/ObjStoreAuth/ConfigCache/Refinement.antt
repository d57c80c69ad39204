-- ===== src/ObjStoreAuth/ConfigCache/Refinement.antt =====
-- What the cache promises its users, as a function from paths, and that `ConfigCache::get` of
-- src/obj_store_auth/obj_store_auth.cc implements it.
use mathlib.Core.Path.{fun_ext, ap₂}
use ats_plugin_experiment.Base.{
  ℕ, ◌+◌, ◌%◌, Bool, true, false, ◌==◌, Option, none, some, List, [], ◌∷◌, Bytes, bytes_eq, ltb,
  if◌then◌else◌, ◌≡◌, ◌∙◌, ap, sym, inl, inr, refl, arith, Bool-cases, Option-cases, bytes_eq_iff,
}
use ats_plugin_experiment.ObjStoreAuth.Files.{Files, make_config_path}
use ats_plugin_experiment.ObjStoreAuth.Config.{S3Config}
use ats_plugin_experiment.ObjStoreAuth.ConfigFile.{TextView}
use ats_plugin_experiment.ObjStoreAuth.ConfigCache.{
  ConfigData, Cache, find_data, update_data, is_stale, load_config, get,
}
use ats_plugin_experiment.ObjStoreAuth.ConfigCache.Freshness.{
  get_fresh, get_stale, get_new, get_failed,
}
use ats_plugin_experiment.ObjStoreAuth.ConfigCache.Entries.{
  AreCached, find_data-IsEntryData, get-AreCached,
}

-- A loaded file: when it was read, and what came of it.
pub record Loaded : Type 0 where
  pub load_time : ℕ
  pub config : Option S3Config

abbrev pub Store : Type 0
Store = Bytes → Option Loaded

abbrev pub remember : Bytes → Loaded → Store → Store
remember path l store q = if bytes_eq path q then some l else store q

-- The reply to a request: what was read at most 60 seconds ago, or what the file holds now. A file
-- that cannot be read for the first time is not remembered.
unfoldable pub reply : ℕ → Bytes → Option S3Config → Store → Store × Option S3Config
reply now path current store = elim (store path) [
  | some l ↦
      if ltb (l.load_time + 60) now
      then (remember path (record { load_time = now; config = current }) store, current)
      else (store, l.config)
  | none ↦ elim current [
    | some s3 ↦ (remember path (record { load_time = now; config = some s3 }) store, some s3)
    | none ↦ (store, none)
  ]
]

abbrev pub forget : ConfigData → Loaded
forget d = record { load_time = d.load_time; config = d.config }

abbrev pub forget_all : Option ConfigData → Option Loaded
forget_all none = none
forget_all (some d) = some (forget d)

-- The cache without the order of its entries and the counts of their updates.
unfoldable pub view : Cache → Store
view cache path = forget_all (find_data path cache)

bytes_eq_trans : (k p q : Bytes) → bytes_eq k p ≡ true → bytes_eq k q ≡ bytes_eq p q
bytes_eq_trans k p q h = ap (λ x. bytes_eq x q) ((bytes_eq_iff k p).0 h)

same_branch :
    (b : Bool) (x y z : Option ConfigData)
    → (if b then x else z) ≡ (if b then x else if b then y else z)
same_branch true x y z = refl
same_branch false x y z = refl

apart : (k p q : Bytes) → bytes_eq k p ≡ false → bytes_eq k q ≡ true → bytes_eq p q ≡ false
apart k p q n h = elim (Bool-cases (bytes_eq p q)) [
  | inl e ↦ absurd (cc (n, h, ap (bytes_eq k) ((bytes_eq_iff p q).0 e)))
  | inr e ↦ e
]

find_data-update_data_any :
    (p : Bytes) (d : ConfigData) (cache : Cache) (e : ConfigData) (q : Bytes)
    → find_data p cache ≡ some e
    → find_data q (update_data p d cache) ≡ (if bytes_eq p q then some d else find_data q cache)
unfolding find_data update_data
find_data-update_data_any p d [] e q h = ground (arith, h)
find_data-update_data_any p d ((k, x) ∷ cache) e q h = elim (Bool-cases (bytes_eq k p)) [
  | inl b ↦
      rw (b, sym (bytes_eq_trans k p q b))
        (same_branch (bytes_eq k q) (some d) (some x) (find_data q cache))
  | inr b ↦ elim (Bool-cases (bytes_eq k q)) [
    | inl c ↦ rw (b, c) (rw (apart k p q b c) refl)
    | inr c ↦ rw (b, c) (find_data-update_data_any p d cache e q (rw b at h))
  ]
]

forget_all_if :
    (b : Bool) (d : ConfigData) (o : Option ConfigData)
    → forget_all (if b then some d else o) ≡ (if b then some (forget d) else forget_all o)
forget_all_if true d o = refl
forget_all_if false d o = refl

view-update_data :
    (p : Bytes) (d e : ConfigData) (cache : Cache)
    → find_data p cache ≡ some e
    → view (update_data p d cache) ≡ remember p (forget d) (view cache)
unfolding view
view-update_data p d e cache h = fun_ext λ q.
    ap forget_all (find_data-update_data_any p d cache e q h) ∙ forget_all_if (bytes_eq p q) d _

view-insert :
    (p : Bytes) (d : ConfigData) (cache : Cache)
    → view ((p, d) ∷ cache) ≡ remember p (forget d) (view cache)
unfolding view find_data
view-insert p d cache = fun_ext λ q. forget_all_if (bytes_eq p q) d _

module _ (now : ℕ) (path : Bytes) (current : Option S3Config) (store : Store) where
  reply_kept :
      (l : Loaded)
      → store path ≡ some l
      → ltb (l.load_time + 60) now ≡ false
      → reply now path current store ≡ (store, l.config)
  unfolding reply
  reply_kept l h s = ground (arith, h, s)

  reply_again :
      (l : Loaded)
      → store path ≡ some l
      → ltb (l.load_time + 60) now ≡ true
      → reply now path current store
        ≡ (remember path (record { load_time = now; config = current }) store, current)
  unfolding reply
  reply_again l h s = ground (arith, h, s)

  reply_first :
      (s3 : S3Config)
      → store path ≡ none
      → current ≡ some s3
      → reply now path current store
        ≡ (remember path (record { load_time = now; config = some s3 }) store, some s3)
  unfolding reply
  reply_first s3 h l = ground (arith, h, l)

  reply_never : store path ≡ none → current ≡ none → reply now path current store ≡ (store, none)
  unfolding reply
  reply_never h l = ground (arith, h, l)

abbrev seen : Cache × Option S3Config → Store × Option S3Config
seen (cache, s3) = (view cache, s3)

module _ (tv : TextView) (files : Files) (now : ℕ) (fname : Bytes) (cache : Cache) where
  -- One call of `get` answers the request, for the caller and for what the cache stands for.
  pub get-reply :
      AreCached cache
      → seen (get tv files now fname cache)
        ≡ reply now (make_config_path files fname) (load_config tv files fname) (view cache)
  unfolding is_stale view
  get-reply a =
      let path = make_config_path files fname in
      let loaded = load_config tv files fname in
      elim (Option-cases (find_data path cache)) [
        | inl n ↦ elim (Option-cases loaded) [
          | inl l ↦
              ap seen (get_failed tv files now fname cache n l)
              ∙ sym (reply_never now path loaded (view cache) (ap forget_all n) l)
          | inr (s3, l) ↦
              ap seen (get_new tv files now fname cache s3 n l)
              ∙ ap (λ store. (store, some s3)) (view-insert path _ cache)
              ∙ sym (reply_first now path loaded (view cache) s3 (ap forget_all n) l)
        ]
        | inr (o, f) ↦
            let entry = find_data-IsEntryData path o cache a f in
            let held = ap forget_all f in
            elim (Bool-cases (ltb (o.load_time + 60) now)) [
              | inr s ↦
                  ap seen (get_fresh tv files now fname cache o f s)
                  ∙ sym (reply_kept now path loaded (view cache) (forget o) held s)
              | inl s ↦
                  let even : (o.update_status % 2 == 0) ≡ true = ground (arith, entry.idle) in
                  ap seen (get_stale tv files now fname cache o f s even)
                  ∙ ap (λ store. (store, loaded)) (view-update_data path _ o cache f)
                  ∙ sym (reply_again now path loaded (view cache) (forget o) held s)
            ]
      ]

-- One request to the cache: the files as they are then, the time, and the name that a rule gives.
pub record Lookup : Type 0 where
  pub files : Files
  pub now : ℕ
  pub fname : Bytes

module _ (tv : TextView) where
  -- The requests of a run, in order, and what the cache returns for each.
  unfoldable pub get_all : List Lookup → Cache → List (Option S3Config)
  get_all [] cache = []
  get_all (r ∷ rs) cache =
      let (after, s3) = get tv r.files r.now r.fname cache in s3 ∷ get_all rs after

  unfoldable pub reply_all : List Lookup → Store → List (Option S3Config)
  reply_all [] store = []
  reply_all (r ∷ rs) store =
      let (after, s3) =
        reply r.now (make_config_path r.files r.fname) (load_config tv r.files r.fname) store in
      s3 ∷ reply_all rs after

  -- A cache in which no reload is left open and whose entries are named and sized returns, for every
  -- sequence of requests, at any times and whatever the files hold at each of them, what the store
  -- that it stands for answers: for a path, what was read at most 60 seconds before, and else what
  -- the file holds at the time of the request.
  pub get_all-reply_all :
      (rs : List Lookup) (cache : Cache)
      → AreCached cache
      → get_all rs cache ≡ reply_all rs (view cache)
  unfolding get_all reply_all
  get_all-reply_all [] cache a = refl
  get_all-reply_all (r ∷ rs) cache a =
      let e = get-reply tv r.files r.now r.fname cache a in
      let kept = get-AreCached tv r.files r.fname r.now cache a in
      ap₂ ◌∷◌ (ap (λ p. p.1) e) (get_all-reply_all rs _ kept.0 ∙ ap (λ p. reply_all rs p.0) e)
