-- ===== src/Lmdb/Stored.antt =====
-- What the program src/lmdb_setup/lmdb_setup.cc leaves in the database, for the plugin to read.
use mathlib.Core.Path.{subst}
use ats_plugin_experiment.Base.{
  pos, ℕ, true, if◌then◌else◌, Option, none, some, List, [], ◌∷◌, ◌++◌, Bytes, codes, bytes_eq, ◌≡◌,
  ◌∙◌, ap, sym, inl, inr, refl, Bool-cases, Option-cases, ℤ,
}
use ats_plugin_experiment.ObjStoreAuth.Credentials.{BufferWriter}
use ats_plugin_experiment.Lmdb.{
  Library, ok, thrown, State, M, pure, ◌>>=◌, ◌>>◌, is_success, may_throw, open_dbi, get, put,
  commit, scope,
}
use ats_plugin_experiment.Lmdb.Handles.{
  committing, finishing, Attempt-cases, bind_ok, bind_thrown, committed, commit_code,
  commit_succeeds, commit_fails, destroy_done,
}
use ats_plugin_experiment.Lmdb.Setup.{
  Credential, Stop, finished, buffer_too_small, yaml_exception, is_finished, value_of, put_all,
  use_txn,
}

-- The documented effects that the programs rely on: a transaction sees at first what the database
-- holds, `mdb_get` finds what the transaction sees, a successful `mdb_put` without flags stores the
-- value under the key, in the running transaction, and a successful `mdb_txn_commit` makes what the
-- transaction sees what the database holds.
pub record Contents {W : Type 0} (library : Library W) : Type 0 where
  pub seen : W → ℕ → Bytes → Option Bytes
  pub held : W → ℕ → Bytes → Option Bytes
  pub seen-txn_begin :
      (flags dbi : ℕ) (k : Bytes) (w : W)
      → is_success (library.txn_begin flags w).0.0 ≡ true
      → seen (library.txn_begin flags w).1 dbi k ≡ held w dbi k
  pub lookup-seen :
      (txn : Option ℕ) (dbi : ℕ) (k value : Bytes) (w : W)
      → seen w dbi k ≡ some value
      → library.lookup txn dbi k w ≡ (pos 0, value)
  pub seen-put :
      (txn : Option ℕ) (dbi : ℕ) (key value k : Bytes) (w : W)
      → is_success (library.put txn dbi key value 0 w).0 ≡ true
      → seen (library.put txn dbi key value 0 w).1 dbi k
        ≡ (if bytes_eq key k then some value else seen w dbi k)
  pub held-txn_commit :
      (txn : Option ℕ) (dbi : ℕ) (k : Bytes) (w : W)
      → is_success (library.txn_commit txn w).0 ≡ true
      → held (library.txn_commit txn w).1 dbi k ≡ seen w dbi k

-- The value of a key after the credentials, from what it was before.
abbrev pub latest : BufferWriter → List (Option Credential) → Bytes → Option Bytes → Option Bytes
latest writer [] k before = before
latest writer (none ∷ cs) k before = latest writer cs k before
latest writer (some c ∷ cs) k before =
    latest writer cs k (if bytes_eq c.key k then value_of writer c else before)

pub thrown_ok : {A : Type 0} (e : ℤ) (a : A) → thrown e ≡ ok a → ⊥
thrown_ok e a h = cc h

pub bind_inv :
    {W A B : Type 0} (m : M W A) (f : A → M W B) (s t : State W) (b : B)
    → (m >>= f) s ≡ (ok b, t)
    → (a : A) × (u : State W) × (m s ≡ (ok a, u)) × (f a u ≡ (ok b, t))
bind_inv m f s t b h = elim (Attempt-cases (m s).0) [
  | inl (a, e) ↦
      let at = bind_ok m f s (m s).1 a (ap (λ r. (r, (m s).1)) e) in
      (a, (m s).1, ap (λ r. (r, (m s).1)) e, sym at ∙ h)
  | inr (c, e) ↦
      let at = bind_thrown m f s (m s).1 c (ap (λ r. (r, (m s).1)) e) in
      absurd (thrown_ok c b (ap (λ p. p.0) (sym at ∙ h)))
]

may_throw_inv :
    {W : Type 0} (code : ℤ) (s t : State W)
    → may_throw code s ≡ (ok tt, t)
    → (is_success code ≡ true) × (s ≡ t)
unfolding may_throw
may_throw_inv code s t h = elim (Bool-cases (is_success code)) [
  | inl b ↦ let same = rw b at h in (b, ap (λ p. p.1) same)
  | inr b ↦ absurd (thrown_ok code tt (ap (λ p. p.0) (rw b at h)))
]

module _ {W : Type 0} (library : Library W) (writer : BufferWriter)
    (contents : Contents library) where
  put_inv :
      (dbi : ℕ) (key value k : Bytes) (s t : State W)
      → put library dbi key value 0 s ≡ (ok tt, t)
      → contents.seen t.world dbi k
        ≡ (if bytes_eq key k then some value else contents.seen s.world dbi k)
  unfolding put
  put_inv dbi key value k s t h =
      let r = library.put s.txn dbi key value 0 s.world in
      let (b, e) = may_throw_inv r.0 (record s { world = r.1 }) t h in
      subst
        (λ (u : State W).
          contents.seen u.world dbi k
          ≡ (if bytes_eq key k then some value else contents.seen s.world dbi k))
        e (contents.seen-put s.txn dbi key value k s.world b)

  get_inv :
      (dbi : ℕ) (key value : Bytes) (s t : State W) → get library dbi key s ≡ (ok value, t) → s ≡ t
  unfolding get
  get_inv dbi key value s t h =
      let r = library.lookup s.txn dbi key s.world in
      let (_, u, e, f) = bind_inv (may_throw r.0) (λ _. pure r.1) s t value h in
      (may_throw_inv r.0 s u e).1 ∙ ap (λ p. p.1) f

  stopped : ok buffer_too_small ≡ ok finished → ⊥
  stopped h = cc h

  put_all-none :
      (dbi : ℕ) (c : Credential) (cs : List (Option Credential))
      → value_of writer c ≡ none
      → put_all library writer dbi (some c ∷ cs) ≡ pure buffer_too_small
  unfolding put_all
  put_all-none dbi c cs h = rw (put_all, h) refl

  put_all-some :
      (dbi : ℕ) (c : Credential) (cs : List (Option Credential)) (value : Bytes)
      → value_of writer c ≡ some value
      → put_all library writer dbi (some c ∷ cs) ≡ (
          put library dbi c.key value 0
          >> (get library dbi c.key >>= λ _. put_all library writer dbi cs))
  unfolding put_all
  put_all-some dbi c cs value h = rw (put_all, h) refl

  -- What the transaction sees after the loop has ended.
  put_all_lem :
      (cs : List (Option Credential)) (dbi : ℕ) (k : Bytes) (s t : State W)
      → put_all library writer dbi cs s ≡ (ok finished, t)
      → contents.seen t.world dbi k ≡ latest writer cs k (contents.seen s.world dbi k)
  unfolding put_all
  put_all_lem [] dbi k s t h = ap (λ p. contents.seen p.1.world dbi k) (sym h)
  put_all_lem (none ∷ cs) dbi k s t h = absurd (cc (ap (λ p. p.0) h))
  put_all_lem (some c ∷ cs) dbi k s t h = elim (Option-cases (value_of writer c)) [
    | inl n ↦
        let stops = ap (λ m. m s) (put_all-none dbi c cs n) in
        absurd (stopped (ap (λ p. p.0) (sym stops ∙ h)))
    | inr (value, v) ↦
        let runs = ap (λ m. m s) (put_all-some dbi c cs value v) in
        let rest_of : M W Stop = get library dbi c.key >>= λ _. put_all library writer dbi cs in
        let (_, u, puts, rest) =
          bind_inv (put library dbi c.key value 0) (λ _. rest_of) s t finished (sym runs ∙ h) in
        let (_, w, gets, more) =
          bind_inv (get library dbi c.key) (λ _. put_all library writer dbi cs) u t finished rest in
        let same =
          ap (λ (x : State W). contents.seen x.world dbi k) (sym (get_inv dbi c.key _ u w gets)) in
        put_all_lem cs dbi k w t more
        ∙ ap (latest writer cs k) (same ∙ put_inv dbi c.key value k s u puts)
        ∙ ap (λ o. latest writer cs k (if bytes_eq c.key k then o else contents.seen s.world dbi k))
            (sym v)
  ]

  rest_inv :
      (dbi : ℕ) (c : Credential) (cs : List (Option Credential)) (value : Bytes) (s t : State W)
      → value_of writer c ≡ some value
      → put_all library writer dbi (some c ∷ cs) s ≡ (ok finished, t)
      → (w : State W) × (put_all library writer dbi cs w ≡ (ok finished, t))
  rest_inv dbi c cs value s t v h =
      let runs = ap (λ m. m s) (put_all-some dbi c cs value v) in
      let rest_of : M W Stop = get library dbi c.key >>= λ _. put_all library writer dbi cs in
      let (_, u, puts, rest) =
        bind_inv (put library dbi c.key value 0) (λ _. rest_of) s t finished (sym runs ∙ h) in
      let (_, w, gets, more) =
        bind_inv (get library dbi c.key) (λ _. put_all library writer dbi cs) u t finished rest in
      (w, more)

  -- A run over the credentials that ends at its end has written every one of them.
  pub put_all-written :
      (early late : List (Option Credential)) (c : Credential) (dbi : ℕ) (s t : State W)
      → put_all library writer dbi (early ++ some c ∷ late) s ≡ (ok finished, t)
      → (value : Bytes) × (value_of writer c ≡ some value)
  unfolding put_all
  put_all-written [] late c dbi s t h = elim (Option-cases (value_of writer c)) [
    | inl n ↦
        let stops = ap (λ m. m s) (put_all-none dbi c late n) in
        absurd (stopped (ap (λ p. p.0) (sym stops ∙ h)))
    | inr found ↦ found
  ]
  put_all-written (none ∷ early) late c dbi s t h = absurd (cc (ap (λ p. p.0) h))
  put_all-written (some d ∷ early) late c dbi s t h = elim (Option-cases (value_of writer d)) [
    | inl n ↦
        let stops = ap (λ m. m s) (put_all-none dbi d (early ++ some c ∷ late) n) in
        absurd (stopped (ap (λ p. p.0) (sym stops ∙ h)))
    | inr (value, v) ↦
        let (w, more) = rest_inv dbi d (early ++ some c ∷ late) value s t v h in
        put_all-written early late c dbi w t more
  ]

  commit_inv :
      (dbi : ℕ) (k : Bytes) (s t : State W)
      → commit library s ≡ (ok tt, t)
      → (contents.held t.world dbi k ≡ contents.seen s.world dbi k) × (t.is_done ≡ true)
  unfolding committed commit_code
  commit_inv dbi k s t h = elim (Bool-cases (is_success (commit_code library s))) [
    | inl b ↦
        let done : State W = record (committed library s) { is_done = true } in
        let same : done ≡ t = ap (λ p. p.1) (sym (commit_succeeds library s b) ∙ h) in
        (
          ap (λ (x : State W). contents.held x.world dbi k) (sym same)
              ∙ contents.held-txn_commit s.txn dbi k s.world b,
          ap (λ (x : State W). x.is_done) (sym same),
        )
    | inr b ↦
        absurd (
          thrown_ok (commit_code library s) tt (ap (λ p. p.0) (sym (commit_fails library s b) ∙ h)))
  ]

  -- Only the end of the loop leads to `return 0`, and then the transaction was committed.
  finishing_inv :
      (stop : Stop) (u t : State W)
      → finishing library is_finished stop u ≡ (ok finished, t)
      → (stop ≡ finished) × (commit library u ≡ (ok tt, t))
  finishing_inv finished u t h =
      let (done, v, e, f) = bind_inv (commit library) (λ _. pure finished) u t finished h in
      (refl, e ∙ ap (λ p. (ok tt, p.1)) f)
  finishing_inv buffer_too_small u t h = absurd (cc (ap (λ p. p.0) h))
  finishing_inv yaml_exception u t h = absurd (cc (ap (λ p. p.0) h))

  -- The transaction, from its beginning to the end of its scope.
  pub scope_inv :
      (cs : List (Option Credential)) (k : Bytes) (s t : State W)
      → scope library (committing library is_finished (use_txn library writer cs)) s
        ≡ (ok finished, t)
      → (dbi : ℕ) × (u : State W) × (open_dbi library (codes "credentials") library.create s
          ≡ (ok dbi, u))
        × (contents.held t.world dbi k ≡ latest writer cs k (contents.seen u.world dbi k))
        × (end : State W) × (put_all library writer dbi cs u ≡ (ok finished, end))
  unfolding scope use_txn
  scope_inv cs k s t h =
      let whole = committing library is_finished (use_txn library writer cs) in
      let end = (whole s).1 in
      let (stop, u, used, ended) =
        bind_inv (use_txn library writer cs) (finishing library is_finished) s end finished
          (ap (λ p. (p.0, end)) h) in
      let (at_end, commits) = finishing_inv stop u end ended in
      let (dbi, v, opens, puts) =
        bind_inv (open_dbi library (codes "credentials") library.create)
          (λ d. put_all library writer d cs) s u finished (used ∙ ap (λ x. (ok x, u)) at_end) in
      let (kept, done) = commit_inv dbi k u end commits in
      let same = sym (destroy_done library end done) ∙ ap (λ p. p.1) h in
      (
        dbi,
        v,
        opens,
        ap (λ (x : State W). contents.held x.world dbi k) (sym same)
            ∙ kept
            ∙ put_all_lem cs dbi k v u puts,
        u,
        puts,
      )
