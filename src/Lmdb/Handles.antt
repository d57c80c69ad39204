-- ===== src/Lmdb/Handles.antt =====
-- How often a program that uses include/lmdb-cpp.h passes the handle of a transaction to
-- `mdb_txn_commit` or `mdb_txn_abort`, which both release it.
use mathlib.Core.Path.{subst}
use ats_plugin_experiment.Base.{
  ℕ, Bool, true, false, if◌then◌else◌, some, ◌∷◌, Bytes, ℤ, ◌≡◌, ◌⊎◌, ◌∙◌, ap, sym, inl, inr, refl,
  Bool-cases,
}
use ats_plugin_experiment.Lmdb.{
  Library, Attempt, ok, thrown, State, M, pure, ◌>>=◌, ◌>>◌, is_success, code_eq, may_throw,
  checked, open_dbi, may_get, get, put, del, commit, abort, destroy, do_begin_txn, scope, with_txn,
}

-- The object and the released handles of `t` are those of `s`.
pub record SameTxn {W : Type 0} (s t : State W) : Type 0 where
  pub same_txn : t.txn ≡ s.txn
  pub same_done : t.is_done ≡ s.is_done
  pub same_released : t.released ≡ s.released

-- An action that works with the data only.
abbrev pub IsAccess : {W A : Type 0} → M W A → Type 0
IsAccess {W = W} m = (s : State W) → SameTxn s (m s).1

same :
    {W : Type 0} (s t : State W)
    → t.txn ≡ s.txn
    → t.is_done ≡ s.is_done
    → t.released ≡ s.released
    → SameTxn s t
same s t a b c = record { same_txn = a; same_done = b; same_released = c }

same_trans : {W : Type 0} (s t u : State W) → SameTxn s t → SameTxn t u → SameTxn s u
same_trans s t u p q = record {
  same_txn = q.same_txn ∙ p.same_txn;
  same_done = q.same_done ∙ p.same_done;
  same_released = q.same_released ∙ p.same_released;
}

pub Attempt-cases :
    {A : Type 0} (r : Attempt A) → ((a : A) × (r ≡ ok a)) ⊎ ((e : ℤ) × (r ≡ thrown e))
Attempt-cases (ok a) = inl (a, refl)
Attempt-cases (thrown e) = inr (e, refl)

pub bind_ok :
    {W A B : Type 0} (m : M W A) (f : A → M W B) (s t : State W) (a : A)
    → m s ≡ (ok a, t)
    → (m >>= f) s ≡ f a t
bind_ok m f s t a h = ap (λ p. elim p.0 [ ok x ↦ f x p.1 | thrown c ↦ (thrown c, p.1) ]) h

pub bind_thrown :
    {W A B : Type 0} (m : M W A) (f : A → M W B) (s t : State W) (e : ℤ)
    → m s ≡ (thrown e, t)
    → (m >>= f) s ≡ (thrown e, t)
bind_thrown m f s t e h = ap (λ p. elim p.0 [ ok x ↦ f x p.1 | thrown c ↦ (thrown c, p.1) ]) h

pub pure-IsAccess : {W A : Type 0} (a : A) → IsAccess {W = W} (pure a)
pure-IsAccess a s = same s s refl refl refl

pub bind-IsAccess :
    {W A B : Type 0} (m : M W A) (f : A → M W B)
    → IsAccess m
    → ((a : A) → IsAccess (f a))
    → IsAccess (m >>= f)
bind-IsAccess m f hm hf s = elim (Attempt-cases (m s).0) [
  | inl (a, e) ↦
      let at = bind_ok m f s (m s).1 a (ap (λ r. (r, (m s).1)) e) in
      subst (λ p. SameTxn s p.1) (sym at)
        (same_trans s (m s).1 (f a (m s).1).1 (hm s) (hf a (m s).1))
  | inr (c, e) ↦
      let at = bind_thrown m f s (m s).1 c (ap (λ r. (r, (m s).1)) e) in
      subst (λ p. SameTxn s p.1) (sym at) (hm s)
]

pub may_throw-IsAccess : {W : Type 0} (code : ℤ) → IsAccess {W = W} (may_throw code)
unfolding may_throw
may_throw-IsAccess code s = elim (Bool-cases (is_success code)) [
  | inl b ↦ rw b (same s s refl refl refl)
  | inr b ↦ rw b (same s s refl refl refl)
]

-- An action that starts by replacing the world.
from_world :
    {W A : Type 0} (m : M W A) (after : W) (s : State W)
    → IsAccess m
    → SameTxn s (m (record s { world = after })).1
from_world {W = W} m after s h =
    let moved : State W = record s { world = after } in
    same_trans s moved (m moved).1 (same s moved refl refl refl) (h moved)

checked-IsAccess : {W : Type 0} (call : W → ℤ × W) → IsAccess (checked call)
checked-IsAccess call s =
    from_world (may_throw (call s.world).0) (call s.world).1 s (may_throw-IsAccess _)

returns-IsAccess :
    {W A : Type 0} (code : ℤ) (a : A) → IsAccess {W = W} (may_throw code >>= λ _. pure a)
returns-IsAccess code a =
    bind-IsAccess (may_throw code) (λ _. pure a) (may_throw-IsAccess code) (λ _. pure-IsAccess a)

module _ {W : Type 0} (library : Library W) where
  pub open_dbi-IsAccess : (name : Bytes) (flags : ℕ) → IsAccess (open_dbi library name flags)
  unfolding open_dbi
  open_dbi-IsAccess name flags s =
      let r = library.dbi_open s.txn name flags s.world in
      from_world (may_throw r.0.0 >>= λ _. pure r.0.1) r.1 s (returns-IsAccess r.0.0 r.0.1)

  pub get-IsAccess : (dbi : ℕ) (key : Bytes) → IsAccess (get library dbi key)
  unfolding get
  get-IsAccess dbi key s = returns-IsAccess _ _ s

  pub may_get-IsAccess : (dbi : ℕ) (key : Bytes) → IsAccess (may_get library dbi key)
  unfolding may_get
  may_get-IsAccess dbi key s =
      elim (Bool-cases (code_eq (library.lookup s.txn dbi key s.world).0 library.not_found)) [
        | inl b ↦ rw b (same s s refl refl refl)
        | inr b ↦ rw b (returns-IsAccess _ _ s)
      ]

  pub put-IsAccess :
      (dbi : ℕ) (key value : Bytes) (flags : ℕ) → IsAccess (put library dbi key value flags)
  unfolding put
  put-IsAccess dbi key value flags s = checked-IsAccess (library.put s.txn dbi key value flags) s

  pub del-IsAccess : (dbi : ℕ) (key : Bytes) → IsAccess (del library dbi key)
  unfolding del
  del-IsAccess dbi key s = checked-IsAccess (library.del s.txn dbi key) s

  unfoldable pub begun : ℕ → State W → State W
  begun flags s = record s {
    world = (library.txn_begin flags s.world).1;
    txn = some (library.txn_begin flags s.world).0.1;
    is_done = false;
  }

  begin_succeeds :
      (flags : ℕ) (s : State W)
      → is_success (library.txn_begin flags s.world).0.0 ≡ true
      → do_begin_txn library true flags s ≡ (ok tt, begun flags s)
  unfolding do_begin_txn begun
  begin_succeeds flags s h = rw h refl

  pub with_txn-begun :
      {A : Type 0} (flags : ℕ) (body : M W A) (s : State W)
      → is_success (library.txn_begin flags s.world).0.0 ≡ true
      → with_txn library true flags body s
        ≡ ((body (begun flags s)).0, destroy library (body (begun flags s)).1)
  unfolding with_txn scope
  with_txn-begun flags body s h =
      bind_ok (do_begin_txn library true flags) (λ _. scope library body) s (begun flags s) tt
        (begin_succeeds flags s h)

  -- The state that `do_begin_txn` leaves, where it succeeds: the object that it returns is constructed
  -- in place (`elided`), or moved, and then the local one has aborted the transaction.
  unfoldable pub started : Bool → ℕ → State W → State W
  started elided flags s =
      if elided then begun flags s else record (abort library (begun flags s)) { is_done = false }

  start_succeeds :
      (elided : Bool) (flags : ℕ) (s : State W)
      → is_success (library.txn_begin flags s.world).0.0 ≡ true
      → do_begin_txn library elided flags s ≡ (ok tt, started elided flags s)
  unfolding do_begin_txn begun started destroy
  start_succeeds true flags s h = rw h refl
  start_succeeds false flags s h = rw h refl

  pub with_txn-started :
      {A : Type 0} (elided : Bool) (flags : ℕ) (body : M W A) (s : State W)
      → is_success (library.txn_begin flags s.world).0.0 ≡ true
      → with_txn library elided flags body s
        ≡ ((body (started elided flags s)).0, destroy library (body (started elided flags s)).1)
  unfolding with_txn scope
  with_txn-started elided flags body s h =
      bind_ok (do_begin_txn library elided flags) (λ _. scope library body) s
        (started elided flags s) tt (start_succeeds elided flags s h)

  pub destroy_open : (s : State W) → s.is_done ≡ false → destroy library s ≡ abort library s
  unfolding destroy
  destroy_open s h = rw h refl

  pub destroy_done : (s : State W) → s.is_done ≡ true → destroy library s ≡ s
  unfolding destroy
  destroy_done s h = rw h refl

  unfoldable pub committed : State W → State W
  committed s = record s {
    world = (library.txn_commit s.txn s.world).1;
    released = s.txn ∷ s.released;
  }

  unfoldable pub commit_code : State W → ℤ
  commit_code s = (library.txn_commit s.txn s.world).0

  pub commit_succeeds :
      (s : State W)
      → is_success (commit_code s) ≡ true
      → commit library s ≡ (ok tt, record (committed s) { is_done = true })
  unfolding commit committed may_throw commit_code
  commit_succeeds s h = rw h refl

  pub commit_fails :
      (s : State W)
      → is_success (commit_code s) ≡ false
      → commit library s ≡ (thrown (commit_code s), committed s)
  unfolding commit committed may_throw commit_code
  commit_fails s h = rw h refl

  -- `commit`, unless the result of what came before makes the program leave the scope.
  abbrev pub finishing : {A : Type 0} → (A → Bool) → A → M W A
  finishing goes_on a = if goes_on a then commit library >> pure a else pure a

  pub finishing_on :
      {A : Type 0} (goes_on : A → Bool) (a : A)
      → goes_on a ≡ true
      → finishing goes_on a ≡ (commit library >> pure a)
  finishing_on goes_on a h = rw h refl

  pub finishing_off :
      {A : Type 0} (goes_on : A → Bool) (a : A) → goes_on a ≡ false → finishing goes_on a ≡ pure a
  finishing_off goes_on a h = rw h refl

  abbrev pub committing : {A : Type 0} → (A → Bool) → M W A → M W A
  committing goes_on body = body >>= finishing goes_on
