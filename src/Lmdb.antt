-- ===== src/Lmdb.antt =====
-- The wrapper of LMDB in include/lmdb-cpp.h: `may_throw`, the transaction object with its
-- `done_` flag, and the environment. The C library is a parameter. One transaction object is alive at
-- a time, as in the programs that use the wrapper. The children prove how often a handle is
-- released (Handles), and model the program src/lmdb_setup/lmdb_setup.cc (Setup).
pub mod Handles
pub mod Releases
pub mod Setup
pub mod Stored
pub mod Written
pub mod Keys
pub mod Authorize
use Prim.Native.Nat.{bit_or}
use ats_plugin_experiment.Base.{
  ℕ, Bool, true, false, not, ◌==◌, if◌then◌else◌, Option, none, some, List, [], ◌∷◌, Bytes, ℤ, pos,
  negsuc,
}

-- The calls of the library, each with the state of the world before and after, and its return code.
-- A transaction handle is `none` for a null pointer.
pub record Library (W : Type 0) : Type 0 where
  pub not_found : ℤ
  pub notls : ℕ
  pub create : ℕ
  pub rdonly : ℕ
  pub env_create : W → ℤ × W
  pub env_set_mapsize : ℕ → W → ℤ × W
  pub env_set_maxreaders : ℕ → W → ℤ × W
  pub env_set_maxdbs : ℕ → W → ℤ × W
  pub env_open : Bytes → ℕ → ℕ → W → ℤ × W
  pub txn_begin : ℕ → W → (ℤ × ℕ) × W
  pub dbi_open : Option ℕ → Bytes → ℕ → W → (ℤ × ℕ) × W
  pub lookup : Option ℕ → ℕ → Bytes → W → ℤ × Bytes
  pub put : Option ℕ → ℕ → Bytes → Bytes → ℕ → W → ℤ × W
  pub del : Option ℕ → ℕ → Bytes → W → ℤ × W
  pub txn_commit : Option ℕ → W → ℤ × W
  pub txn_abort : Option ℕ → W → W
  pub txn_reset : Option ℕ → W → W
  pub txn_renew : Option ℕ → W → ℤ × W

-- A result, or the code of the `RuntimeError` that is thrown.
pub data Attempt (A : Type 0) : Type 0 where
  ok : A → Attempt A
  thrown : ℤ → Attempt A

-- The world, the members `txn_` and `done_` of the transaction object, and the handles that were
-- passed to `mdb_txn_commit` and `mdb_txn_abort`, the last first.
pub record State (W : Type 0) : Type 0 where
  pub world : W
  pub txn : Option ℕ
  pub is_done : Bool
  pub released : List (Option ℕ)

abbrev pub M : Type 0 → Type 0 → Type 0
M W A = State W → Attempt A × State W

abbrev pub pure : {W A : Type 0} → A → M W A
pure a s = (ok a, s)

abbrev pub throw : {W A : Type 0} → ℤ → M W A
throw code s = (thrown code, s)

infixl 5 ◌>>=◌ ◌>>◌
abbrev pub ◌>>=◌ : {W A B : Type 0} → M W A → (A → M W B) → M W B
◌>>=◌ m f s = elim (m s).0 [ ok a ↦ f a (m s).1 | thrown code ↦ (thrown code, (m s).1) ]

abbrev pub ◌>>◌ : {W B : Type 0} → M W (Unit {0}) → M W B → M W B
m >> k = m >>= λ _. k

-- `MDB_SUCCESS` is 0.
abbrev pub is_success : ℤ → Bool
is_success (pos n) = n == 0
is_success (negsuc n) = false

abbrev pub code_eq : ℤ → ℤ → Bool
code_eq (pos m) (pos n) = m == n
code_eq (negsuc m) (negsuc n) = m == n
code_eq _ _ = false

unfoldable pub may_throw : {W : Type 0} → ℤ → M W (Unit {0})
may_throw code = if is_success code then pure tt else throw code

-- A call that returns only a code.
abbrev pub checked : {W : Type 0} → (W → ℤ × W) → M W (Unit {0})
checked call s = let (code, after) = call s.world in may_throw code (record s { world = after })

module _ {W : Type 0} (library : Library W) where
  -- `Env::init`, the setters, and `Env::open`.
  unfoldable pub env_init : M W (Unit {0})
  env_init = checked library.env_create

  unfoldable pub set_mapsize : ℕ → M W (Unit {0})
  set_mapsize size = checked (library.env_set_mapsize size)

  unfoldable pub set_maxreaders : ℕ → M W (Unit {0})
  set_maxreaders readers = checked (library.env_set_maxreaders readers)

  unfoldable pub set_maxdbs : ℕ → M W (Unit {0})
  set_maxdbs dbs = checked (library.env_set_maxdbs dbs)

  unfoldable pub env_open : Bytes → ℕ → ℕ → M W (Unit {0})
  env_open dir_name flags mode =
      checked (library.env_open dir_name (bit_or flags library.notls) mode)

  -- The methods of the transaction object.
  unfoldable pub open_dbi : Bytes → ℕ → M W ℕ
  open_dbi name flags s =
      let ((code, dbi), after) = library.dbi_open s.txn name flags s.world in
      (may_throw code >>= λ _. pure dbi) (record s { world = after })

  unfoldable pub may_get : ℕ → Bytes → M W (Option Bytes)
  may_get dbi key s =
      let (code, value) = library.lookup s.txn dbi key s.world in
      if code_eq code library.not_found
      then (ok none, s)
      else (may_throw code >>= λ _. pure (some value)) s

  unfoldable pub get : ℕ → Bytes → M W Bytes
  get dbi key s =
      let (code, value) = library.lookup s.txn dbi key s.world in
      (may_throw code >>= λ _. pure value) s

  unfoldable pub put : ℕ → Bytes → Bytes → ℕ → M W (Unit {0})
  put dbi key value flags s = checked (library.put s.txn dbi key value flags) s

  unfoldable pub del : ℕ → Bytes → M W (Unit {0})
  del dbi key s = checked (library.del s.txn dbi key) s

  unfoldable pub may_del : ℕ → Bytes → M W Bool
  may_del dbi key s =
      let (code, after) = library.del s.txn dbi key s.world in
      if code_eq code library.not_found
      then (ok false, record s { world = after })
      else (may_throw code >>= λ _. pure true) (record s { world = after })

  unfoldable pub commit : M W (Unit {0})
  commit s =
      let (code, after) = library.txn_commit s.txn s.world in
      (may_throw code >>= λ _. λ t. (ok tt, record t { is_done = true }))
        (record s { world = after; released = s.txn ∷ s.released })

  unfoldable pub abort : State W → State W
  abort s = record s {
    world = library.txn_abort s.txn s.world;
    is_done = true;
    released = s.txn ∷ s.released;
  }

  unfoldable pub reset : State W → State W
  reset s = record s { world = library.txn_reset s.txn s.world; is_done = true }

  unfoldable pub renew : M W (Unit {0})
  renew s = checked (library.txn_renew s.txn) s

  -- `~Txn`.
  unfoldable pub destroy : State W → State W
  destroy s = if s.is_done then s else abort s

  -- `do_begin_txn`. Where the returned object is not constructed in place (`elided`), it is moved, and
  -- the local object, which the move leaves as it is, is destroyed.
  unfoldable pub do_begin_txn : Bool → ℕ → M W (Unit {0})
  do_begin_txn elided flags s =
      let ((code, handle), after) = library.txn_begin flags s.world in
      let failed : State W = record s { world = after; txn = none; is_done = false } in
      let begun : State W = record s { world = after; txn = some handle; is_done = false } in
      if is_success code
      then (ok tt, if elided then begun else record (destroy begun) { is_done = false })
      else (thrown code, destroy failed)

  -- The scope of a transaction object: it is destroyed at its end, and when an exception leaves it.
  unfoldable pub scope : {A : Type 0} → M W A → M W A
  scope body s = let (r, t) = body s in (r, destroy t)

  unfoldable pub with_txn : {A : Type 0} → Bool → ℕ → M W A → M W A
  with_txn elided flags body = do_begin_txn elided flags >> scope body
