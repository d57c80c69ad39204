-- ===== src/Lmdb/Releases.antt =====
-- How often the handle of a transaction is released at the end of its scope, for the ways in which a
-- program can use the transaction object of include/lmdb-cpp.h.
use mathlib.Core.Path.{ap₂}
use ats_plugin_experiment.Base.{
  ℕ, Bool, true, false, if◌then◌else◌, Option, some, List, ◌∷◌, ℤ, ◌≡◌, ◌∙◌, ap, inl, inr, refl,
  Bool-cases,
}
use ats_plugin_experiment.Lmdb.{
  Library, Attempt, ok, thrown, State, M, pure, ◌>>=◌, ◌>>◌, is_success, may_throw, commit, abort,
  reset, renew, destroy, with_txn,
}
use ats_plugin_experiment.Lmdb.Handles.{
  IsAccess, Attempt-cases, bind_ok, bind_thrown, begun, started, with_txn-started, destroy_open,
  destroy_done, committed, commit_code, commit_succeeds, commit_fails, committing, finishing,
  finishing_on, finishing_off,
}

module _ {W A : Type 0} (library : Library W) (elided : Bool) (flags : ℕ) (goes_on : A → Bool)
    (body : M W A) (s : State W) where
  -- The handle of the transaction, and the state after the body.
  abbrev pub handle : Option ℕ
  handle = some (library.txn_begin flags s.world).0.1

  -- What has been released when the program gets the object: nothing more, where it is constructed in
  -- place, and the handle once, where it is moved.
  abbrev pub released_before : List (Option ℕ)
  released_before = if elided then s.released else handle ∷ s.released

  start : State W
  start = started library elided flags s

  start_txn : start.txn ≡ handle
  unfolding started begun abort start
  start_txn = elim (Bool-cases elided) [ inl b ↦ rw b refl | inr b ↦ rw b refl ]

  start_done : start.is_done ≡ false
  unfolding started begun abort start
  start_done = elim (Bool-cases elided) [ inl b ↦ rw b refl | inr b ↦ rw b refl ]

  start_released : start.released ≡ released_before
  unfolding started begun abort start
  start_released = elim (Bool-cases elided) [ inl b ↦ rw b refl | inr b ↦ rw b refl ]

  abbrev pub after_body : State W
  after_body = (body (started library elided flags s)).1

  module _ (access : IsAccess body) where
    open_after_body : after_body.is_done ≡ false
    unfolding start
    open_after_body = (access start).same_done ∙ start_done

    abort_released :
        (t : State W)
        → t.txn ≡ handle
        → t.is_done ≡ false
        → (destroy library t).released ≡ handle ∷ t.released
    unfolding abort
    abort_released t at active =
        ap (λ (u : State W). u.released) (destroy_open library t active)
        ∙ ap (λ h. h ∷ t.released) at

    handle_after_body : after_body.txn ≡ handle
    unfolding start
    handle_after_body = (access start).same_txn ∙ start_txn

    released_after_body : after_body.released ≡ released_before
    unfolding start
    released_after_body = (access start).same_released ∙ start_released

    -- The end of the scope, after what the body and the commit come to.
    ends :
        (r : Attempt A) (t : State W)
        → is_success (library.txn_begin flags s.world).0.0 ≡ true
        → committing library goes_on body (started library elided flags s) ≡ (r, t)
        → with_txn library elided flags (committing library goes_on body) s ≡ (r, destroy library t)
    ends r t begins e =
        with_txn-started library elided flags (committing library goes_on body) s begins
        ∙ ap (λ p. (p.0, destroy library p.1)) e

    body_throws :
        (e : ℤ)
        → (body (started library elided flags s)).0 ≡ thrown e
        → committing library goes_on body (started library elided flags s) ≡ (thrown e, after_body)
    body_throws e h =
        bind_thrown body (finishing library goes_on) (started library elided flags s) after_body e
          (ap (λ r. (r, after_body)) h)

    body_returns :
        (a : A)
        → (body (started library elided flags s)).0 ≡ ok a
        → committing library goes_on body (started library elided flags s)
          ≡ finishing library goes_on a after_body
    body_returns a h =
        bind_ok body (finishing library goes_on) (started library elided flags s) after_body a
          (ap (λ r. (r, after_body)) h)

    -- Once the program has the object of a transaction that is begun and used for the data only, the
    -- transaction is released once more, whether it is then committed, left without a commit, or one of
    -- the uses throws: for every action on the data, if the commit, where it is reached, succeeds. Where
    -- the object that `do_begin_txn` returns is constructed in place, this is the only time; where it is
    -- moved, the transaction has been released before, by the local object that it is moved from.
    pub released_once :
        is_success (library.txn_begin flags s.world).0.0 ≡ true
        → ((a : A)
            → (body (started library elided flags s)).0 ≡ ok a
            → goes_on a ≡ true
            → is_success (commit_code library after_body) ≡ true)
        → (with_txn library elided flags (committing library goes_on body) s).1.released
          ≡ handle ∷ released_before
    unfolding committed
    released_once begins commits = elim (Attempt-cases (body (started library elided flags s)).0) [
      | inr (e, h) ↦
          ap (λ p. p.1.released) (ends (thrown e) after_body begins (body_throws e h))
          ∙ abort_released after_body handle_after_body open_after_body
          ∙ ap (λ l. handle ∷ l) released_after_body
      | inl (a, h) ↦
          let returns = body_returns a h in
          elim (Bool-cases (goes_on a)) [
            | inl g ↦
                let done : State W = record (committed library after_body) { is_done = true } in
                let commits_here =
                  ap (λ m. m after_body) (finishing_on library goes_on a g)
                  ∙ bind_ok (commit library) (λ _. pure a) after_body done tt
                      (commit_succeeds library after_body (commits a h g)) in
                ap (λ p. p.1.released) (ends (ok a) done begins (returns ∙ commits_here))
                ∙ ap (λ (u : State W). u.released) (destroy_done library done refl)
                ∙ ap₂ ◌∷◌ handle_after_body released_after_body
            | inr g ↦
                let leaves = ap (λ m. m after_body) (finishing_off library goes_on a g) in
                ap (λ p. p.1.released) (ends (ok a) after_body begins (returns ∙ leaves))
                ∙ abort_released after_body handle_after_body open_after_body
                ∙ ap (λ l. handle ∷ l) released_after_body
          ]
    ]

    -- A commit that fails has released the handle, and the end of the scope releases it again: the
    -- caller gets the error of the commit, and the handle has been passed to the library twice since
    -- the program got the object, which is twice in all where the object is constructed in place.
    pub released_twice :
        (a : A)
        → is_success (library.txn_begin flags s.world).0.0 ≡ true
        → (body (started library elided flags s)).0 ≡ ok a
        → goes_on a ≡ true
        → is_success (commit_code library after_body) ≡ false
        → ((with_txn library elided flags (committing library goes_on body) s).0
            ≡ thrown (commit_code library after_body))
          × ((with_txn library elided flags (committing library goes_on body) s).1.released
              ≡ handle ∷ handle ∷ released_before)
    unfolding committed
    released_twice a begins h g fails =
        let lost = committed library after_body in
        let throws =
          body_returns a h
          ∙ ap (λ m. m after_body) (finishing_on library goes_on a g)
          ∙ bind_thrown (commit library) (λ _. pure a) after_body lost _
              (commit_fails library after_body fails) in
        let e = ends (thrown (commit_code library after_body)) lost begins throws in
        (
          ap (λ p. p.0) e,
          ap (λ p. p.1.released) e
              ∙ abort_released lost handle_after_body open_after_body
              ∙ ap (λ l. handle ∷ l) (ap₂ ◌∷◌ handle_after_body released_after_body),
        )

    -- `reset`, then `renew`.
    abbrev pub recycling : M W A
    recycling = body >>= λ x. λ t. (renew library >> pure x) (reset library t)

    abbrev recycled : State W
    recycled =
        let after = library.txn_reset after_body.txn after_body.world in
        record after_body { world = (library.txn_renew after_body.txn after).1; is_done = true }

    renew_succeeds :
        is_success
            (library.txn_renew after_body.txn (library.txn_reset after_body.txn after_body.world)).0
          ≡ true
        → renew library (reset library after_body) ≡ (ok tt, recycled)
    unfolding reset renew may_throw
    renew_succeeds renews = rw renews refl

    -- A transaction that is reset is never released: the object counts as done, and `renew` does not
    -- change that. For every action on the data that returns, with `reset` and a `renew` after it that
    -- succeeds, the end of the scope passes the handle to neither `mdb_txn_commit` nor
    -- `mdb_txn_abort`.
    pub never_released :
        (a : A)
        → is_success (library.txn_begin flags s.world).0.0 ≡ true
        → (body (started library elided flags s)).0 ≡ ok a
        → is_success
            (library.txn_renew after_body.txn (library.txn_reset after_body.txn after_body.world)).0
          ≡ true
        → (with_txn library elided flags recycling s).1.released ≡ released_before
    never_released a begins h renews =
        let returns =
          bind_ok body (λ x. λ t. (renew library >> pure x) (reset library t))
            (started library elided flags s) after_body a (ap (λ r. (r, after_body)) h)
          ∙ bind_ok (renew library) (λ _. pure a) (reset library after_body) recycled tt
              (renew_succeeds renews) in
        ap (λ p. p.1.released)
          (with_txn-started library elided flags recycling s begins
            ∙ ap (λ p. (p.0, destroy library p.1)) returns)
        ∙ ap (λ (u : State W). u.released) (destroy_done library recycled refl)
        ∙ released_after_body
