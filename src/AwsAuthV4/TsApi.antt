-- ===== src/AwsAuthV4/TsApi.antt =====
-- `HeaderIterator` and `TsApi` of src/obj_store_auth/aws_auth_v4_wrap.h, which read a request through
-- the server's API. A buffer and a location are numbers, and a null location is `none`.
use ats_plugin_experiment.Base.{
  ℕ, zero, suc, ◌≤◌, Bool, true, false, ◌&&◌, ◌==◌, Option, none, some, List, [], ◌∷◌, ◌++◌, Bytes,
  length, map, ◌≡◌, ◌∙◌, ap, refl, arith, if◌then◌else◌,
}
use ats_plugin_experiment.AwsAuthV4.Headers.{HeaderField}
use ats_plugin_experiment.AwsAuthV4.Request.{TsInterface}

-- What the calls of the API return for a buffer and a header or URL.
pub record Api : Type 0 where
  pub method_get : ℕ → ℕ → Bytes
  pub host_get : ℕ → ℕ → Bytes
  pub path_get : ℕ → ℕ → Bytes
  pub params_get : ℕ → ℕ → Bytes
  pub query_get : ℕ → ℕ → Bytes
  pub field_get : ℕ → ℕ → Option ℕ
  pub field_next : ℕ → ℕ → ℕ → Option ℕ
  pub name_get : ℕ → ℕ → ℕ → Option Bytes
  pub value_get : ℕ → ℕ → ℕ → Bytes

pub record HeaderIterator : Type 0 where
  pub bufp : ℕ
  pub hdrs : ℕ
  pub field : Option ℕ

abbrev pub same_loc : Option ℕ → Option ℕ → Bool
same_loc none none = true
same_loc (some a) (some b) = a == b
same_loc _ _ = false

-- `operator==`, which `operator!=` negates.
unfoldable pub equal : HeaderIterator → HeaderIterator → Bool
equal x y = x.bufp == y.bufp && x.hdrs == y.hdrs && same_loc x.field y.field

module _ (server : Api) where
  -- `operator++`, with the location that it releases; at the end it is not called.
  unfoldable pub increment : HeaderIterator → HeaderIterator × List ℕ
  increment it = elim it.field [
    | none ↦ (it, [])
    | some loc ↦ (record it { field = server.field_next it.bufp it.hdrs loc }, loc ∷ [])
  ]

  -- `getName` and `getValue`.
  unfoldable pub read_field : HeaderIterator → List HeaderField
  read_field it = elim it.field [
    | none ↦ []
    | some loc ↦
        record {
          name = server.name_get it.bufp it.hdrs loc;
          value = server.value_get it.bufp it.hdrs loc;
        }
        ∷ []
  ]

  -- `headerBegin` and `headerEnd`.
  unfoldable pub header_begin : ℕ → ℕ → HeaderIterator
  header_begin bufp hdrs = record { bufp = bufp; hdrs = hdrs; field = server.field_get bufp hdrs }

  unfoldable pub header_end : ℕ → ℕ → HeaderIterator
  header_end bufp hdrs = record { bufp = bufp; hdrs = hdrs; field = none }

  -- A loop from an iterator to the end, for at most so many rounds: the fields that it reads and the
  -- locations that it releases, in order. `none` where the rounds run out.
  unfoldable pub each_field :
      ℕ → HeaderIterator → HeaderIterator → Option (List HeaderField × List ℕ)
  each_field zero it end = none
  each_field (suc n) it end =
      let (next, released) = increment it in
      let rest = each_field n next end in
      if equal it end then some ([], []) else elim rest [
        | none ↦ none
        | some (fields, locs) ↦ some (read_field it ++ fields, released ++ locs)
      ]

  -- What a signer sees of a request.
  unfoldable pub ts_api : ℕ → ℕ → ℕ → List HeaderField → TsInterface
  ts_api bufp hdrs url headers = record {
    method = server.method_get bufp hdrs;
    host = server.host_get bufp hdrs;
    path = server.path_get bufp url;
    params = server.params_get bufp url;
    query = server.query_get bufp url;
    headers = headers;
  }

  -- The locations from `l` on are these, and then there are no more.
  abbrev pub AreFields : ℕ → ℕ → Option ℕ → List ℕ → Type 0
  AreFields bufp hdrs l [] = l ≡ none
  AreFields bufp hdrs l (loc ∷ locs) =
      (l ≡ some loc) × AreFields bufp hdrs (server.field_next bufp hdrs loc) locs

  abbrev pub field_at : ℕ → ℕ → ℕ → HeaderField
  field_at bufp hdrs loc = record {
    name = server.name_get bufp hdrs loc;
    value = server.value_get bufp hdrs loc;
  }

  at_end : (bufp hdrs : ℕ) → equal (header_end bufp hdrs) (header_end bufp hdrs) ≡ true
  unfolding equal header_end
  at_end bufp hdrs = ground arith

  not_end :
      (bufp hdrs loc : ℕ)
      → equal (record { bufp = bufp; hdrs = hdrs; field = some loc }) (header_end bufp hdrs) ≡ false
  unfolding equal header_end
  not_end bufp hdrs loc = ground arith

  stops :
      (n : ℕ) (it end : HeaderIterator)
      → equal it end ≡ true
      → each_field (suc n) it end ≡ some ([], [])
  unfolding each_field
  stops n it end h = rw (each_field, h) refl

  goes_on :
      (n bufp hdrs loc : ℕ) (fields : List HeaderField) (locs : List ℕ)
      → each_field n
          (record { bufp = bufp; hdrs = hdrs; field = server.field_next bufp hdrs loc })
          (header_end bufp hdrs)
        ≡ some (fields, locs)
      → each_field
          (suc n)
          (record { bufp = bufp; hdrs = hdrs; field = some loc })
          (header_end bufp hdrs)
        ≡ some (field_at bufp hdrs loc ∷ fields, loc ∷ locs)
  unfolding each_field increment read_field
  goes_on n bufp hdrs loc fields locs h = rw (not_end bufp hdrs loc, h) refl

  -- The loop over the header of a request ends within a round for each field and one more. It reads
  -- every field once, in order, and releases the location of each.
  pub each_field_lem :
      (n bufp hdrs : ℕ) (l : Option ℕ) (locs : List ℕ)
      → length locs ≤ n
      → AreFields bufp hdrs l locs
      → each_field (suc n) (record { bufp = bufp; hdrs = hdrs; field = l }) (header_end bufp hdrs)
        ≡ some (map (field_at bufp hdrs) locs, locs)
  unfolding header_end
  each_field_lem n bufp hdrs l [] few at =
      let end_at : Option ℕ → HeaderIterator =
        λ k. record { bufp = bufp; hdrs = hdrs; field = k } in
      ap (λ k. each_field (suc n) (end_at k) (header_end bufp hdrs)) at
      ∙ stops n (header_end bufp hdrs) (header_end bufp hdrs) (at_end bufp hdrs)
  each_field_lem zero bufp hdrs l (loc ∷ locs) few at = absurd (omega (arith, few))
  each_field_lem (suc n) bufp hdrs l (loc ∷ locs) few (at, rest) =
      let at_field : Option ℕ → HeaderIterator =
        λ k. record { bufp = bufp; hdrs = hdrs; field = k } in
      ap (λ k. each_field (suc (suc n)) (at_field k) (header_end bufp hdrs)) at
      ∙ goes_on (suc n) bufp hdrs loc (map (field_at bufp hdrs) locs) locs (
          each_field_lem n bufp hdrs (server.field_next bufp hdrs loc) locs (omega (arith, few))
            rest)
