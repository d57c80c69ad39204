-- ===== src/Remap/Counting.antt =====
-- The counters of src/remap/remap.cc over a run of requests.
use mathlib.Core.Path.{ap₂}
use ats_plugin_experiment.Base.{
  ℕ, zero, suc, ◌+◌, ◌/◌, ◌%◌, ◌^◌, ◌<◌, ◌≤◌, Bool, true, false, ltb, ◌==◌, if◌then◌else◌, Option,
  none, some, List, [], ◌∷◌, length, ℤ, ◌≡◌, ◌∙◌, ap, inl, inr, refl, arith, Bool-cases,
}
use ats_plugin_experiment.Remap.Requests.{
  Counters, RequestInfo, Api, Transaction, Remapped, add_int, interrupt, store_counter, do_remap,
  os_response,
}
use ats_plugin_experiment.Remap.Paths.{remap_hardcoded-IsOutcome}

abbrev pub untouched : Transaction
untouched = record { user_arg = none; status = none; page = none }

abbrev with_first : Option ℕ → Option (List (Option ℕ)) → Option (List (Option ℕ))
with_first s none = none
with_first s (some later) = some (s ∷ later)

-- The statuses that the requests of a run get, each in a transaction of its own; `none` where an
-- `int` overflows on the way.
unfoldable pub statuses : List (RequestInfo × Api) → Counters → Option (List (Option ℕ))
statuses [] c = some []
statuses ((r, api) ∷ rs) c = elim (do_remap true (some r) api untouched c) [
  | none ↦ none
  | some done ↦ with_first done.0.1.status (statuses rs done.1)
]

-- Every other request, from the number `n` on: 100, 101, 102 and so on.
abbrev pub every_other : ℕ → ℕ → List (Option ℕ)
every_other zero n = []
every_other (suc k) n = (if n % 2 == 1 then some (100 + n / 2) else none) ∷ every_other k (n + 1)

abbrev counters : ℕ → ℕ → Counters
counters p m = record { processing_counter = p; my_local_counter = m }

-- One request, where no `int` overflows: its status, and the counters after it.
record IsCountedOn (api : Api) (n : ℕ) (o : Option Remapped) : Type 0 where
  left : Remapped
  found : o ≡ some left
  status_is : left.0.1.status ≡ (if n % 2 == 1 then some (100 + n / 2) else none)
  stored_is : left.0.1.user_arg ≡ (store_counter api.slot_reserved n untouched).user_arg
  after_is : left.1 ≡ counters (n + 1) ((n + 1) / 2)

untouched_status : (b : Bool) (n : ℕ) → (store_counter b n untouched).status ≡ none
untouched_status true n = refl
untouched_status false n = refl

add_int_lem : (a b : ℕ) → a + b < 2 ^ 31 → add_int a b ≡ some (a + b)
add_int_lem a b h = let fits : ltb (a + b) (2 ^ 31) ≡ true = ground (arith, h) in rw fits refl

do_remap_lem :
    (r : RequestInfo) (api : Api) (n : ℕ)
    → 100 + n / 2 < 2 ^ 31
    → IsCountedOn api n (do_remap true (some r) api untouched (counters n (n / 2)))
unfolding do_remap interrupt
do_remap_lem r api n small =
    let (status, url, answered, _) = remap_hardcoded-IsOutcome api r in
    let stored = store_counter api.slot_reserved n untouched in
    let page = add_int_lem 100 (n / 2) small in
    let next = add_int_lem (n / 2) 1 (omega (arith, small)) in
    elim (Bool-cases (n % 2 == 1)) [
      | inl b ↦ record {
        left = (
          ((status, some url), record stored { status = some (100 + n / 2); page = some (n / 2) }),
          counters ((n + 1) % 2 ^ 64) (n / 2 + 1),
        );
        found = rw (b, page, next, answered) refl;
        status_is = rw b refl;
        stored_is = refl;
        after_is = ap₂ counters (omega (arith, small)) (ground (arith, b));
      }
      | inr b ↦ record {
        left = (((status, some url), stored), counters ((n + 1) % 2 ^ 64) (n / 2));
        found = rw (b, answered) refl;
        status_is = rw b (untouched_status api.slot_reserved n);
        stored_is = refl;
        after_is = ap₂ counters (omega (arith, small)) (ground (arith, b));
      }
    ]

os_response_at : (memory : ℕ → Option ℤ) (n : ℕ) → 0 < n → os_response memory (some n) ≡ memory n
unfolding os_response
os_response_at memory zero h = absurd (omega (arith, h))
os_response_at memory (suc n) h = refl

-- The counter that `TSRemapDoRemap` stores with a transaction is not what `TSRemapOSResponse` reports
-- for it: where the counter is not 0, it is taken for an address, and the `int` there is read.
pub os_response-do_remap :
    (memory : ℕ → Option ℤ) (r : RequestInfo) (api : Api) (n : ℕ)
    → 100 + n / 2 < 2 ^ 31
    → api.slot_reserved ≡ true
    → 0 < n
    → (left : Remapped) × (do_remap true (some r) api untouched (counters n (n / 2)) ≡ some left)
      × (os_response memory left.0.1.user_arg ≡ memory n)
os_response-do_remap memory r api n small reserved pos =
    let one = do_remap_lem r api n small in
    let stored : (store_counter api.slot_reserved n untouched).user_arg ≡ some n =
      rw reserved refl in
    (
      one.left,
      one.found,
      ap (os_response memory) (one.stored_is ∙ stored) ∙ os_response_at memory n pos,
    )

-- Of the requests to an instance, from number `n` on, the ones with an odd number get a status, and
-- no others: number `2 * k + 1` gets the status `100 + k`. The counters start together, and the
-- numbers of the run end before 2 ^ 32 - 200, so that no `int` overflows.
pub statuses-every_other :
    (rs : List (RequestInfo × Api)) (n : ℕ)
    → n + length rs + 200 ≤ 2 ^ 32
    → statuses rs (record { processing_counter = n; my_local_counter = n / 2 })
      ≡ some (every_other (length rs) n)
unfolding statuses
statuses-every_other [] n small = refl
statuses-every_other ((r, api) ∷ rs) n small =
    let one = do_remap_lem r api n (omega (arith, small)) in
    let rest = statuses-every_other rs (n + 1) (omega (arith, small)) in
    rw (statuses, one.found)
      (ap₂ (λ s later. with_first s later) one.status_is (ap (statuses rs) one.after_is ∙ rest))
