-- ===== src/Echo/Restarts.antt =====
-- An order of events in which an intercept of src/remap_echo/remap_echo.cc does not send its content:
-- a write that takes a part of it.
use ats_plugin_experiment.Base.{
  take_whole, length-take_eq, ℕ, ◌-◌, ◌≤◌, ◌<◌, some, [], ◌∷◌, ◌++◌, length, take, ◌≡◌, ap, ◌∙◌,
  arith,
}
use ats_plugin_experiment.Echo.{RemapEchoRequest, Http}
use ats_plugin_experiment.Echo.Intercept.{write_ready, amount, intercept_hook, run}
use ats_plugin_experiment.Echo.Writes.{after_write, write_some}
use ats_plugin_experiment.Echo.Answer.{run_step}

amount_part :
    {P : Type 0} (k : ℕ) (trq : RemapEchoRequest P)
    → trq.nbytes ≡ length trq.content
    → k ≤ trq.nbytes
    → amount k trq ≡ k
amount_part k trq e h =
    let whole : take trq.nbytes trq.content ≡ trq.content =
      take_whole trq.nbytes trq.content (omega (arith, e)) in
    ap (λ c. length (take k c)) whole ∙ length-take_eq k trq.content (omega (arith, e, h))

amount_rest :
    {P : Type 0} (room : ℕ) (trq : RemapEchoRequest P)
    → trq.nbytes ≤ length trq.content
    → trq.nbytes ≤ room
    → amount room trq ≡ trq.nbytes
amount_rest room trq h f =
    let kept : length (take trq.nbytes trq.content) ≡ trq.nbytes =
      length-take_eq trq.nbytes trq.content h in
    ap length (take_whole room (take trq.nbytes trq.content) (omega (arith, kept, f))) ∙ kept

module _ {P : Type 0} (http : Http P) (trq : RemapEchoRequest P)
    (unwritten : trq.nbytes ≡ length trq.content) where
  -- Where the write buffer takes the first `k` bytes of a content of more, and then all the rest, the
  -- rest is taken from the beginning of the content again.
  pub run_restarts :
      (k room : ℕ)
      → k < length trq.content
      → length trq.content ≤ room
      → (r : RemapEchoRequest P) × (run http (write_ready k ∷ write_ready room ∷ []) trq
          ≡ some (some r))
        × (r.nbytes ≡ 0)
        × (r.written
            ≡ (trq.written ++ take k trq.content) ++ take (length trq.content - k) trq.content)
  unfolding run intercept_hook
  run_restarts k room h f =
      let q = after_write k trq in
      let r = after_write room q in
      let a : amount k trq ≡ k = amount_part k trq unwritten (omega (arith, h, unwritten)) in
      let left : q.nbytes ≡ length trq.content - k = omega (arith, a, unwritten) in
      let b : amount room q ≡ q.nbytes =
        amount_rest room q (omega (arith, left)) (omega (arith, left, f)) in
      let first = write_some k trq (ground (arith, h, unwritten)) in
      let second = write_some room q (ground (arith, left, h)) in
      (
        r,
        run_step http (write_ready k) (write_ready room ∷ []) trq q first
            ∙ run_step http (write_ready room) [] q r second,
        omega (arith, b),
        ap (λ n. (trq.written ++ take n trq.content) ++ take (amount room q) trq.content) a
            ∙ ap (λ n. (trq.written ++ take k trq.content) ++ take n trq.content) (b ∙ left),
      )
