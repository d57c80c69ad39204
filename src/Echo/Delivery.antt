-- ===== src/Echo/Delivery.antt =====
-- When an intercept of src/remap_echo/remap_echo.cc has sent its whole answer, and when it has not.
use ats_plugin_experiment.Base.{
  ℕ, ◌≤◌, ◌==◌, none, some, List, [], ◌∷◌, ◌++◌, append-nil, Bytes, length, All, ◌≡◌, inl, inr,
  refl, sym, ap, ◌∙◌, arith, Bool-cases,
}
use ats_plugin_experiment.Echo.{RemapEchoConfig, RemapEchoRequest, create_request, Http}
use ats_plugin_experiment.Echo.Intercept.{
  Event, write_ready, write_complete, write_content, write_completed, amount, intercept_hook, run,
  destroy,
}
use ats_plugin_experiment.Echo.Writes.{
  IsWhole, IsQuiet, Leaves, write_content-IsWhole, after_write, after_write-IsWhole, write_some,
  write_idle, amount_whole,
}
use ats_plugin_experiment.Echo.Answer.{
  IsAnswerable, opening, answered, header_text, run-quiet, run_step, run-opening, answered-IsWhole,
}

empty_of_length : (s : Bytes) → length s ≡ 0 → s ≡ []
empty_of_length [] h = refl
empty_of_length (c ∷ s) h = absurd (omega (arith, h))

pub completed :
    {P : Type 0} (r : RemapEchoRequest P) → r.nbytes ≡ 0 → (write_completed r).request ≡ none
unfolding write_completed destroy
completed r z = ground (arith, z)

pub run_end :
    {P : Type 0} (http : Http P) (r : RemapEchoRequest P)
    → (write_completed r).request ≡ none
    → run http (write_complete ∷ []) r ≡ some none
unfolding run intercept_hook
run_end http r h = ground (arith, h)

module _ {P : Type 0} (header content : Bytes) where
  whole_text :
      (r : RemapEchoRequest P)
      → IsWhole header content r
      → r.nbytes ≡ 0
      → r.written ≡ header ++ content
  whole_text r h z = elim h.written_is [
    | inr (n, w) ↦ w
    | inl (n, w) ↦
        let nothing : content ≡ [] = empty_of_length content (omega (arith, n, z)) in
        w ∙ sym (append-nil header) ∙ ap (λ c. header ++ c) (sym nothing)
  ]

  -- All that is left has been written.
  pub record IsSent (r : RemapEchoRequest P) : Type 0 where
    pub nothing_left : r.nbytes ≡ 0
    pub written_is : r.written ≡ header ++ content
    pub told : r.write_nbytes ≡ some (length (header ++ content))

  sent : (r : RemapEchoRequest P) → IsWhole header content r → r.nbytes ≡ 0 → IsSent r
  sent r h z =
      let text = whole_text r h z in
      record {
        nothing_left = z;
        written_is = text;
        told = h.counted.told ∙ ap (λ t. some (length t)) text;
      }

  written_out :
      (room : ℕ) (r : RemapEchoRequest P)
      → length content ≤ room
      → IsWhole header content r
      → Leaves IsSent (write_content room r).request
  written_out room r fits h = elim (Bool-cases (r.nbytes == 0)) [
    | inl z ↦ record {
      request = r;
      found = write_idle room r z;
      holds = sent r h (ground (arith, z));
    }
    | inr z ↦
        let q = after_write room r in
        let size : length r.content ≡ length content = ap length h.counted.content_is in
        let all : amount room r ≡ r.nbytes = elim h.written_is [
          | inr (n, w) ↦ absurd (ground (arith, n, z))
          | inl (n, w) ↦ amount_whole room r (n ∙ sym size) (omega (arith, n, fits))
        ] in
        record {
          request = q;
          found = write_some room r z;
          holds = sent q (after_write-IsWhole header content room r fits z h) (omega (arith, all));
        }
  ]

module _ {P : Type 0} (http : Http P) (cfg : RemapEchoConfig) (parser : P) (blk : Bytes) where
  -- Where the write buffer takes the whole content, the answer to a request that the block `blk` ends
  -- is the header, whose Content-Length is the length of the content, and then the content, once. The
  -- write operation is told of as many bytes as these are, and its completion deletes the request.
  -- Between the request and its last write there are only other writes with room for the content, read
  -- completions, timeouts and unknown events: the write operation does not complete before that write,
  -- and there is no end of stream, no error and no second block of a request.
  pub run-IsSent :
      (es : List Event) (room : ℕ)
      → IsAnswerable http cfg parser blk
      → All (IsQuiet (length cfg.content)) es
      → length cfg.content ≤ room
      → (r : RemapEchoRequest P) × (run http
            (opening http cfg parser blk ++ (es ++ write_ready room ∷ []))
            (create_request parser cfg)
          ≡ some (some r))
        × IsSent (header_text http cfg parser blk) cfg.content r
        × (run http
              (opening http cfg parser blk ++ (es ++ write_ready room ∷ write_complete ∷ []))
              (create_request parser cfg)
            ≡ some none)
  unfolding run intercept_hook
  run-IsSent es room h quiet fits =
      let head = header_text http cfg parser blk in
      let start = answered http cfg parser blk in
      let (q, runs, whole) =
        run-quiet http (IsWhole head cfg.content) (length cfg.content)
          (λ n trq f w. write_content-IsWhole head cfg.content n trq f w) es start quiet
          (answered-IsWhole http cfg parser blk) in
      let last = written_out head cfg.content room q fits whole in
      let open_run = run-opening http cfg parser blk h in
      (
        last.request,
        open_run (es ++ write_ready room ∷ [])
            ∙ runs (write_ready room ∷ [])
            ∙ run_step http (write_ready room) [] q last.request last.found,
        last.holds,
        open_run (es ++ write_ready room ∷ write_complete ∷ [])
            ∙ runs (write_ready room ∷ write_complete ∷ [])
            ∙ run_step http (write_ready room) (write_complete ∷ []) q last.request last.found
            ∙ run_end http last.request (completed last.request last.holds.nothing_left),
      )
