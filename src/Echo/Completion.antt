-- ===== src/Echo/Completion.antt =====
-- The write of the header completes before the content is written: `TS_EVENT_VCONN_WRITE_COMPLETE` of
-- src/remap_echo/remap_echo.cc starts a second write operation for the content.
use ats_plugin_experiment.Base.{
  ℕ, ◌+◌, ◌≤◌, ◌<◌, false, ◌==◌, none, some, List, [], ◌∷◌, ◌++◌, Bytes, length, take, take_whole,
  All, ◌≡◌, ◌⊎◌, inl, inr, refl, sym, ap, ◌∙◌, arith,
}
use ats_plugin_experiment.Echo.{RemapEchoConfig, RemapEchoRequest, create_request, Http}
use ats_plugin_experiment.Echo.Intercept.{
  Event, write_ready, write_complete, write_content, write_completed, amount, intercept_hook, run,
  set_nbytes,
}
use ats_plugin_experiment.Echo.Writes.{
  IsQuiet, Leaves, told_nbytes, after_write, write_some, write_idle, amount_whole,
}
use ats_plugin_experiment.Echo.Answer.{
  IsAnswerable, opening, answered, header_text, run-quiet, run_step, run-opening,
}
use ats_plugin_experiment.Echo.Delivery.{completed, run_end}

completed_early :
    {P : Type 0} (trq : RemapEchoRequest P)
    → (trq.nbytes == 0) ≡ false
    → (write_completed trq).request ≡ some (set_nbytes trq.nbytes trq)
unfolding write_completed
completed_early trq z = ground (arith, z)

module _ {P : Type 0} (header content : Bytes) where
  -- The second write operation has been started with the length of the content, and this is added to
  -- its byte count once more when the content is written.
  record IsWaiting (trq : RemapEchoRequest P) : Type 0 where
    left : trq.nbytes ≡ length content
    written_is : trq.written ≡ header
    told : trq.write_nbytes ≡ some (length content)

  pub record IsOvercounted (trq : RemapEchoRequest P) : Type 0 where
    pub nothing_left : trq.nbytes ≡ 0
    pub written_is : trq.written ≡ header ++ content
    pub told : trq.write_nbytes ≡ some (length content + length content)

  record IsResumed (trq : RemapEchoRequest P) : Type 0 where
    content_is : trq.content ≡ content
    state : IsWaiting trq ⊎ IsOvercounted trq

  waiting_written :
      (room : ℕ) (trq : RemapEchoRequest P)
      → length content ≤ room
      → trq.content ≡ content
      → IsWaiting trq
      → IsOvercounted (after_write room trq)
  waiting_written room trq fits same h =
      let size : length trq.content ≡ length content = ap length same in
      let all : amount room trq ≡ trq.nbytes =
        amount_whole room trq (h.left ∙ sym size) (omega (arith, h.left, fits)) in
      let whole : take (amount room trq) trq.content ≡ content =
        take_whole (amount room trq) trq.content (omega (arith, all, h.left, size)) ∙ same in
      record {
        nothing_left = omega (arith, all);
        written_is = cc (h.written_is, whole);
        told =
            ap (λ o. some (told_nbytes o + amount room trq)) h.told
            ∙ ap (λ n. some (length content + n)) (all ∙ h.left);
      }

  -- A write, whether it is the first or not.
  resumed_written :
      (room : ℕ) (trq : RemapEchoRequest P)
      → length content ≤ room
      → IsResumed trq
      → 0 < length content
      → Leaves IsOvercounted (write_content room trq).request
  resumed_written room trq fits h some_content = elim h.state [
    | inl waiting ↦ record {
      request = after_write room trq;
      found = write_some room trq (ground (arith, waiting.left, some_content));
      holds = waiting_written room trq fits h.content_is waiting;
    }
    | inr over ↦ record {
      request = trq;
      found = write_idle room trq (ground (arith, over.nothing_left));
      holds = over;
    }
  ]

  write_content-IsResumed :
      0 < length content
      → (room : ℕ) (trq : RemapEchoRequest P) → length content ≤ room
      → IsResumed trq
      → Leaves IsResumed (write_content room trq).request
  write_content-IsResumed some_content room trq fits h = elim h.state [
    | inl waiting ↦ record {
      request = after_write room trq;
      found = write_some room trq (ground (arith, waiting.left, some_content));
      holds = record {
        content_is = h.content_is;
        state = inr (waiting_written room trq fits h.content_is waiting);
      };
    }
    | inr over ↦ record {
      request = trq;
      found = write_idle room trq (ground (arith, over.nothing_left));
      holds = h;
    }
  ]

module _ {P : Type 0} (http : Http P) (cfg : RemapEchoConfig) (parser : P) (blk : Bytes) where
  resumed : RemapEchoRequest P
  resumed = set_nbytes (length cfg.content) (answered http cfg parser blk)

  resumed-IsResumed : IsResumed (header_text http cfg parser blk) cfg.content resumed
  unfolding resumed create_request
  resumed-IsResumed = record {
    content_is = refl;
    state = inl (record { left = refl; written_is = refl; told = refl });
  }

  resumed_step :
      0 < length cfg.content
      → (intercept_hook http write_complete (answered http cfg parser blk)).request ≡ some resumed
  unfolding intercept_hook resumed create_request
  resumed_step some_content =
      completed_early (answered http cfg parser blk) (ground (arith, some_content))

  -- For a request that the block `blk` ends and a content that is not empty, where the write of the
  -- header completes before the content is written: the intercept goes on, and the content is written
  -- behind the header, once, but the second write operation is told of twice as many bytes as the
  -- content has. A second completion, if it comes, deletes the request. Between the first completion
  -- and the last write there are only other writes with room for the content, read completions,
  -- timeouts and unknown events.
  pub run-IsOvercounted :
      (es : List Event) (room : ℕ)
      → IsAnswerable http cfg parser blk
      → 0 < length cfg.content
      → All (IsQuiet (length cfg.content)) es
      → length cfg.content ≤ room
      → (r : RemapEchoRequest P) × (run http
            (opening http cfg parser blk ++ write_complete ∷ (es ++ write_ready room ∷ []))
            (create_request parser cfg)
          ≡ some (some r))
        × IsOvercounted (header_text http cfg parser blk) cfg.content r
        × (run http
              (opening http cfg parser blk
                ++ write_complete ∷ (es ++ write_ready room ∷ write_complete ∷ []))
              (create_request parser cfg)
            ≡ some none)
  unfolding run intercept_hook
  run-IsOvercounted es room h some_content quiet fits =
      let head = header_text http cfg parser blk in
      let start = answered http cfg parser blk in
      let (q, runs, again) =
        run-quiet http (IsResumed head cfg.content) (length cfg.content)
          (λ n trq f w. write_content-IsResumed head cfg.content some_content n trq f w) es resumed
          quiet resumed-IsResumed in
      let last = resumed_written head cfg.content room q fits again some_content in
      let open_run = λ (fs : List Event).
        run-opening http cfg parser blk h (write_complete ∷ fs)
        ∙ run_step http write_complete fs start resumed (resumed_step some_content) in
      (
        last.request,
        open_run (es ++ write_ready room ∷ [])
            ∙ runs (write_ready room ∷ [])
            ∙ run_step http (write_ready room) [] q last.request last.found,
        last.holds,
        open_run (es ++ write_ready room ∷ write_complete ∷ [])
            ∙ runs (write_ready room ∷ write_complete ∷ [])
            ∙ run_step http (write_ready room) (write_complete ∷ []) q last.request last.found
            ∙ run_end http last.request (completed last.request last.holds.nothing_left),
      )
