-- ===== src/Echo/Answer.antt =====
-- The answer that an intercept of src/remap_echo/remap_echo.cc gives, from its first event on.
use ats_plugin_experiment.Base.{
  ℕ, ◌≤◌, true, false, some, List, [], ◌∷◌, ◌++◌, append-nil, Bytes, is_empty, All, ℤ, ◌≡◌, inl,
  refl, sym, ap, ◌∙◌, arith,
}
use ats_plugin_experiment.Echo.{
  RemapEchoConfig, RemapEchoRequest, create_request, Http, parse_done, ResponseHeader,
  response_header,
}
use ats_plugin_experiment.Echo.Intercept.{
  Call, reenable_write, count_bytes, Event, net_accept, net_accept_failed, vconn_error, vconn_eos,
  read_ready, write_ready, read_complete, write_complete, timeout, inactivity_timeout, other_event,
  Outcome, write_response_header, respond, read_blocks, write_content, intercept_hook, run,
  set_nbytes,
}
use ats_plugin_experiment.Echo.Writes.{IsCounted, IsWhole, IsQuiet, Leaves, write_content-IsCounted}

module _ {P : Type 0} (http : Http P) where
  pub run_step :
      (e : Event) (es : List Event) (trq next : RemapEchoRequest P)
      → (intercept_hook http e trq).request ≡ some next
      → run http (e ∷ es) trq ≡ run http es next
  unfolding run
  run_step e es trq next h = ground (arith, h)

  module _ (Q : RemapEchoRequest P → Type 0) (least : ℕ)
      (writes : (room : ℕ) (trq : RemapEchoRequest P)
        → least ≤ room
        → Q trq
        → Leaves Q (write_content room trq).request) where
    hook-Leaves :
        (e : Event) (trq : RemapEchoRequest P)
        → IsQuiet least e
        → Q trq
        → Leaves Q (intercept_hook http e trq).request
    unfolding intercept_hook
    hook-Leaves (write_ready room) trq q h = writes room trq q h
    hook-Leaves read_complete trq q h = record { request = trq; found = refl; holds = h }
    hook-Leaves timeout trq q h = record { request = trq; found = refl; holds = h }
    hook-Leaves inactivity_timeout trq q h = record { request = trq; found = refl; holds = h }
    hook-Leaves net_accept trq q h = absurd q
    hook-Leaves net_accept_failed trq q h = absurd q
    hook-Leaves (read_ready blocks) trq q h = absurd q
    hook-Leaves vconn_error trq q h = absurd q
    hook-Leaves vconn_eos trq q h = absurd q
    hook-Leaves write_complete trq q h = absurd q
    hook-Leaves other_event trq q h = record { request = trq; found = refl; holds = h }

    pub run-quiet :
        (es : List Event) (trq : RemapEchoRequest P)
        → All (IsQuiet least) es
        → Q trq
        → (r : RemapEchoRequest P) × ((fs : List Event) → run http (es ++ fs) trq ≡ run http fs r)
          × Q r
    run-quiet [] trq quiet h = (trq, λ fs. refl, h)
    run-quiet (e ∷ es) trq (q, quiet) h =
        let first = hook-Leaves e trq q h in
        let (r, runs, holds) = run-quiet es first.request quiet first.holds in
        (r, λ fs. run_step e (es ++ fs) trq first.request first.found ∙ runs fs, holds)

  header_written :
      (trq : RemapEchoRequest P) (status : ℤ)
      → http.type_set ≡ true
      → http.version_set ≡ true
      → http.status_set status ≡ true
      → write_response_header http trq status
        ≡ some (
          record trq {
            written = trq.written ++ http.print (response_header trq status);
            write_nbytes = some (http.header_length (response_header trq status));
          },
          reenable_write ∷ count_bytes (http.header_length (response_header trq status)) ∷ [],
        )
  unfolding write_response_header
  header_written trq status t v h = ground (arith, t, v, h)

  respond_written :
      (trq : RemapEchoRequest P) (a : RemapEchoRequest P × List Call)
      → write_response_header http (set_nbytes 0 trq) trq.status_code ≡ some a
      → (respond http trq).request ≡ some a.0
  unfolding respond
  respond_written trq a h = ground (arith, h)

  read_done :
      (trq : RemapEchoRequest P) (blk : Bytes)
      → is_empty blk ≡ false
      → (http.parse trq.parser blk).1 ≡ parse_done
      → intercept_hook http (read_ready (blk ∷ [])) trq
        ≡ respond http (record trq { parser = (http.parse trq.parser blk).0 })
  unfolding intercept_hook read_blocks
  read_done trq blk e d = ground (arith, e, d)

  -- The header that answers a request for `cfg`: its Content-Length is that of the content.
  module _ (cfg : RemapEchoConfig) (parser : P) (blk : Bytes) where
    abbrev pub answer_header : ResponseHeader
    answer_header = response_header (create_request parser cfg) cfg.status_code

    -- The server makes the header, and the block ends the request.
    pub record IsAnswerable : Type 0 where
      pub type_is_set : http.type_set ≡ true
      pub version_is_set : http.version_set ≡ true
      pub status_is_set : http.status_set cfg.status_code ≡ true
      pub block_is_read : is_empty blk ≡ false
      pub request_ends : (http.parse parser blk).1 ≡ parse_done

    abbrev pub opening : List Event
    opening = net_accept ∷ read_ready (blk ∷ []) ∷ []

    abbrev pub answered : RemapEchoRequest P
    answered = record (create_request parser cfg) {
      parser = (http.parse parser blk).0;
      written = [] ++ http.print answer_header;
      write_nbytes = some (http.header_length answer_header);
    }

    read_answered :
        IsAnswerable
        → (intercept_hook http (read_ready (blk ∷ [])) (create_request parser cfg)).request
          ≡ some answered
    unfolding create_request response_header
    read_answered h =
        let trq = create_request parser cfg in
        let next = record trq { parser = (http.parse parser blk).0 } in
        let done = read_done trq blk h.block_is_read h.request_ends in
        let text =
          header_written (set_nbytes 0 next) cfg.status_code h.type_is_set h.version_is_set
            h.status_is_set in
        ap (λ (o : Outcome P). o.request) done ∙ respond_written next _ text

    pub run-opening :
        IsAnswerable
        → (fs : List Event)
        → run http (opening ++ fs) (create_request parser cfg) ≡ run http fs answered
    unfolding intercept_hook
    run-opening h fs =
        run_step net_accept (read_ready (blk ∷ []) ∷ fs) (create_request parser cfg)
          (create_request parser cfg) refl
        ∙ run_step (read_ready (blk ∷ [])) fs (create_request parser cfg) answered (read_answered h)

    abbrev pub header_text : Bytes
    header_text = http.print answer_header

    pub answered-IsCounted : IsCounted header_text cfg.content answered
    unfolding create_request
    answered-IsCounted = record {
      content_is = refl;
      left = omega arith;
      adds_up = refl;
      told = ap some (http.header_length-print answer_header);
    }

    pub answered-IsWhole : IsWhole header_text cfg.content answered
    unfolding create_request
    answered-IsWhole = record { counted = answered-IsCounted; written_is = inl (refl, refl) }

    -- However much of the content each write takes, the bytes in the buffer and those left are as
    -- many as the header and the content have, and the write operation is told of the bytes in the
    -- buffer, after any quiet events behind the request's.
    pub run-IsCounted :
        (es : List Event)
        → IsAnswerable
        → All (IsQuiet 0) es
        → (r : RemapEchoRequest P) × (run http (opening ++ es) (create_request parser cfg)
            ≡ some (some r))
          × IsCounted header_text cfg.content r
    unfolding run
    run-IsCounted es h quiet =
        let (r, runs, counted) =
          run-quiet (IsCounted header_text cfg.content) 0
            (λ room trq f c. write_content-IsCounted header_text cfg.content room trq c) es answered
            quiet answered-IsCounted in
        (
          r,
          run-opening h es ∙ ap (λ l. run http l answered) (sym (append-nil es)) ∙ runs [],
          counted,
        )
