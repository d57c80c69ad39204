-- ===== src/Echo/Intercept.antt =====
-- `RemapEchoInterceptHook` of src/remap_echo/remap_echo.cc: the events of one intercept.
use ats_plugin_experiment.Base.{
  ℕ, ◌+◌, ◌-◌, not, ◌==◌, Option, none, some, List, [], ◌∷◌, ◌++◌, Bytes, length, take, is_empty,
  if◌then◌else◌, ℤ,
}
use ats_plugin_experiment.Echo.{
  RemapEchoRequest, Http, parse_error, parse_done, parse_cont, response_header,
}

-- The calls of the server's API.
pub data Call : Type 0 where
  count_response : Call
  count_bytes : ℕ → Call
  vconn_read : Call
  vconn_write : Call
  vconn_close : Call
  cont_destroy : Call
  reenable_read : Call
  reenable_write : Call

pub data Event : Type 0 where
  net_accept : Event
  net_accept_failed : Event
  -- the blocks of the read buffer
  read_ready : List Bytes → Event
  -- how many bytes the write buffer takes
  write_ready : ℕ → Event
  vconn_error : Event
  vconn_eos : Event
  read_complete : Event
  write_complete : Event
  timeout : Event
  inactivity_timeout : Event
  other_event : Event

pub data Result : Type 0 where
  event_none : Result
  event_error : Result

-- The request is gone where it has been deleted.
pub record Outcome (P : Type 0) : Type 0 where
  pub request : Option (RemapEchoRequest P)
  pub calls : List Call
  pub result : Result

module _ {P : Type 0} where
  abbrev pub keep : RemapEchoRequest P → List Call → Result → Outcome P
  keep trq calls result = record { request = some trq; calls = calls; result = result }

  -- `RemapEchoRequestDestroy`, with a VIO.
  unfoldable pub destroy : Result → Outcome P
  destroy result = record {
    request = none;
    calls = vconn_close ∷ cont_destroy ∷ [];
    result = result;
  }

  -- `TSVIONBytesSet` on the write operation, which starts with the byte count `INT64_MAX`.
  abbrev pub set_nbytes : ℕ → RemapEchoRequest P → RemapEchoRequest P
  set_nbytes n trq = record trq { write_nbytes = some n }

  -- What `TSIOBufferWrite` returns where the buffer has room for `room` bytes.
  abbrev pub amount : ℕ → RemapEchoRequest P → ℕ
  amount room trq = length (take room (take trq.nbytes trq.content))

  -- `TS_EVENT_VCONN_WRITE_READY`. Each write takes the content from its beginning.
  unfoldable pub write_content : ℕ → RemapEchoRequest P → Outcome P
  write_content room trq =
      let nbytes = amount room trq in
      let vio : ℕ = elim trq.write_nbytes [ none ↦ 0 | some n ↦ n ] in
      if trq.nbytes == 0
      then keep trq [] event_none
      else keep
          (record trq {
            nbytes = trq.nbytes - nbytes;
            written = trq.written ++ take nbytes trq.content;
            write_nbytes = some (vio + nbytes);
          })
          (count_bytes nbytes ∷ reenable_write ∷ []) event_none

  -- `TS_EVENT_VCONN_WRITE_COMPLETE`.
  unfoldable pub write_completed : RemapEchoRequest P → Outcome P
  write_completed trq =
      if trq.nbytes == 0
      then destroy event_none
      else keep (set_nbytes trq.nbytes trq) (vconn_write ∷ []) event_none

  module _ (http : Http P) where
    open http use {type_set, version_set, status_set, print, header_length, parse}

    -- `WriteResponseHeader`; `none` is `TS_ERROR`.
    unfoldable pub write_response_header :
        RemapEchoRequest P → ℤ → Option (RemapEchoRequest P × List Call)
    write_response_header trq status =
        let response = response_header trq status in
        let hdrlen = header_length response in
        if not type_set
        then none
        else if not version_set
        then none
        else if not (status_set status)
        then none
        else some (
          record trq { written = trq.written ++ print response; write_nbytes = some hdrlen },
          reenable_write ∷ count_bytes hdrlen ∷ [],
        )

    -- `TS_PARSE_DONE`.
    unfoldable pub respond : RemapEchoRequest P → Outcome P
    respond trq =
        let started = set_nbytes 0 trq in
        elim (write_response_header started trq.status_code) [
          | none ↦ keep started (vconn_write ∷ []) event_error
          | some answer ↦ keep answer.0 (vconn_write ∷ answer.1) event_none
        ]

    -- The loop over the blocks.
    unfoldable pub read_blocks : List Bytes → RemapEchoRequest P → Outcome P
    read_blocks [] trq = keep trq (reenable_read ∷ []) event_none
    read_blocks (blk ∷ blks) trq =
        let parsed = parse trq.parser blk in
        let next = record trq { parser = parsed.0 } in
        let skipped = read_blocks blks trq in
        let continued = read_blocks blks next in
        if is_empty blk then skipped else elim parsed.1 [
          | parse_error ↦ destroy event_error
          | parse_done ↦ respond next
          | parse_cont ↦ continued
        ]

    unfoldable pub intercept_hook : Event → RemapEchoRequest P → Outcome P
    intercept_hook net_accept trq = keep trq (count_response ∷ vconn_read ∷ []) event_none
    intercept_hook net_accept_failed trq = record {
      request = none;
      calls = cont_destroy ∷ [];
      result = event_none;
    }
    intercept_hook (read_ready blocks) trq = read_blocks blocks trq
    intercept_hook (write_ready room) trq = write_content room trq
    intercept_hook vconn_error trq = destroy event_error
    intercept_hook vconn_eos trq = destroy event_none
    intercept_hook read_complete trq = keep trq [] event_none
    intercept_hook write_complete trq = write_completed trq
    intercept_hook timeout trq = keep trq [] event_none
    intercept_hook inactivity_timeout trq = keep trq [] event_error
    intercept_hook other_event trq = keep trq [] event_error

    -- The events of an intercept, one after the other. An event behind the deletion of the request
    -- uses freed memory: `none`.
    unfoldable pub run : List Event → RemapEchoRequest P → Option (Option (RemapEchoRequest P))
    run [] trq = some (some trq)
    run (e ∷ es) trq = elim (intercept_hook e trq).request [
      | some next ↦ run es next
      | none ↦ if is_empty es then some none else none
    ]
