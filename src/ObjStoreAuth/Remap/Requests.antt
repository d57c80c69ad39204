-- ===== src/ObjStoreAuth/Remap/Requests.antt =====
-- When a request goes on to the origin.
use mathlib.Core.Path.{subst}
use ats_plugin_experiment.Base.{
  ℕ, Bool, true, false, Option, none, some, Bytes, ◌≡◌, inl, inr, refl, sym, ap, ◌∙◌, arith,
  Option-cases,
}
use ats_plugin_experiment.AwsAuthV4.Sodium.{Sodium}
use ats_plugin_experiment.ObjStoreAuth.Config.{S3Config}
use ats_plugin_experiment.ObjStoreAuth.S3Request.{
  Mime, HttpStatus, ok, internal_server_error, authorize,
}
use ats_plugin_experiment.ObjStoreAuth.S3Request.Signed.{IsLetThrough, authorize-ok}
use ats_plugin_experiment.ObjStoreAuth.Remap.{
  send_request_hdr, http_continue, Handled, answer, event_handler,
}

module _ {H L : Type 0} (mime : Mime H L) (sodium : Sodium) where
  handled_run :
      (rounds : ℕ) (date_time : Bytes) (stored : Option Bytes) (committed : Bool) (s3 : S3Config)
      (h g : H) (status : HttpStatus)
      → authorize mime sodium rounds date_time stored committed s3 h ≡ some (g, status)
      → event_handler mime sodium rounds date_time stored committed true s3 send_request_hdr h
        ≡ some (answer (g, status))
  unfolding event_handler
  handled_run rounds date_time stored committed s3 h g status e = ground (arith, e)

  -- When the header of a request is about to be sent, the transaction goes on only if the request
  -- could be initialised and has been signed; the header is then the signed one and no status is
  -- set.
  pub event_handler-continue :
      (rounds : ℕ) (date_time : Bytes) (stored : Option Bytes) (committed initialized : Bool)
      (s3 : S3Config) (h : H) (r : Handled H)
      → event_handler mime sodium rounds date_time stored committed initialized s3 send_request_hdr
          h
        ≡ some r
      → r.enable_event ≡ http_continue
      → (initialized ≡ true)
        × (r.status_set ≡ none)
        × IsLetThrough mime sodium rounds date_time s3 stored h r.header
  unfolding event_handler answer
  event_handler-continue rounds date_time stored committed false s3 h r e c =
      absurd (ground (arith, e, c))
  event_handler-continue rounds date_time stored committed true s3 h r e c =
      elim (Option-cases (authorize mime sodium rounds date_time stored committed s3 h)) [
        | inl n ↦ absurd (ground (arith, n, e))
        | inr ((g, internal_server_error), n) ↦ absurd (ground (arith, n, e, c))
        | inr ((g, ok), n) ↦
            let same : some (answer (g, ok)) ≡ some r =
              sym (handled_run rounds date_time stored committed s3 h g ok n) ∙ e in
            let is_r : answer (g, ok) ≡ r = ground (arith, same) in
            (
              refl,
              ap (λ (x : Handled H). x.status_set) (sym is_r),
              subst
                  (λ (x : Handled H).
                    IsLetThrough mime sodium rounds date_time s3 stored h x.header)
                  is_r (authorize-ok mime sodium rounds date_time s3 stored committed h g n),
            )
      ]
