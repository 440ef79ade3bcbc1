-- ===== src/Client/Multi.antt =====
-- UploadMulti of client/client.go, whose uploads end in any order.
use mathlib.Core.List.{Permᴰ}
use mathlib.Core.List.Permᴰ
use deliverator.Base.{
  ◌≡◌, ◌≢◌, ◌↔◌, refl, ap, arith, String, none, List, [], ◌∷◌, map, All, All-map, All-Perm,
  map-Perm, Option-cases, inl, inr,
}
use deliverator.Errors.{GoError}
use deliverator.ConnTracker.Tracker.{join_all}
use deliverator.Upload.Task.{Url}
use deliverator.Upload.Serve.{RequestStatus}
use deliverator.Client.{
  Fallible, Net, Client, UploadStatus, upload_request, upload, errors_of, upload_multi,
}
use deliverator.Client.Exchange.{IsAnswered, no_error-IsAnswered, upload-IsAnswered}

join_all-cons : (e : GoError) (es : List GoError) → join_all (e ∷ es) ≢ none
join_all-cons e es = ground arith

module _ (net : Net) {F : Type 0} (unmarshal : String → Fallible (RequestStatus F)) (c : Client)
    (slug : String) where
  -- What Upload gives for one file, as a status.
  abbrev pub upload_status : String × Url → UploadStatus F
  upload_status f = record {
    server = c.server;
    request_status = (upload net unmarshal c f.0 f.1 slug).0;
    error = (upload net unmarshal c f.0 f.1 slug).1;
  }

  -- The request for a file was answered with code 200 and the JSON of a status.
  abbrev pub WasUploaded : String × Url → Type 0
  WasUploaded f =
      (st : RequestStatus F) × IsAnswered net unmarshal (upload_request net c f.0 f.1 slug) st

  error-WasUploaded : (f : String × Url) → ((upload_status f).error ≡ none) ↔ WasUploaded f
  unfolding upload
  error-WasUploaded f = (
    λ e. no_error-IsAnswered net unmarshal _ _ _ e,
    λ (st, i). ap (λ x. x.1) ((upload-IsAnswered net unmarshal c f.0 f.1 slug st).1 i),
  )

  abbrev EndedWell : String × Url → Type 0
  EndedWell f = (upload net unmarshal c f.0 f.1 slug).1 ≡ none

  errors-none :
      (files : List (String × Url))
      → ((upload_multi net unmarshal c files slug).1 ≡ none) ↔ All EndedWell files
  unfolding upload_multi
  errors-none [] = (λ e. tt, λ h. refl)
  errors-none (f ∷ fs) = elim (Option-cases (upload net unmarshal c f.0 f.1 slug).1) [
    | inl e ↦ rw (e, upload_multi) (λ h. (refl, (errors-none fs).0 h), λ h. (errors-none fs).1 h.1)
    | inr (x, e) ↦
        rw (e, upload_multi)
          (
            λ h. absurd (join_all-cons x (errors_of (upload_multi net unmarshal c fs slug).0) h),
            λ h. cc h.0,
          )
  ]

  errors-WasUploaded :
      (files : List (String × Url))
      → ((upload_multi net unmarshal c files slug).1 ≡ none) ↔ All WasUploaded files
  errors-WasUploaded files = (
    λ e.
        All-map EndedWell WasUploaded (λ f. (error-WasUploaded f).0) files
          ((errors-none files).0 e),
    λ h.
        (errors-none files).1
          (All-map WasUploaded EndedWell (λ f. (error-WasUploaded f).1) files h),
  )

  -- For files whose uploads end in any order, UploadMulti returns for each of them what Upload does,
  -- in some order; and it returns no error exactly if the request for each file can be made, and its
  -- reply has code 200 and a body that can be read and is the JSON of some status.
  pub upload_multi-any_order :
      {files order : List (String × Url)}
      → Permᴰ files order
      → Permᴰ (map upload_status files) (upload_multi net unmarshal c order slug).0
        × (((upload_multi net unmarshal c order slug).1 ≡ none) ↔ All WasUploaded files)
  unfolding upload_multi
  upload_multi-any_order {order = order} p = (
    map-Perm upload_status p,
    (
      λ e. All-Perm WasUploaded (Permᴰ.symm p) ((errors-WasUploaded order).0 e),
      λ h. (errors-WasUploaded order).1 (All-Perm WasUploaded p h),
    ),
  )
