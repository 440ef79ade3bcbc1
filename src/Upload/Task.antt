-- ===== src/Upload/Task.antt =====
-- UploadTask of upload/handler.go: the life of one upload request and its durations.
pub mod Durations
pub mod Integers
mod Examples
use deliverator.Base.{
  ℕ, ◌-◌, ◌^◌, ◌==◌, String, Bool, false, not, ◌&&◌, Option, none, if◌then◌else◌,
}
use deliverator.Base.Int.{ℤ, pos, negsuc, sub_ℕ, leb_ℤ}

-- The float64 operations and the formatting that the handler calls. Floats have no definition here.
pub record Float64 (F : Type 0) : Type 0 where
  pub zero_f : F
  pub of_int64 : ℤ → F
  pub seconds : ℤ → F
  pub sub_f : F → F → F
  pub div_f : F → F → F
  pub mul_f : F → F → F
  pub pow_f : F → F → F
  pub round_duration : F → ℤ
  pub duration_text : ℤ → String
  pub rate_text : F → String
  pub is_zero_f : F → Bool
  pub is_finite : F → Bool

-- A url.URL: what the program reads of it, and its String().
pub record Url : Type 0 where
  pub scheme : String
  pub host : String
  pub path : String
  pub text : String

-- A time.Time, in nanoseconds after the zero time. IsZero is the test against 0.
abbrev pub Time : Type 0
Time = ℕ

-- UploadTask; nil pointers are `none`.
pub record Task (F : Type 0) : Type 0 where
  pub id : ℕ
  pub uri : Option Url
  pub file : Option String
  pub slug : Option String
  pub upload_total : String
  pub upload_total_seconds : F
  pub upload_queued_seconds : F
  pub upload_transfer_seconds : F
  pub upload_attempts : ℤ
  pub upload_size_bytes : ℤ
  pub upload_transfer_rate : String
  pub upload_transfer_rate_bytes : F
  pub upload_parts : ℤ
  pub bucket : Option String
  pub key : Option String
  pub start_time : Time
  pub transfer_start_time : Time
  pub end_time : Time
  pub upload_queued : Bool

-- t.Sub(u): the difference, held within the range of an int64.
unfoldable pub time_sub : Time → Time → ℤ
time_sub t u =
    let d = sub_ℕ t u in
    if leb_ℤ (pos (2 ^ 63)) d
    then pos (2 ^ 63 - 1)
    else if leb_ℤ d (negsuc (2 ^ 63))
    then negsuc (2 ^ 63 - 1)
    else d

-- IsZero.
abbrev pub is_zero : Time → Bool
is_zero t = t == 0

module _ {F : Type 0} (fl : Float64 F) where
  open fl use {zero_f, of_int64, seconds, sub_f, div_f, duration_text, rate_text}

  -- NewUploadTask: the id is that of uuid.New(), all else has its zero value.
  unfoldable pub new_upload_task : ℕ → Time → Task F
  new_upload_task id now = record {
    id = id;
    uri = none;
    file = none;
    slug = none;
    upload_total = "";
    upload_total_seconds = zero_f;
    upload_queued_seconds = zero_f;
    upload_transfer_seconds = zero_f;
    upload_attempts = pos 0;
    upload_size_bytes = pos 0;
    upload_transfer_rate = "";
    upload_transfer_rate_bytes = zero_f;
    upload_parts = pos 0;
    bucket = none;
    key = none;
    start_time = now;
    transfer_start_time = 0;
    end_time = 0;
    upload_queued = false;
  }

  -- Stop, up to the total: endTime, UploadTotalSeconds and UploadTotal.
  set_total : Time → Task F → Task F
  set_total now t =
      let d = time_sub now t.start_time in
      record t { end_time = now; upload_total_seconds = seconds d; upload_total = duration_text d }

  -- Stop: the queued duration, which is left alone for a task that was not queued.
  set_queued : Task F → Task F
  set_queued t =
      if t.upload_queued && not (is_zero t.transfer_start_time)
      then record t {
        upload_queued_seconds = seconds (time_sub t.transfer_start_time t.start_time);
      }
      else if t.upload_queued && is_zero t.transfer_start_time
      then record t { upload_queued_seconds = t.upload_total_seconds }
      else t

  -- Stop: the transfer duration and rate of a task whose transfer started.
  set_transfer : Task F → Task F
  set_transfer t =
      if is_zero t.transfer_start_time
      then t
      else let transfer = sub_f t.upload_total_seconds t.upload_queued_seconds in
        let rate = div_f (of_int64 t.upload_size_bytes) transfer in
        record t {
          upload_transfer_seconds = transfer;
          upload_transfer_rate_bytes = rate;
          upload_transfer_rate = rate_text rate;
        }

  -- Stop, at the time `now`.
  unfoldable pub stop : Time → Task F → Task F
  unfolding set_total set_queued set_transfer
  stop now t = set_transfer (set_queued (set_total now t))

  -- StopNoUpload.
  unfoldable pub stop_no_upload : Time → Task F → Task F
  unfolding stop
  stop_no_upload now t = record (stop now t) {
    upload_transfer_rate_bytes = zero_f;
    upload_transfer_rate = "";
  }

-- StartTransfer, at the time `now`.
unfoldable pub start_transfer : {F : Type 0} → Time → Task F → Task F
start_transfer now t = record t { transfer_start_time = now }
