-- ===== src/Upload/Task/Durations.antt =====
-- The durations that Stop of upload/handler.go computes: the queued and the transfer time make up
-- the total.
use deliverator.Base.{ℕ, ◌-◌, ◌^◌, ◌≤◌, ◌<◌, ◌≡◌, ◌≢◌, refl, arith, true, false, if◌then◌else◌}
use deliverator.Base.Int.{pos}
use deliverator.Upload.Task.{
  Float64, Time, Task, time_sub, set_total, set_queued, set_transfer, stop, stop_no_upload,
}

-- Subtraction of durations in seconds without a rounding error.
pub record IsExact {F : Type 0} (fl : Float64 F) : Type 0 where
  pub zero_seconds : fl.zero_f ≡ fl.seconds (pos 0)
  pub sub_exact :
      (a b : ℕ)
      → b ≤ a
      → fl.sub_f (fl.seconds (pos a)) (fl.seconds (pos b)) ≡ fl.seconds (pos (a - b))

time_sub-later : (t u : ℕ) → u ≤ t → t - u < 2 ^ 63 → time_sub t u ≡ pos (t - u)
unfolding time_sub
time_sub-later t u h fits = ground arith

module _ {F : Type 0} (fl : Float64 F) (now : Time) (t : Task F) where
  -- What Stop at the time `now` makes of a task: the total is the time since the start. If the
  -- transfer began, the queued time is that up to its beginning for a task that was queued and
  -- else 0, and the transfer time is the rest of the total. If it never began, all of the total was
  -- spent in the queue or none, and there is no transfer time.
  pub record AddUp (u : Task F) : Type 0 where
    pub ended : u.end_time ≡ now
    pub total : u.upload_total_seconds ≡ fl.seconds (pos (now - t.start_time))
    pub queued_first :
        t.transfer_start_time ≢ 0
        → t.upload_queued ≡ true
        → (u.upload_queued_seconds ≡ fl.seconds (pos (t.transfer_start_time - t.start_time)))
          × (u.upload_transfer_seconds ≡ fl.seconds (pos (now - t.transfer_start_time)))
    pub at_once :
        t.transfer_start_time ≢ 0
        → t.upload_queued ≡ false
        → (u.upload_queued_seconds ≡ fl.zero_f)
          × (u.upload_transfer_seconds ≡ fl.seconds (pos (now - t.start_time)))
    pub never_began :
        t.transfer_start_time ≡ 0
        → (u.upload_queued_seconds
            ≡ (if t.upload_queued then fl.seconds (pos (now - t.start_time)) else fl.zero_f))
          × (u.upload_transfer_seconds ≡ fl.zero_f)

  module _ (exact : IsExact fl) (fresh_queued : t.upload_queued_seconds ≡ fl.zero_f)
      (fresh_transfer : t.upload_transfer_seconds ≡ fl.zero_f) (began : t.start_time ≤ now)
      (fits : now - t.start_time < 2 ^ 63)
      (order : t.transfer_start_time ≢ 0
        → (t.start_time ≤ t.transfer_start_time) × (t.transfer_start_time ≤ now)) where
    -- For a new task, times in order within the range of an int64, and durations in seconds that are
    -- subtracted exactly, the durations that Stop computes add up: queued and transfer time make the
    -- total, by the cases of AddUp.
    pub stop-AddUp : AddUp (stop fl now t)
    unfolding stop set_total set_queued set_transfer
    stop-AddUp = record {
      ended = ground arith;
      total = ground (arith, time_sub-later now t.start_time began fits);
      queued_first = λ ne q.
          let (o1, o2) = order ne in
          ground (
            arith,
            time_sub-later now t.start_time began fits,
            time_sub-later t.transfer_start_time t.start_time o1 (omega arith),
            exact.sub_exact (now - t.start_time) (t.transfer_start_time - t.start_time)
                (omega arith),
          );
      at_once = λ ne q. ground (
        arith,
        time_sub-later now t.start_time began fits,
        fresh_queued,
        exact.zero_seconds,
        exact.sub_exact (now - t.start_time) 0 (omega arith),
      );
      never_began = λ e.
          ground (arith, time_sub-later now t.start_time began fits, fresh_queued, fresh_transfer);
    }

    -- Under the same conditions the durations that StopNoUpload computes add up too, and the task has
    -- no transfer rate.
    pub stop_no_upload-AddUp :
        AddUp (stop_no_upload fl now t)
        × ((stop_no_upload fl now t).upload_transfer_rate_bytes ≡ fl.zero_f)
        × ((stop_no_upload fl now t).upload_transfer_rate ≡ "")
    unfolding stop_no_upload
    stop_no_upload-AddUp =
        let a = stop-AddUp in
        (
          record {
            ended = a.ended;
            total = a.total;
            queued_first = a.queued_first;
            at_once = a.at_once;
            never_began = a.never_began;
          },
          refl,
          refl,
        )
