-- ===== src/Upload/Task/Examples.antt =====
-- Tests of the durations, and their theorems at concrete inputs.
use deliverator.Base.{refl, arith, true}
use deliverator.Base.Int.{ℤ}
use deliverator.Upload.Samples.{whole, task}
use deliverator.Upload.Task.{Task}
use deliverator.Upload.Task.Durations.{IsExact}

whole-IsExact : IsExact whole
whole-IsExact = record { zero_seconds = refl; sub_exact = λ a b h. ground arith }

-- Queued at 1000, begun at 4000.
abbrev queued : Task ℤ
queued = record task { upload_queued = true; transfer_start_time = 4_000 }
