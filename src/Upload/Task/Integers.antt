-- ===== src/Upload/Task/Integers.antt =====
-- The integers of a task of upload/handler.go, which are int64 in the code.
use deliverator.Base.{◌^◌, ◌≤◌, ◌<◌, ◌≡◌, ap, ◌∙◌, sym, subst, arith}
use deliverator.Base.Int.{ℤ, pos, pos_part, neg_part, max_ℤ, wrap64}
use deliverator.Upload.Task.{
  Float64, Time, Task, set_total, set_queued, set_transfer, stop, stop_no_upload,
}

-- The range of an int64.
abbrev pub Fits : ℤ → Type 0
Fits z = (neg_part z ≤ 2 ^ 63) × (pos_part z < 2 ^ 63)

pub wrap64-Fits : (z : ℤ) → Fits (wrap64 z)
unfolding wrap64
wrap64-Fits z = ground arith

pub max_ℤ-Fits : (z : ℤ) → Fits z → Fits (max_ℤ z (pos 1))
max_ℤ-Fits z f = ground arith

-- A task whose integers are those of an int64.
pub record IsInt64 {F : Type 0} (t : Task F) : Type 0 where
  pub attempts : Fits t.upload_attempts
  pub size : Fits t.upload_size_bytes
  pub parts : Fits t.upload_parts

abbrev integers : {F : Type 0} → Task F → ℤ × ℤ × ℤ
integers t = (t.upload_attempts, t.upload_size_bytes, t.upload_parts)

pub same-IsInt64 : {F : Type 0} (t u : Task F) → integers u ≡ integers t → IsInt64 t → IsInt64 u
same-IsInt64 t u e i = record {
  attempts = subst Fits (sym (ap (λ x. x.0) e)) i.attempts;
  size = subst Fits (sym (ap (λ x. x.1) e)) i.size;
  parts = subst Fits (sym (ap (λ x. x.2) e)) i.parts;
}

module _ {F : Type 0} (fl : Float64 F) (now : Time) where
  set_queued-integers : (t : Task F) → integers (set_queued fl t) ≡ integers t
  unfolding set_queued
  set_queued-integers t = ground arith

  set_transfer-integers : (t : Task F) → integers (set_transfer fl t) ≡ integers t
  unfolding set_transfer
  set_transfer-integers t = ground arith

  stop-integers : (t : Task F) → integers (stop fl now t) ≡ integers t
  unfolding stop set_total
  stop-integers t =
      set_transfer-integers (set_queued fl (set_total fl now t))
      ∙ set_queued-integers (set_total fl now t)

  pub stop-IsInt64 : (t : Task F) → IsInt64 t → IsInt64 (stop fl now t)
  stop-IsInt64 t i = same-IsInt64 t (stop fl now t) (stop-integers t) i

  pub stop_no_upload-IsInt64 : (t : Task F) → IsInt64 t → IsInt64 (stop_no_upload fl now t)
  unfolding stop_no_upload
  stop_no_upload-IsInt64 t i = same-IsInt64 t (stop_no_upload fl now t) (stop-integers t) i
