-- ===== src/Util.antt =====
-- util/divceil.go: integer division that rounds up.
pub mod Bounds
mod Examples
use deliverator.Base.{returned, panicked, Outcome, if◌then◌else◌}
use deliverator.Base.Int.{ℤ, pos, ◌+ℤ◌, ◌-ℤ◌, quot, eq_ℤ, wrap64}

-- (a + b - 1) / b. Both sums and the quotient are int64 operations, so each of them wraps.
unfoldable pub rounded : ℤ → ℤ → ℤ
rounded a b = wrap64 (quot (wrap64 (wrap64 (a +ℤ b) -ℤ pos 1)) b)

-- DivCeil.
unfoldable pub div_ceil : ℤ → ℤ → Outcome ℤ
unfolding rounded
div_ceil a b = if eq_ℤ b (pos 0) then panicked "division by zero" else returned (rounded a b)
