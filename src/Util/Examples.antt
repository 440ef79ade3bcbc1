-- ===== src/Util/Examples.antt =====
-- Tests of DivCeil, after util/divceil_test.go, and its theorems at concrete inputs.
use deliverator.Base.{◌≡◌, refl, returned}
use deliverator.Base.Int.{pos, wrap64}
use deliverator.Util.{div_ceil}

exact : div_ceil (pos 2) (pos 2) ≡ returned (pos 1)
unfolding div_ceil wrap64
exact = refl

rounds_up : div_ceil (pos 5) (pos 3) ≡ returned (pos 2)
unfolding div_ceil wrap64
rounds_up = refl
