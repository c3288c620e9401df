-- ===== src/Analytics/Flush/Settles.antt =====
-- What a flush that meets no failure leaves.
use getarp.Base.{ℕ, zero, suc, List, [], ◌∷◌}
use getarp.Analytics.Profile.{Profile}
use getarp.Analytics.Flush.{written, Op, next}

-- `n` rounds whose writes succeed
abbrev pub rounds : ℕ → List Op
rounds zero = []
rounds (suc n) = next written ∷ rounds n
