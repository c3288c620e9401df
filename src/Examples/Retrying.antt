-- ===== src/Examples/Retrying.antt =====
-- Verdicts and waits.
use getarp.Base.{ℕ, false, ◌≡◌, refl, replace_char, text_append}
use getarp.Retry.{plain, other, pg_error, is_transient, oneline, ceiling}
use getarp.Examples.Data.{clients}

refused : is_transient clients (plain pg_error "invalid byte sequence") ≡ false
unfolding is_transient
refused = refl

one_line : oneline (plain other "a\r\nb") ≡ "a b"
unfolding oneline replace_char text_append
one_line = refl

-- a draw that always returns the shortest wait
abbrev shortest : ℕ → ℕ → ℕ
shortest lo hi = lo

waits : ceiling 500 30000 3 ≡ 2000
unfolding ceiling
waits = refl
