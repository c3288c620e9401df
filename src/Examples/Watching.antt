-- ===== src/Examples/Watching.antt =====
-- A worker with two loops, watched over.
use getarp.Base.{ℕ, ◌≤◌, String, eq_iff, true, false, List, [], ◌∷◌, ◌≡◌, refl, arith}
use getarp.Base.Dict.{get}
use getarp.Heartbeat.{State, Specs, start, age, stale, check, exits, sources, healthcheck}
use getarp.Heartbeat.Known.{beats}
use getarp.Heartbeat.Watch.{watchdog_spares, watchdog_catches}

abbrev loops : Specs
loops = ("consume", 120000) ∷ ("flush", 60000) ∷ []

abbrev at_start : State
at_start = record { files = []; last = []; warned = false }

abbrev busy : List (String × ℕ)
busy = ("consume", 1050000) ∷ ("flush", 1052000) ∷ ("consume", 1050500) ∷ ("flush", 1100000) ∷ []

watchdog_spares_example :
    exits loops 1150000 (beats busy (start true 1000000 loops at_start)) ≡ false
watchdog_spares_example =
    watchdog_spares loops 1000000 1150000 busy at_start (omega arith) (refl, (refl, tt))

abbrev old_files : State
old_files = record {
  files = ("consume", 1000000) ∷ ("flush", 1000000) ∷ [];
  last = ("consume", 1000000) ∷ ("flush", 1000000) ∷ [];
  warned = false;
}

abbrev wedged : List (String × ℕ)
wedged = ("consume", 1030000) ∷ ("consume", 1060500) ∷ []

others : {n : ℕ} → ◌≡◌ {A = String} "consume" "flush" → n ≤ 1000000
others e = absurd (ground (arith, (eq_iff "consume" "flush").1 e))

watchdog_catches_example : exits loops 1060501 (beats wedged old_files) ≡ true
unfolding get
watchdog_catches_example =
    watchdog_catches loops "flush" 60000 1000000 1060501 wedged old_files refl
      (1000000, refl, omega arith) (others, (others, tt)) (omega arith)

-- a source that has been quiet for too long is unhealthy, though every loop beats
quiet_source :
    healthcheck
      (("tail", 60000) ∷ [])
      (("data", 60000) ∷ [])
      1070000
      (record { files = ("tail", 1060000) ∷ ("data", 1000000) ∷ []; last = []; warned = false })
    ≡ 1
unfolding healthcheck check stale sources age get
quiet_source = refl
