-- ===== src/Examples/Tailing.antt =====
-- The tail on a file of three lines that is rotated.
use getarp.Base.{
  Option, none, some, true, List, [], ◌∷◌, ◌++◌, ◌≡◌, refl, arith, eqb, if◌then◌else◌,
}
use getarp.Json.{Value, str}
use getarp.Ingest.Checkpoint.{save_checkpoint}
use getarp.Ingest.Tail.{
  Line, Tail, Round, line_read, caught_up, rotated_to, rounds, round, on_line, on_caught_up,
  save_if, drain, on_rotated, parse,
}
use getarp.Ingest.Tail.Window.{records, all_lines, rounds_queue}
use getarp.Ingest.Tail.Resumed.{Resumes, rounds-Resumes}

-- every line that begins with `{` is a record
abbrev loads : Line → Option Value
loads [] = none
loads (b ∷ line) = if eqb b 123 then some (str "record") else none

abbrev good : Line
good = 32 ∷ 123 ∷ 125 ∷ 10 ∷ []

abbrev bad : Line
bad = 33 ∷ 10 ∷ []

abbrev start : Tail
start = record {
  inode = 7;
  offset = 100;
  unsaved = 0;
  checkpoint = save_checkpoint true 7 100 none;
  queue = [];
}

abbrev reading : List Round
reading =
    line_read good ∷ line_read bad ∷ caught_up ∷ rotated_to (good ∷ []) 8 ∷ line_read good ∷ []

three_queued :
    (rounds loads 50 true reading start).queue ≡ str "record" ∷ str "record" ∷ str "record" ∷ []
unfolding rounds round on_line on_caught_up save_if on_rotated drain parse
three_queued = refl

rounds_queue_example :
    (rounds loads 50 true reading start).queue ≡ ([] ++ records loads (all_lines reading))
rounds_queue_example = rounds_queue loads 50 true reading start

rounds-Resumes_example :
    Resumes (λ s. none) 4 loads 50 (all_lines reading) [] 8 4 (rounds loads 50 true reading start)
rounds-Resumes_example =
    rounds-Resumes loads 50 (omega arith) (λ s. none) 4 reading [] [] start
      (100, [], [], refl, refl, refl, omega arith, refl, refl) (omega arith)
