-- ===== src/Retry/Verdict.antt =====
-- Which exceptions `is_transient` lets the loops retry.
use getarp.Base.{
  Lacks, replace_self-Lacks, replace-Lacks, String, none, List, [], ◌∷◌, ◌≡◌, refl, arith,
  replace_char,
}
use getarp.Retry.{Kind, Ex, Clients, caused, classify, is_transient, message, oneline, item_error}

-- raised again from the cause, with context added each time
pub wrap : List (Kind × String) → Ex → Ex
wrap [] ex = ex
wrap ((k, m) ∷ ws) ex = caused k m (wrap ws ex)

abbrev pub AllUnknown : Clients → List (Kind × String) → Type 0
AllUnknown cl [] = Unit
AllUnknown cl ((k, m) ∷ ws) = (classify cl k ≡ none) × AllUnknown cl ws

-- However often an exception is raised again from classes that the tests do not know, the verdict
-- is that of the exception underneath.
pub is_transient-wrap :
    (cl : Clients) (ws : List (Kind × String)) (ex : Ex)
    → AllUnknown cl ws
    → is_transient cl (wrap ws ex) ≡ is_transient cl ex
unfolding wrap is_transient
is_transient-wrap cl [] ex h = refl
is_transient-wrap cl ((k, m) ∷ ws) ex h = rw h.0 (is_transient-wrap cl ws ex h.1)

-- The context that the pipeline adds is such a class.
pub item_error-unknown : (cl : Clients) → classify cl item_error ≡ none
unfolding classify
item_error-unknown cl = ground arith

-- What is logged of an exception stands on one line: no newline, no carriage return.
pub oneline_lem : (ex : Ex) → Lacks 10 (oneline ex) × Lacks 13 (oneline ex)
unfolding oneline
oneline_lem ex = (
  replace-Lacks 13 10 "" (replace_char 10 " " (message ex)) tt
      (replace_self-Lacks 10 " " (message ex) (omega arith, tt)),
  replace_self-Lacks 13 "" (replace_char 10 " " (message ex)) tt,
)
