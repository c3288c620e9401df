-- ===== src/Ingest/Tail/Window.antt =====
-- What the tail of pipeline/ingestor.py (`_tail_once`) delivers.
use getarp.Base.{
  ℕ, zero, suc, ◌+◌, Bool, Option, none, some, List, [], ◌∷◌, ◌++◌, leb, ◌≡◌, refl, sym, ap, ◌∙◌,
  Bool-cases, append_assoc, append_nil, inl, inr,
}
use getarp.Json.{Value, null, bool, int, float, str, arr, obj}
use getarp.Ingest.Tail.{
  Line, Tail, Round, line_read, caught_up, rotated_to, enqueue, save_if, parse, on_line,
  on_caught_up, drain, on_rotated, round, rounds,
}

-- the records of these lines, in order
abbrev pub records : (Line → Option Value) → List Line → List Value
records loads [] = []
records loads (l ∷ ls) = enqueue (parse loads l) [] ++ records loads ls

-- the lines that a round reads
abbrev pub lines_of : Round → List Line
lines_of (line_read l) = l ∷ []
lines_of caught_up = []
lines_of (rotated_to ls i) = ls

abbrev pub all_lines : List Round → List Line
all_lines [] = []
all_lines (x ∷ xs) = lines_of x ++ all_lines xs

pub enqueue_lem : (o : Option Value) (q : List Value) → enqueue o q ≡ (q ++ enqueue o [])
enqueue_lem none q = sym (append_nil q)
enqueue_lem (some null) q = sym (append_nil q)
enqueue_lem (some (bool b)) q = refl
enqueue_lem (some (int n)) q = refl
enqueue_lem (some (float n s)) q = refl
enqueue_lem (some (str s)) q = refl
enqueue_lem (some (arr vs)) q = refl
enqueue_lem (some (obj fs)) q = refl

pub records-append :
    (loads : Line → Option Value) (xs ys : List Line)
    → records loads (xs ++ ys) ≡ (records loads xs ++ records loads ys)
records-append loads [] ys = refl
records-append loads (x ∷ xs) ys = rw (
  records-append loads xs ys,
  append_assoc (enqueue (parse loads x) []) (records loads xs) (records loads ys),
)

module _ (loads : Line → Option Value) (every : ℕ) (writable : Bool) where
  drain_queue :
      (ls : List Line) (t : Tail)
      → (drain loads every writable ls t).queue ≡ (t.queue ++ records loads ls)
  unfolding drain
  drain_queue [] t = sym (append_nil t.queue)
  drain_queue (l ∷ ls) t =
      drain_queue ls _
      ∙ ap (λ q. q ++ records loads ls) (enqueue_lem (parse loads l) t.queue)
      ∙ append_assoc t.queue (enqueue (parse loads l) []) (records loads ls)

  pub on_line_queue :
      (l : Line) (t : Tail)
      → (on_line loads every writable l t).queue ≡ enqueue (parse loads l) t.queue
  unfolding on_line
  on_line_queue l t = elim (Bool-cases (leb every (t.unsaved + 1))) [
    | inl h ↦ rw (h, on_line)
    | inr h ↦ rw (h, on_line)
  ]

  save_if_queue : (n : ℕ) (t : Tail) → (save_if writable n t).queue ≡ t.queue
  unfolding save_if
  save_if_queue zero t = refl
  save_if_queue (suc n) t = refl

  on_caught_up_queue : (t : Tail) → (on_caught_up loads every writable t).queue ≡ t.queue
  unfolding on_caught_up
  on_caught_up_queue t = save_if_queue t.unsaved t

  pub round_queue :
      (x : Round) (t : Tail)
      → (round loads every writable x t).queue ≡ (t.queue ++ records loads (lines_of x))
  unfolding round on_rotated
  round_queue (line_read l) t =
      on_line_queue l t
      ∙ enqueue_lem (parse loads l) t.queue
      ∙ ap (λ q. t.queue ++ q) (sym (append_nil (enqueue (parse loads l) [])))
  round_queue caught_up t = on_caught_up_queue t ∙ sym (append_nil t.queue)
  round_queue (rotated_to ls i) t = drain_queue ls t

  -- Nothing is lost, repeated or reordered: whatever the rounds are, rotations and checkpoints that
  -- cannot be written included, the queue has gained the records of all the lines read, in the order
  -- of the lines.
  pub rounds_queue :
      (xs : List Round) (t : Tail)
      → (rounds loads every writable xs t).queue ≡ (t.queue ++ records loads (all_lines xs))
  unfolding rounds
  rounds_queue [] t = sym (append_nil t.queue)
  rounds_queue (x ∷ xs) t =
      rounds_queue xs (round loads every writable x t)
      ∙ ap (λ q. q ++ records loads (all_lines xs)) (round_queue x t)
      ∙ append_assoc t.queue (records loads (lines_of x)) (records loads (all_lines xs))
      ∙ ap (λ q. t.queue ++ q) (sym (records-append loads (lines_of x) (all_lines xs)))
