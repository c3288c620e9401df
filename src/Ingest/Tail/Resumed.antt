-- ===== src/Ingest/Tail/Resumed.antt =====
-- Where the checkpoints of the tail of pipeline/ingestor.py (`_tail_once`) bring a restart.
use getarp.Base.Int.{ℤ}
use getarp.Base.Exec.{ok}
use getarp.Base.{
  String, ltb, if◌then◌else◌, ℕ, zero, suc, ◌+◌, ◌≤◌, ◌<◌, true, Option, none, List, [], ◌∷◌, ◌++◌,
  leb, length, ◌≡◌, refl, sym, ap, ◌∙◌, arith, Bool-cases, append_assoc, append_nil, length-append,
  leb→lt, inl, inr,
}
use getarp.Json.{Value}
use getarp.Ingest.Checkpoint.{
  save_checkpoint, load_checkpoint, resume_position, catching_up, resuming, resume-save,
}
use getarp.Ingest.Tail.{
  Line, Tail, Round, line_read, caught_up, rotated_to, enqueue, save, save_if, parse, on_line,
  on_caught_up, drain, on_rotated, round, rounds,
}
use getarp.Ingest.Tail.Window.{
  records, lines_of, all_lines, records-append, on_line_queue, round_queue,
}

-- the bytes of these lines
abbrev bytes : List Line → ℕ
bytes [] = 0
bytes (l ∷ ls) = length l + bytes ls

-- `lines` were read since the queue was `q0`, and their records are on it; the state file names the file
-- being read and an offset of it, and `pending` are the lines read since, fewer than `every`.
abbrev pub IsBehind : (Line → Option Value) → ℕ → List Line → List Value → Tail → Type 0
IsBehind loads every lines q0 t =
    (saved : ℕ) × (before pending : List Line) × (t.checkpoint
      ≡ save_checkpoint true t.inode saved none)
    × (saved + bytes pending ≡ t.offset)
    × (length pending ≡ t.unsaved)
    × (t.unsaved < every)
    × (lines ≡ (before ++ pending))
    × (t.queue ≡ (q0 ++ records loads lines))

-- the file that is read after these rounds, and how far
abbrev pub file_after : List Round → ℕ → ℕ
file_after [] inode = inode
file_after (line_read l ∷ xs) inode = file_after xs inode
file_after (caught_up ∷ xs) inode = file_after xs inode
file_after (rotated_to ls new ∷ xs) inode = file_after xs new

abbrev pub position : List Round → ℕ → ℕ
position [] offset = offset
position (line_read l ∷ xs) offset = position xs (offset + length l)
position (caught_up ∷ xs) offset = position xs offset
position (rotated_to ls new ∷ xs) offset = position xs 0

-- A start on the file `inode`, of `size` bytes, of which `offset` were read, goes on where the lines
-- `before` end and the lines `pending` begin, which are all that is read a second time.
abbrev pub Resumes :
    (String → Option ℤ)
    → ℕ
    → (Line → Option Value)
    → ℕ
    → List Line
    → List Value
    → ℕ
    → ℕ
    → Tail
    → Type 0
Resumes int_of size loads every lines q0 inode offset t =
    (saved : ℕ) × (before pending : List Line) × (resume_position
        (load_checkpoint int_of t.checkpoint) inode size
      ≡ ok (saved, if ltb saved size then catching_up else resuming))
    × (saved + bytes pending ≡ offset)
    × (length pending < every)
    × (lines ≡ (before ++ pending))
    × (t.queue ≡ (q0 ++ records loads lines))

resume_saved :
    (int_of : String → Option ℤ) (inode saved size : ℕ)
    → saved ≤ size
    → resume_position (load_checkpoint int_of (save_checkpoint true inode saved none)) inode size
      ≡ ok (saved, if ltb saved size then catching_up else resuming)
resume_saved int_of inode saved size h =
    resume-save int_of inode saved inode size none ∙ ground arith

bytes-append : (xs ys : List Line) → bytes (xs ++ ys) ≡ bytes xs + bytes ys
bytes-append [] ys = omega arith
bytes-append (x ∷ xs) ys = omega (arith, bytes-append xs ys)

module _ (loads : Line → Option Value) (every : ℕ) (positive : 1 ≤ every) where
  save-IsBehind :
      (lines : List Line) (q0 : List Value) (t : Tail)
      → t.queue ≡ (q0 ++ records loads lines)
      → IsBehind loads every lines q0 (save true t)
  unfolding save_checkpoint
  save-IsBehind lines q0 t q = (
    t.offset,
    lines,
    [],
    refl,
    omega arith,
    refl,
    omega (arith, positive),
    sym (append_nil lines),
    q,
  )

  behind_queue :
      (x : Round) (lines : List Line) (q0 : List Value) (t : Tail)
      → t.queue ≡ (q0 ++ records loads lines)
      → (round loads every true x t).queue ≡ (q0 ++ records loads (lines ++ lines_of x))
  behind_queue x lines q0 t q =
      round_queue loads every true x t
      ∙ ap (λ r. r ++ records loads (lines_of x)) q
      ∙ append_assoc q0 (records loads lines) (records loads (lines_of x))
      ∙ ap (λ r. q0 ++ r) (sym (records-append loads lines (lines_of x)))

  save_if-IsBehind :
      (n : ℕ) (lines : List Line) (q0 : List Value) (t : Tail)
      → IsBehind loads every lines q0 t
      → IsBehind loads every lines q0 (save_if true n t)
  unfolding save_if
  save_if-IsBehind zero lines q0 t h = h
  save_if-IsBehind (suc n) lines q0 t (saved, before, pending, c, o, k, b, l, q) =
      save-IsBehind lines q0 t q

  on_line-IsBehind :
      (l : Line) (lines : List Line) (q0 : List Value) (t : Tail)
      → IsBehind loads every lines q0 t
      → IsBehind loads every (lines ++ l ∷ []) q0 (on_line loads every true l t)
  unfolding on_line round
  on_line-IsBehind l lines q0 t (saved, before, pending, c, o, n, b, e, q) =
      let gained : enqueue (parse loads l) t.queue ≡ (q0 ++ records loads (lines ++ l ∷ [])) =
        sym (on_line_queue loads every true l t) ∙ behind_queue (line_read l) lines q0 t q in
      elim (Bool-cases (leb every (t.unsaved + 1))) [
        | inl h ↦
            rw (h, on_line)
              (save-IsBehind (lines ++ l ∷ []) q0
                (record t {
                  offset = t.offset + length l;
                  unsaved = t.unsaved + 1;
                  queue = enqueue (parse loads l) t.queue;
                })
                gained)
        | inr h ↦
            rw (h, on_line)
              (
                saved,
                before,
                pending ++ l ∷ [],
                c,
                omega (arith, o, bytes-append pending (l ∷ [])),
                omega (arith, n, length-append pending (l ∷ [])),
                leb→lt every _ h,
                ap (λ x. x ++ l ∷ []) e ∙ append_assoc before pending (l ∷ []),
                gained,
              )
      ]

  round-IsBehind :
      (x : Round) (lines : List Line) (q0 : List Value) (t : Tail)
      → IsBehind loads every lines q0 t
      → IsBehind loads every (lines ++ lines_of x) q0 (round loads every true x t)
  unfolding round on_rotated on_caught_up
  round-IsBehind (line_read l) lines q0 t h = on_line-IsBehind l lines q0 t h
  round-IsBehind caught_up lines q0 t h =
      rw (append_nil lines) (save_if-IsBehind t.unsaved lines q0 t h)
  round-IsBehind (rotated_to ls i) lines q0 t (saved, before, pending, c, o, n, b, e, q) =
      save-IsBehind (lines ++ ls) q0
        (record (drain loads every true ls t) { inode = i; offset = 0 })
        (behind_queue (rotated_to ls i) lines q0 t q)

  rounds-IsBehind :
      (xs : List Round) (lines : List Line) (q0 : List Value) (t : Tail)
      → IsBehind loads every lines q0 t
      → IsBehind loads every (lines ++ all_lines xs) q0 (rounds loads every true xs t)
  unfolding rounds
  rounds-IsBehind [] lines q0 t h = rw (append_nil lines) h
  rounds-IsBehind (x ∷ xs) lines q0 t h =
      rw (sym (append_assoc lines (lines_of x) (all_lines xs)))
        (rounds-IsBehind xs (lines ++ lines_of x) q0 _ (round-IsBehind x lines q0 t h))

  save_if_place :
      (n : ℕ) (t : Tail)
      → ((save_if true n t).inode ≡ t.inode) × ((save_if true n t).offset ≡ t.offset)
  unfolding save_if
  save_if_place zero t = (refl, refl)
  save_if_place (suc n) t = (refl, refl)

  on_line_place :
      (l : Line) (t : Tail)
      → ((on_line loads every true l t).inode ≡ t.inode)
        × ((on_line loads every true l t).offset ≡ t.offset + length l)
  unfolding on_line
  on_line_place l t = elim (Bool-cases (leb every (t.unsaved + 1))) [
    | inl h ↦ rw (h, on_line) (refl, refl)
    | inr h ↦ rw (h, on_line) (refl, refl)
  ]

  rounds_place :
      (xs : List Round) (t : Tail)
      → ((rounds loads every true xs t).inode ≡ file_after xs t.inode)
        × ((rounds loads every true xs t).offset ≡ position xs t.offset)
  unfolding rounds round on_rotated on_caught_up
  rounds_place [] t = (refl, refl)
  rounds_place (line_read l ∷ xs) t =
      let (i, o) = rounds_place xs (on_line loads every true l t) in
      let (j, p) = on_line_place l t in (i ∙ ap (file_after xs) j, o ∙ ap (position xs) p)
  rounds_place (caught_up ∷ xs) t =
      let (i, o) = rounds_place xs (save_if true t.unsaved t) in
      let (j, p) = save_if_place t.unsaved t in (i ∙ ap (file_after xs) j, o ∙ ap (position xs) p)
  rounds_place (rotated_to ls new ∷ xs) t =
      rounds_place xs (save true (record (drain loads every true ls t) { inode = new; offset = 0 }))

  -- While the state file can be written, whatever the rounds are, with `every` at least 1, and if it was
  -- so of the lines read before: the queue has gained the records of all the lines read, in order; and a
  -- start on the file that is read at the end, if it is no shorter than what was read of it, goes on at an
  -- offset that splits these lines: the ones behind it are the last ones, fewer than `every`, and the bytes
  -- between that offset and how far the file was read are theirs.
  pub rounds-Resumes :
      (int_of : String → Option ℤ) (size : ℕ) (xs : List Round) (lines : List Line)
      (q0 : List Value) (t : Tail)
      → IsBehind loads every lines q0 t
      → position xs t.offset ≤ size
      → Resumes int_of size loads every
          (lines ++ all_lines xs)
          q0
          (file_after xs t.inode)
          (position xs t.offset)
          (rounds loads every true xs t)
  rounds-Resumes int_of size xs lines q0 t h le =
      let t' = rounds loads every true xs t in
      let (i, at) = rounds_place xs t in
      let (saved, before, pending, c, o, n, b, e, q) = rounds-IsBehind xs lines q0 t h in
      (
        saved,
        before,
        pending,
        ap (λ file. resume_position (load_checkpoint int_of file) (file_after xs t.inode) size) c
            ∙ ap
                (λ j.
                  resume_position
                    (load_checkpoint int_of (save_checkpoint true t'.inode saved none)) j size)
                (sym i)
            ∙ resume_saved int_of t'.inode saved size (omega arith),
        o ∙ at,
        omega arith,
        e,
        q,
      )
