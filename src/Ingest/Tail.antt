-- ===== src/Ingest/Tail.antt =====
-- `_tail_once` of pipeline/ingestor.py. What the file and the clock do is the environment's: it chooses
-- the rounds of the loop, and the tail answers each.
pub mod Window
pub mod Resumed
use mathlib.Core.List.{reverse}
use getarp.Base.{
  ℕ, zero, suc, ◌+◌, Bool, true, false, ◌&&◌, ◌||◌, Option, none, some, List, [], ◌∷◌, ◌++◌, leb,
  eqb, length, if◌then◌else◌,
}
use getarp.Json.{Value, null, bool, int, float, str, arr, obj}
use getarp.Ingest.Checkpoint.{save_checkpoint}

-- a line as `readline` returns it: its bytes, newline included
abbrev pub Line : Type 0
Line = List ℕ

abbrev is_blank : ℕ → Bool
is_blank b = (leb 9 b && leb b 13) || eqb b 32

drop_blank : Line → Line
drop_blank [] = []
drop_blank (b ∷ line) = let rest = drop_blank line in if is_blank b then rest else b ∷ line

-- `raw.strip()`, of bytes
unfoldable strip_bytes : Line → Line
unfolding drop_blank
strip_bytes line = reverse (drop_blank (reverse (drop_blank line)))

abbrev loads_line : (Line → Option Value) → Line → Option Value
loads_line loads [] = none
loads_line loads line = loads line

-- `_parse`; `loads` is `json.loads`, `none` where it raises
unfoldable pub parse : (Line → Option Value) → Line → Option Value
unfolding strip_bytes
parse loads line = loads_line loads (strip_bytes line)

pub record Tail : Type 0 where
  pub inode : ℕ
  -- `fh.tell()`
  pub offset : ℕ
  -- the lines read since the last checkpoint
  pub unsaved : ℕ
  -- the state file
  pub checkpoint : Option Value
  -- what was put on the queue, oldest first
  pub queue : List Value

-- one round of the loop: a line, the end of the file, or another file under the path
pub data Round : Type 0 where
  line_read : Line → Round
  caught_up : Round
  rotated_to : List Line → ℕ → Round

abbrev pub enqueue : Option Value → List Value → List Value
enqueue none queue = queue
enqueue (some null) queue = queue
enqueue (some r) queue = queue ++ r ∷ []

abbrev pub save : Bool → Tail → Tail
save writable t = record t {
  checkpoint = save_checkpoint writable t.inode t.offset t.checkpoint;
  unsaved = 0;
}

-- `if unsaved:`
unfoldable pub save_if : Bool → ℕ → Tail → Tail
save_if writable zero t = t
save_if writable (suc n) t = save writable t

module _ (loads : Line → Option Value) (every : ℕ) (writable : Bool) where
  -- a line was read
  unfoldable pub on_line : Line → Tail → Tail
  on_line line t =
      let t' : Tail = record t {
        offset = t.offset + length line;
        unsaved = t.unsaved + 1;
        queue = enqueue (parse loads line) t.queue;
      } in
      if leb every (t.unsaved + 1) then save writable t' else t'

  -- the end of the file was reached
  unfoldable pub on_caught_up : Tail → Tail
  unfolding save_if
  on_caught_up t = save_if writable t.unsaved t

  -- the lines that the rotated file still had
  unfoldable pub drain : List Line → Tail → Tail
  drain [] t = t
  drain (line ∷ lines) t =
      drain lines
        (record t { offset = t.offset + length line; queue = enqueue (parse loads line) t.queue })

  -- the path names another file: drain the old one, and begin with the new one at its start
  unfoldable pub on_rotated : List Line → ℕ → Tail → Tail
  on_rotated lines inode t = save writable (record (drain lines t) { inode = inode; offset = 0 })

  unfoldable pub round : Round → Tail → Tail
  round (line_read line) t = on_line line t
  round caught_up t = on_caught_up t
  round (rotated_to lines inode) t = on_rotated lines inode t

  unfoldable pub rounds : List Round → Tail → Tail
  rounds [] t = t
  rounds (x ∷ xs) t = rounds xs (round x t)
