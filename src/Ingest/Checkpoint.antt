-- ===== src/Ingest/Checkpoint.antt =====
-- The read checkpoints of pipeline/ingestor.py: `_load_checkpoint`, `_save_checkpoint` and
-- `_resume_position`. The state file holds one JSON value, and is missing at the first start.
use getarp.Base.Int.{ℤ, pos, negsuc}
use getarp.Base.Exec.{Result, ok, raise}
use getarp.Base.{
  ℕ, String, Bool, true, false, Option, none, some, ◌≡◌, refl, ltb, eqb, if◌then◌else◌,
}
use getarp.Json.{Value, bool, int, float, str, obj, end, field, find}
use getarp.Retry.{Ex, plain, value_error}

pub record Checkpoint : Type 0 where
  pub inode : ℤ
  pub offset : ℤ

-- `int(v)`; of a text it is left to the runtime
abbrev to_int : (String → Option ℤ) → Value → Option ℤ
to_int int_of (int n) = some n
to_int int_of (bool true) = some (pos 1)
to_int int_of (bool false) = some (pos 0)
to_int int_of (float n s) = n
to_int int_of (str s) = int_of s
to_int int_of v = none

abbrev read_int : (String → Option ℤ) → Option Value → Option ℤ
read_int int_of none = none
read_int int_of (some v) = to_int int_of v

-- `_load_checkpoint`: whatever is wrong with the file, there is no checkpoint
unfoldable pub load_checkpoint : (String → Option ℤ) → Option Value → Option Checkpoint
load_checkpoint int_of (some (obj fs)) = elim (read_int int_of (find fs "inode")) [
  | none ↦ none
  | some i ↦ elim (read_int int_of (find fs "offset")) [
    | none ↦ none
    | some o ↦ some (record { inode = i; offset = o })
  ]
]
load_checkpoint int_of file = none

-- `_save_checkpoint`: the state file is replaced whole, or a failing write leaves it as it was
unfoldable pub save_checkpoint : Bool → ℕ → ℕ → Option Value → Option Value
save_checkpoint writable inode offset file =
    if writable
    then some (obj (field "inode" (int (pos inode)) (field "offset" (int (pos offset)) end)))
    else file

-- what `_resume_position` prints
pub data Notice : Type 0 where
  no_checkpoint rotated truncated catching_up resuming : Notice

abbrev same_inode : ℤ → ℕ → Bool
same_inode (pos n) i = eqb n i
same_inode (negsuc n) i = false

abbrev at_offset : ℤ → ℕ → Result Ex (ℕ × Notice)
at_offset (negsuc n) size = raise (plain value_error "negative seek value")
at_offset (pos n) size =
    if ltb size n then ok (0, truncated) else ok (n, if ltb n size then catching_up else resuming)

-- `_resume_position`: where the file is read from; a negative `seek` raises
unfoldable pub resume_position : Option Checkpoint → ℕ → ℕ → Result Ex (ℕ × Notice)
resume_position none inode size = ok (size, no_checkpoint)
resume_position (some c) inode size =
    if same_inode c.inode inode then at_offset c.offset size else ok (0, rotated)

-- where the next start reads from, once a checkpoint could be written
pub resume-save :
    (int_of : String → Option ℤ) (inode offset inode' size : ℕ) (file : Option Value)
    → resume_position (load_checkpoint int_of (save_checkpoint true inode offset file)) inode' size
      ≡ (if eqb inode inode'
          then (if ltb size offset
              then ok (0, truncated)
              else ok (offset, if ltb offset size then catching_up else resuming))
          else ok (0, rotated))
unfolding resume_position load_checkpoint save_checkpoint find
resume-save int_of inode offset inode' size file = refl
