-- ===== src/DataBuf.antt =====
-- The buffer of blocks before they are written, `DataBuf` of core/src/layers/5-disk/data_buf.rs. A
-- block is a value of any type. The map from keys to blocks is a `BTreeMap`, here the list of its
-- entries in ascending order of their keys.
pub mod Kept
mod Tests
use mlsdisk.Base.{
  Bool, List, Option, [], false, if◌then◌else◌, leb, length, lookup, ltb, none, some, true, ℕ, ◌&&◌,
  ◌==◌, ◌∷◌,
}

pub record DataBuf (V : Type 0) : Type 0 where
  pub buf : List (ℕ × V)
  pub cap : ℕ
  pub is_full : Bool

module _ {V : Type 0} where
  -- `BTreeMap::insert`, and the entries with a key from `first` to `last`.
  abbrev pub insert_ordered : ℕ → V → List (ℕ × V) → List (ℕ × V)
  insert_ordered k v [] = (k, v) ∷ []
  insert_ordered k v ((j, w) ∷ m) =
      let rest = insert_ordered k v m in
      if j == k then (k, v) ∷ m else if ltb k j then (k, v) ∷ ((j, w) ∷ m) else (j, w) ∷ rest

  abbrev pub within : ℕ → ℕ → List (ℕ × V) → List (ℕ × V)
  within first last [] = []
  within first last ((j, w) ∷ m) =
      let rest = within first last m in if leb first j && leb j last then (j, w) ∷ rest else rest

  -- `DataBuf::new`
  unfoldable pub new_data_buf : ℕ → DataBuf V
  new_data_buf cap = record { buf = []; cap = cap; is_full = false }

  -- `DataBuf::get`
  unfoldable pub get_block : DataBuf V → ℕ → Option V
  get_block d key = lookup key d.buf

  -- `DataBuf::get_range`
  unfoldable pub get_block_range : DataBuf V → ℕ → ℕ → List (ℕ × V)
  get_block_range d first last = within first last d.buf

  -- `DataBuf::nblocks`
  unfoldable pub buffered_nblocks : DataBuf V → ℕ
  buffered_nblocks d = length d.buf

  -- `DataBuf::at_capacity`
  unfoldable pub is_at_capacity : DataBuf V → Bool
  is_at_capacity d = leb d.cap (buffered_nblocks d)

  -- `DataBuf::is_empty`
  unfoldable pub has_no_blocks : DataBuf V → Bool
  has_no_blocks d = buffered_nblocks d == 0

  -- `DataBuf::put`: `none` if the caller has to wait until the buffer is not full any more;
  -- otherwise whether it is full now, and the buffer.
  unfoldable pub put_block : DataBuf V → ℕ → V → Option (Bool × DataBuf V)
  put_block d key block =
      let buf = insert_ordered key block d.buf in
      let is_full = if leb d.cap (length buf) then true else d.is_full in
      if d.is_full then none else some (is_full, record d { buf = buf; is_full = is_full })

  -- `DataBuf::clear`
  unfoldable pub clear_blocks : DataBuf V → DataBuf V
  clear_blocks d = record d { buf = []; is_full = if d.is_full then false else d.is_full }

  -- `DataBuf::all_blocks`
  unfoldable pub all_blocks : DataBuf V → List (ℕ × V)
  all_blocks d = d.buf
