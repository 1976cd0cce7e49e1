-- ===== src/Area.antt =====
-- compiler/src/combat.cpp and combat.h: class MatrixArea and class AreaCombat, the tiles that a spell
-- reaches. Rows and columns are 32-bit words. The sines and cosines of the rotations are 0, 1 and -1,
-- up to an error that `round` takes away, and are written out as such. A cell index below 0 would be
-- out of bounds, and so would one beyond the matrix; that there is none is proved. `delete` is left
-- out.
pub mod Setup
pub mod Lookup
pub mod Loops
pub mod Turns
pub mod Reach
mod Tests
use tibia_server.Base.{
  ℕ, zero, suc, ◌+◌, ◌-◌, ◌*◌, ◌/◌, ◌%◌, max, Bool, true, false, not, ◌&&◌, ◌||◌, List, [], ◌∷◌,
  ◌++◌, Option, none, some, ltb, leb, ◌==◌, if◌then◌else◌, length, map,
}
use tibia_server.Base.Word.{u16_mod, u32_mod}
use tibia_server.Position.{
  Position, Direction, north, east, south, west, southwest, southeast, northwest, northeast,
  direction_none,
}

abbrev pub Cells : Type 0
Cells = ℕ → ℕ → Bool

-- `cells` is data_, by row and column.
pub record MatrixArea : Type 0 where
  pub rows : ℕ
  pub cols : ℕ
  pub center_y : ℕ
  pub center_x : ℕ
  pub cells : Cells

abbrev pub new_area : ℕ → ℕ → MatrixArea
new_area rows cols = record {
  rows = rows;
  cols = cols;
  center_y = 0;
  center_x = 0;
  cells = λ y x. false;
}

-- (*output)[row][col] = value
unfoldable pub set_cell : ℕ → ℕ → Bool → Cells → Cells
set_cell row col value cells y x = if y == row && x == col then value else cells y x

pub data MatrixOperation : Type 0 where
  copy mirror flip rotate_90 rotate_180 rotate_270 : MatrixOperation

-- `for (i = first; i < first + n; ++i)`
unfoldable pub loop {ℓ} : {A : Type ℓ} → ℕ → ℕ → (ℕ → A → A) → A → A
loop zero first body a = a
loop (suc n) first body a = loop n (suc first) body (body first a)

abbrev pub rotate_center : ℕ → ℕ
rotate_center n = n / 2 - 1

-- The row and the column of the output to which copyArea copies a cell of the input.
abbrev pub target_row : MatrixOperation → MatrixArea → MatrixArea → ℕ → ℕ → ℕ
target_row copy input output y x = y
target_row mirror input output y x = y
target_row flip input output y x = input.rows - 1 - y
target_row rotate_90 input output y x = rotate_center output.rows + x - input.center_x
target_row rotate_180 input output y x = rotate_center output.rows + input.center_y - y
target_row rotate_270 input output y x = rotate_center output.rows + input.center_x - x

abbrev pub target_col : MatrixOperation → MatrixArea → MatrixArea → ℕ → ℕ → ℕ
target_col copy input output y x = x
target_col mirror input output y x = input.cols - 1 - x
target_col flip input output y x = x
target_col rotate_90 input output y x = rotate_center output.cols + input.center_y - y
target_col rotate_180 input output y x = rotate_center output.cols + input.center_x - x
target_col rotate_270 input output y x = rotate_center output.cols + y - input.center_y

abbrev pub copy_cell : MatrixOperation → MatrixArea → MatrixArea → ℕ → ℕ → Cells → Cells
copy_cell op input output y x =
    set_cell (target_row op input output y x) (target_col op input output y x) (input.cells y x)

-- copy and mirror go by rows, flip and the rotations by columns. mirror and flip visit the cells of
-- a row or a column from its end on.
unfoldable pub copied_cells : MatrixOperation → MatrixArea → MatrixArea → Cells
unfolding loop set_cell
copied_cells copy i o = loop i.rows 0 (λ y. loop i.cols 0 (λ x. copy_cell copy i o y x)) o.cells
copied_cells mirror i o =
    loop i.rows 0 (λ y. loop i.cols 0 (λ k. copy_cell mirror i o y (i.cols - 1 - k))) o.cells
copied_cells flip i o =
    loop i.cols 0 (λ x. loop i.rows 0 (λ k. copy_cell flip i o (i.rows - 1 - k) x)) o.cells
copied_cells op i o = loop i.cols 0 (λ x. loop i.rows 0 (λ y. copy_cell op i o y x)) o.cells

-- `(getRows() - 1) - centerX` on 32-bit words.
abbrev pub word_mirror : ℕ → ℕ → ℕ
word_mirror n c = (n + (2 * u32_mod - 1) - c) % u32_mod

abbrev pub copied_center_y : MatrixOperation → MatrixArea → MatrixArea → ℕ
copied_center_y copy i o = i.center_y
copied_center_y mirror i o = i.center_y
copied_center_y flip i o = word_mirror i.cols i.center_y
copied_center_y _ i o = rotate_center o.rows

abbrev pub copied_center_x : MatrixOperation → MatrixArea → MatrixArea → ℕ
copied_center_x copy i o = i.center_x
copied_center_x mirror i o = word_mirror i.rows i.center_x
copied_center_x flip i o = i.center_x
copied_center_x _ i o = rotate_center o.cols

-- copyArea: the output after the call.
unfoldable pub copy_area : MatrixOperation → MatrixArea → MatrixArea → MatrixArea
unfolding copied_cells
copy_area op i o = record o {
  cells = copied_cells op i o;
  center_y = copied_center_y op i o;
  center_x = copied_center_x op i o;
}

-- The square matrix that a copy is made in.
abbrev pub output_for : MatrixArea → MatrixArea
output_for area = new_area (max area.cols area.rows * 2) (max area.cols area.rows * 2)

pub record AreaCombat : Type 0 where
  pub areas : Direction → Option MatrixArea
  pub has_ext_area : Bool
