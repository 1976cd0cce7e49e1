-- ===== src/Area/Turns.antt =====
-- copyArea: where the cells of an area come to stand, and its centre.
use tibia_server.Base.{ℕ, ◌-◌, ◌<◌, ◌≡◌, ◌↔◌, refl, ap, arith}
use tibia_server.Base.Word.{u32_mod}
use tibia_server.Area.{
  MatrixArea, MatrixOperation, copy, mirror, flip, rotate_90, rotate_180, rotate_270, copy_area,
  copied_cells, copy_cell, target_row, target_col, output_for,
}
use tibia_server.Area.Loops.{nest_hit, set_cell_at, set_cell_other}

-- The centre is a cell of the area.
pub record IsCentered (area : MatrixArea) : Type 0 where
  pub center_y_lt : area.center_y < area.rows
  pub center_x_lt : area.center_x < area.cols

copied_cells-target :
    (op : MatrixOperation) (i : MatrixArea) (y x : ℕ)
    → IsCentered i
    → y < i.rows
    → x < i.cols
    → copied_cells op i
        (output_for i)
        (target_row op i (output_for i) y x)
        (target_col op i (output_for i) y x)
      ≡ i.cells y x
unfolding copied_cells
copied_cells-target copy i y x c hy hx =
    nest_hit i.rows i.cols (λ j k. copy_cell copy i (output_for i) j k) (output_for i).cells y x y x
      (i.cells y x) hy hx
      (λ b.
        set_cell_at (target_row copy i (output_for i) y x) (target_col copy i (output_for i) y x)
          (target_row copy i (output_for i) y x) (target_col copy i (output_for i) y x)
          (i.cells y x) (i.cells y x) b refl refl refl)
      (λ j k b hj hk ne. set_cell_other j k y x (i.cells j k) b ne)
copied_cells-target mirror i y x c hy hx =
    nest_hit i.rows i.cols (λ j k. copy_cell mirror i (output_for i) j (i.cols - 1 - k))
      (output_for i).cells y (i.cols - 1 - x) y (i.cols - 1 - x) (i.cells y x) hy (omega arith)
      (λ b.
        set_cell_at y (i.cols - 1 - (i.cols - 1 - (i.cols - 1 - x))) y (i.cols - 1 - x)
          (i.cells y (i.cols - 1 - (i.cols - 1 - x))) (i.cells y x) b refl (omega arith)
          (ap (i.cells y) (omega arith)))
      (λ j k b hj hk ne.
        set_cell_other j (i.cols - 1 - (i.cols - 1 - k)) y (i.cols - 1 - x)
          (i.cells j (i.cols - 1 - k)) b (λ p q. ne p (omega arith)))
copied_cells-target flip i y x c hy hx =
    nest_hit i.cols i.rows (λ j k. copy_cell flip i (output_for i) (i.rows - 1 - k) j)
      (output_for i).cells x (i.rows - 1 - y) (i.rows - 1 - y) x (i.cells y x) hx (omega arith)
      (λ b.
        set_cell_at (i.rows - 1 - (i.rows - 1 - (i.rows - 1 - y))) x (i.rows - 1 - y) x
          (i.cells (i.rows - 1 - (i.rows - 1 - y)) x) (i.cells y x) b (omega arith) refl
          (ap (λ r. i.cells r x) (omega arith)))
      (λ j k b hj hk ne.
        set_cell_other (i.rows - 1 - (i.rows - 1 - k)) j (i.rows - 1 - y) x
          (i.cells (i.rows - 1 - k) j) b (λ p q. ne q (omega arith)))
copied_cells-target rotate_90 i y x c hy hx =
    nest_hit i.cols i.rows (λ j k. copy_cell rotate_90 i (output_for i) k j) (output_for i).cells x
      y (target_row rotate_90 i (output_for i) y x) (target_col rotate_90 i (output_for i) y x)
      (i.cells y x) hx hy
      (λ b.
        set_cell_at (target_row rotate_90 i (output_for i) y x)
          (target_col rotate_90 i (output_for i) y x) (target_row rotate_90 i (output_for i) y x)
          (target_col rotate_90 i (output_for i) y x) (i.cells y x) (i.cells y x) b refl refl refl)
      (λ j k b hj hk ne.
        set_cell_other (target_row rotate_90 i (output_for i) k j)
          (target_col rotate_90 i (output_for i) k j) (target_row rotate_90 i (output_for i) y x)
          (target_col rotate_90 i (output_for i) y x) (i.cells k j) b
          (λ p q. ne (omega arith) (omega arith)))
copied_cells-target rotate_180 i y x c hy hx =
    nest_hit i.cols i.rows (λ j k. copy_cell rotate_180 i (output_for i) k j) (output_for i).cells x
      y (target_row rotate_180 i (output_for i) y x) (target_col rotate_180 i (output_for i) y x)
      (i.cells y x) hx hy
      (λ b.
        set_cell_at (target_row rotate_180 i (output_for i) y x)
          (target_col rotate_180 i (output_for i) y x) (target_row rotate_180 i (output_for i) y x)
          (target_col rotate_180 i (output_for i) y x) (i.cells y x) (i.cells y x) b refl refl refl)
      (λ j k b hj hk ne.
        set_cell_other (target_row rotate_180 i (output_for i) k j)
          (target_col rotate_180 i (output_for i) k j) (target_row rotate_180 i (output_for i) y x)
          (target_col rotate_180 i (output_for i) y x) (i.cells k j) b
          (λ p q. ne (omega arith) (omega arith)))
copied_cells-target rotate_270 i y x c hy hx =
    nest_hit i.cols i.rows (λ j k. copy_cell rotate_270 i (output_for i) k j) (output_for i).cells x
      y (target_row rotate_270 i (output_for i) y x) (target_col rotate_270 i (output_for i) y x)
      (i.cells y x) hx hy
      (λ b.
        set_cell_at (target_row rotate_270 i (output_for i) y x)
          (target_col rotate_270 i (output_for i) y x) (target_row rotate_270 i (output_for i) y x)
          (target_col rotate_270 i (output_for i) y x) (i.cells y x) (i.cells y x) b refl refl refl)
      (λ j k b hj hk ne.
        set_cell_other (target_row rotate_270 i (output_for i) k j)
          (target_col rotate_270 i (output_for i) k j) (target_row rotate_270 i (output_for i) y x)
          (target_col rotate_270 i (output_for i) y x) (i.cells k j) b
          (λ p q. ne (omega arith) (omega arith)))

-- What copyArea does to one cell: it comes to stand inside the output, at a row and a column of its
-- own, with its value.
pub record IsCopied (op : MatrixOperation) (i : MatrixArea) (y x : ℕ) : Type 0 where
  pub row_lt : target_row op i (output_for i) y x < (output_for i).rows
  pub col_lt : target_col op i (output_for i) y x < (output_for i).cols
  pub value :
      (copy_area op i (output_for i)).cells
        (target_row op i (output_for i) y x)
        (target_col op i (output_for i) y x)
      ≡ i.cells y x

row_bound :
    (op : MatrixOperation) (i : MatrixArea) (y x : ℕ)
    → IsCentered i
    → y < i.rows
    → x < i.cols
    → (target_row op i (output_for i) y x < (output_for i).rows)
      × (target_col op i (output_for i) y x < (output_for i).cols)
row_bound copy i y x c hy hx = (omega arith, omega arith)
row_bound op i y x c hy hx = (omega arith, omega arith)

-- Every operation of copyArea copies every cell of an area whose centre is one of its cells to the
-- square output, inside its bounds.
pub copy_area-IsCopied :
    (op : MatrixOperation) (i : MatrixArea) (y x : ℕ)
    → IsCentered i
    → y < i.rows
    → x < i.cols
    → IsCopied op i y x
unfolding copy_area
copy_area-IsCopied op i y x c hy hx =
    let (row, col) = row_bound op i y x c hy hx in
    record { row_lt = row; col_lt = col; value = copied_cells-target op i y x c hy hx }

-- The cell of the centre comes to stand at the centre of the output.
abbrev pub KeepsCenter : MatrixOperation → MatrixArea → Type 0
KeepsCenter op i =
    ((copy_area op i (output_for i)).center_y
      ≡ target_row op i (output_for i) i.center_y i.center_x)
    × ((copy_area op i (output_for i)).center_x
        ≡ target_col op i (output_for i) i.center_y i.center_x)

-- mirror and flip take the number of rows for that of columns, and the other way round.
abbrev pub SuitsCenter : MatrixOperation → MatrixArea → Type 0
SuitsCenter mirror i = i.rows ≡ i.cols
SuitsCenter flip i = i.rows ≡ i.cols
SuitsCenter op i = Unit

-- The operations keep the centre of an area that it is a cell of, mirror and flip exactly where the
-- area is square, the others always.
pub copy_area-KeepsCenter :
    (op : MatrixOperation) (i : MatrixArea)
    → IsCentered i
    → i.rows < u32_mod
    → i.cols < u32_mod
    → KeepsCenter op i ↔ SuitsCenter op i
unfolding copy_area
copy_area-KeepsCenter copy i c hr hc = ((λ k. tt), λ k. (refl, refl))
copy_area-KeepsCenter mirror i c hr hc = ((λ k. omega (arith, k.1)), λ k. (refl, omega (arith, k)))
copy_area-KeepsCenter flip i c hr hc = ((λ k. omega (arith, k.0)), λ k. (omega (arith, k), refl))
copy_area-KeepsCenter rotate_90 i c hr hc = ((λ k. tt), λ k. (omega arith, omega arith))
copy_area-KeepsCenter rotate_180 i c hr hc = ((λ k. tt), λ k. (omega arith, omega arith))
copy_area-KeepsCenter rotate_270 i c hr hc = ((λ k. tt), λ k. (omega arith, omega arith))
