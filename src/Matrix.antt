-- ===== src/Matrix.antt =====
-- crates/example/src/matrix.rs: square matrices of 64-bit numbers, with overflow checks on.
use rust_root_task_demo.Common.{
  read, panic, ret, Outcome, ltb, [], List, suc, zero, ◌>>=◌, if◌then◌else◌, ◌∷◌, ◌^◌, ◌*◌, ◌+◌, ℕ,
}
use rust_root_task_demo.ImageUtils.{add_checked}

abbrev pub Matrix : Type 0
Matrix = List (List ℕ)

-- A row of `init_matrix` from column `j` on, with `left` columns to go, and the rows
unfoldable pub init_row : ℕ → ℕ → ℕ → ℕ → List ℕ
init_row n i zero j = []
init_row n i (suc left) j = (i * n + j + 1) ∷ init_row n i left (j + 1)

unfoldable pub init_rows : ℕ → ℕ → ℕ → Matrix
init_rows n zero i = []
init_rows n (suc left) i = init_row n i n 0 ∷ init_rows n left (i + 1)

unfoldable pub init_matrix : ℕ → Matrix
init_matrix n = init_rows n n 0

-- `a * b`
abbrev pub mul_checked : ℕ → ℕ → Outcome ℕ
mul_checked a b = if ltb (a * b) (2 ^ 64) then ret (a * b) else panic

-- `matrix[i][j]`
unfoldable pub cell : Matrix → ℕ → ℕ → Outcome ℕ
cell matrix i j = do row ← read matrix i; read row j

module _ (matrix1 matrix2 : Matrix) where
  -- The loop over `k`, with `left` terms to go, and the sum so far
  unfoldable pub sum_products : ℕ → ℕ → ℕ → ℕ → ℕ → Outcome ℕ
  sum_products i j zero k sum = ret sum
  sum_products i j (suc left) k sum = do
    x ← cell matrix1 i k
    y ← cell matrix2 k j
    product ← mul_checked x y
    sum' ← add_checked sum product
    sum_products i j left (k + 1) sum'

  -- The loops over `j` and over `i`
  unfoldable pub multiply_row : ℕ → ℕ → ℕ → ℕ → Outcome (List ℕ)
  multiply_row n i zero j = ret []
  multiply_row n i (suc left) j = do
    entry ← sum_products i j n 0 0
    row ← multiply_row n i left (j + 1)
    ret (entry ∷ row)

  unfoldable pub multiply_rows : ℕ → ℕ → ℕ → Outcome Matrix
  multiply_rows n zero i = ret []
  multiply_rows n (suc left) i = do
    row ← multiply_row n i n 0
    rows ← multiply_rows n left (i + 1)
    ret (row ∷ rows)

unfoldable pub matrix_multiply : ℕ → Matrix → Matrix → Outcome Matrix
matrix_multiply n matrix1 matrix2 = multiply_rows matrix1 matrix2 n n 0

unfoldable pub matrix_test : ℕ → Outcome Matrix
matrix_test n = do
  a₁ ← matrix_multiply n (init_matrix n) (init_matrix n)
  a₂ ← matrix_multiply n a₁ a₁
  a₃ ← matrix_multiply n a₂ a₂
  matrix_multiply n a₃ a₃
