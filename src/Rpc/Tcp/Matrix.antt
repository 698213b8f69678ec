-- ===== src/Rpc/Tcp/Matrix.antt =====
-- mat_multiply of ip6/apps/thrift/tcp_simple_arr_comp_server.c: what its rows come to.
use blue_bridge.Prelude.{
  ℕ, zero, suc, ◌+◌, ◌%◌, ◌≡◌, refl, ap, ◌∙◌, List, [], ◌∷◌, length, map, arith, some, ◌==◌,
  if◌then◌else◌, Bool-cases, inl, inr, eq_of_==,
}
use blue_bridge.Server.Requests.{All}
use blue_bridge.Rpc.Tcp.{dot_prod, dot_prod_helper, multiply_rows, mat_multiply, success, failure}

abbrev pub sum : List ℕ → ℕ
sum [] = 0
sum (x ∷ xs) = x + sum xs

dot_prod-sum :
    (res : ℕ) (xs ys : List ℕ) (m : ℕ)
    → length xs ≡ m
    → length ys ≡ m
    → dot_prod (res % 256) xs ys m ≡ some ((res + sum xs + sum ys) % 256)
unfolding dot_prod
dot_prod-sum res [] [] zero e f = ap (λ k. some (k % 256)) {x = res} (omega arith)
dot_prod-sum res [] ys (suc m) e f = absurd (omega arith)
dot_prod-sum res (x ∷ xs) ys zero e f = absurd (omega arith)
dot_prod-sum res [] (y ∷ ys) zero e f = absurd (omega arith)
dot_prod-sum res (x ∷ xs) [] (suc m) e f = absurd (omega arith)
dot_prod-sum res (x ∷ xs) (y ∷ ys) (suc m) e f =
    ap (λ k. dot_prod k xs ys m) {y = (res + x + y) % 256} (omega arith)
    ∙ dot_prod-sum (res + x + y) xs ys m (omega arith) (omega arith)
    ∙ ap (λ k. some (k % 256)) (omega arith)

multiply_rows-sums :
    (array : List ℕ) (rows : List (List ℕ)) (m : ℕ)
    → length array ≡ m
    → All (λ row. length row ≡ m) rows
    → multiply_rows array rows (length rows) m
      ≡ some (map (λ row. (sum row + sum array) % 256) rows)
unfolding multiply_rows dot_prod_helper
multiply_rows-sums array [] m e h = refl
multiply_rows-sums array (row ∷ rows) m e h = rw (dot_prod-sum 0 row array m (h.0) e) (
    rw (multiply_rows-sums array rows m e (h.1))
      (ap (λ k. some (k % 256 ∷ map (λ row. (sum row + sum array) % 256) rows)) (omega arith)))

-- A call whose vector has as many elements as the matrix has columns, and whose matrix has all of
-- its rows, ends with the sums of each row's and the vector's elements, in bytes. Any other length
-- of the vector is answered with a failure.
pub mat_multiply_lem :
    (array : List ℕ) (rows : List (List ℕ)) (n m : ℕ)
    → length array ≡ n
    → All (λ row. length row ≡ m) rows
    → mat_multiply array rows n (length rows) m
      ≡ some (if n == m then success (map (λ row. (sum row + sum array) % 256) rows) else failure)
unfolding mat_multiply
mat_multiply_lem array rows n m e h = elim (Bool-cases (n == m)) [
  | inl same ↦ rw same (rw (multiply_rows-sums array rows m (e ∙ eq_of_== n m same) h) refl)
  | inr other ↦ rw other refl
]
