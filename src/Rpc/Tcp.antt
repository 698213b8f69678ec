-- ===== src/Rpc/Tcp.antt =====
-- The service of ip6/apps/thrift/tcp_simple_arr_comp_server.c, whose arrays are in the messages. An
-- array is a list of bytes, two's complement; what the code reads behind the end of one is `none`.
pub mod Matrix
pub mod Words
use blue_bridge.Prelude.{
  ℕ, zero, suc, ◌+◌, ◌%◌, Option, none, some, List, [], ◌∷◌, take, leb, ◌==◌, if◌then◌else◌, Bool,
  ◌&&◌, ◌||◌, true, false, ◌>>=◌,
}

unfoldable pub increment_array : List ℕ → (value length : ℕ) → Option (List ℕ)
increment_array arr value zero = some []
increment_array [] value (suc n) = none
increment_array (b ∷ arr) value (suc n) = do
  rest ← increment_array arr value n
  some ((b + value) % 256 ∷ rest)

unfoldable pub add_arrays : List ℕ → List ℕ → (length : ℕ) → Option (List ℕ)
add_arrays xs ys zero = some []
add_arrays [] ys (suc n) = none
add_arrays (x ∷ xs) [] (suc n) = none
add_arrays (x ∷ xs) (y ∷ ys) (suc n) = do rest ← add_arrays xs ys n; some ((x + y) % 256 ∷ rest)

-- The loop of dot_prod_helper with the sum so far: it adds where a product should multiply.
unfoldable pub dot_prod : (res : ℕ) → List ℕ → List ℕ → (m : ℕ) → Option ℕ
dot_prod res xs ys zero = some res
dot_prod res [] ys (suc m) = none
dot_prod res (x ∷ xs) [] (suc m) = none
dot_prod res (x ∷ xs) (y ∷ ys) (suc m) = dot_prod ((res + x + y) % 256) xs ys m

unfoldable pub dot_prod_helper : List ℕ → List ℕ → (m : ℕ) → Option ℕ
unfolding dot_prod
dot_prod_helper = dot_prod 0

-- The rows of the result of mat_multiply.
unfoldable pub multiply_rows : List ℕ → List (List ℕ) → (n m : ℕ) → Option (List ℕ)
unfolding dot_prod_helper
multiply_rows array rows zero m = some []
multiply_rows array [] (suc n) m = none
multiply_rows array (row ∷ rows) (suc n) m = do
  value ← dot_prod_helper row array m
  rest ← multiply_rows array rows n m
  some (value ∷ rest)

-- What a call ends with: a result, or FALSE.
pub data Reply : Type 0 where
  success : List ℕ → Reply
  failure : Reply

unfoldable pub mat_multiply : List ℕ → List (List ℕ) → (length n m : ℕ) → Option Reply
unfolding multiply_rows
mat_multiply array matrix length n m =
    if length == m
    then (do result ← multiply_rows array matrix n m; some (success result))
    else some failure

-- isspace and isgraph of the C locale
abbrev pub is_space : ℕ → Bool
is_space c = c == 32 || (leb 9 c && leb c 13)

abbrev pub is_graph : ℕ → Bool
is_graph c = leb 33 c && leb c 126

-- The loop of word_count with the count and the last character so far.
unfoldable pub count_words : (wordcount prev : ℕ) → List ℕ → (length : ℕ) → Option ℕ
count_words wordcount prev story zero = some wordcount
count_words wordcount prev [] (suc n) = none
count_words wordcount prev (c ∷ story) (suc n) =
    count_words (if is_space c && is_graph prev then wordcount + 1 else wordcount) c story n

unfoldable pub word_count : List ℕ → (length : ℕ) → Option ℕ
unfolding count_words
word_count = count_words 0 32

unfoldable pub no_op : List ℕ → (length : ℕ) → Option (List ℕ)
no_op num_array zero = some []
no_op [] (suc n) = none
no_op (b ∷ num_array) (suc n) = do rest ← no_op num_array n; some (b ∷ rest)
