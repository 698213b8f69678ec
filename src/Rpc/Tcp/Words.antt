-- ===== src/Rpc/Tcp/Words.antt =====
-- word_count of ip6/apps/thrift/tcp_simple_arr_comp_server.c on texts of words.
use mathlib.Core.List.{append_assoc}
use blue_bridge.Prelude.{
  ℕ, suc, ◌+◌, ◌≡◌, ◌≢◌, refl, ap, ◌∙◌, List, [], ◌∷◌, ◌++◌, length, arith, Option, some, true,
  false, length-append,
}
use blue_bridge.Server.Requests.{All}
use blue_bridge.Rpc.Tcp.{is_space, is_graph, count_words, word_count}

-- The words, each with a blank behind it.
abbrev pub spaced : List (List ℕ) → List ℕ
spaced [] = []
spaced (w ∷ ws) = w ++ 32 ∷ spaced ws

abbrev pub AreGraphs : List ℕ → Type 0
AreGraphs = All (λ c. is_graph c ≡ true)

-- A first character that can be seen, and more of them.
abbrev pub IsWord : List ℕ → Type 0
IsWord w = (w ≢ []) × AreGraphs w

graph_no_space : (c : ℕ) → is_graph c ≡ true → is_space c ≡ false
graph_no_space c h = ground arith

-- What is left to count behind a word.
record Behind (count n : ℕ) (rest : List ℕ) (result : Option ℕ) : Type 0 where
  prev : ℕ
  visible : is_graph prev ≡ true
  continues : result ≡ count_words count prev rest n

count_words-char :
    (count prev c n : ℕ) (rest : List ℕ)
    → is_graph c ≡ true
    → count_words count prev (c ∷ rest) (suc n) ≡ count_words count c rest n
unfolding count_words
count_words-char count prev c n rest h = rw (graph_no_space c h) refl

count_words-word :
    (w : List ℕ) (count prev c n : ℕ) (rest : List ℕ)
    → is_graph c ≡ true
    → AreGraphs w
    → Behind count n rest (count_words count prev (c ∷ (w ++ rest)) (suc (length w + n)))
count_words-word [] count prev c n rest h hs = record {
  prev = c;
  visible = h;
  continues =
      count_words-char count prev c (0 + n) rest h ∙ ap (count_words count c rest) (omega arith);
}
count_words-word (d ∷ w) count prev c n rest h hs =
    let more = count_words-word w count c d n rest (hs.0) (hs.1) in
    record {
      prev = more.prev;
      visible = more.visible;
      continues =
          count_words-char count prev c (suc (length w) + n) (d ∷ (w ++ rest)) h
          ∙ ap (count_words count c (d ∷ (w ++ rest))) (omega arith)
          ∙ more.continues;
    }

-- A blank behind a character that can be seen ends a word.
count_words-blank :
    (count prev n : ℕ) (rest : List ℕ)
    → is_graph prev ≡ true
    → count_words count prev (32 ∷ rest) (suc n) ≡ count_words (count + 1) 32 rest n
unfolding count_words
count_words-blank count prev n rest h = rw h refl

count_words-last :
    (last : List ℕ) (count prev : ℕ)
    → AreGraphs last
    → count_words count prev last (length last) ≡ some count
unfolding count_words
count_words-last [] count prev h = refl
count_words-last (c ∷ last) count prev h =
    count_words-char count prev c (length last) last (h.0) ∙ count_words-last last count c (h.1)

counted :
    (ws : List (List ℕ)) (last : List ℕ) (count prev n : ℕ)
    → All IsWord ws
    → AreGraphs last
    → n ≡ length (spaced ws ++ last)
    → count_words count prev (spaced ws ++ last) n ≡ some (count + length ws)
counted [] last count prev n h k e =
    ap (count_words count prev last) e
    ∙ count_words-last last count prev k
    ∙ ap (λ x. some x) (omega arith)
counted ([] ∷ ws) last count prev n h k e = absurd (h.0.0 refl)
counted ((c ∷ w) ∷ ws) last count prev n h k e =
    let rest = spaced ws ++ last in
    let word =
      count_words-word w count prev c (suc (length rest)) (32 ∷ rest) (h.0.1.0) (h.0.1.1) in
    ap (λ xs. count_words count prev (c ∷ xs) n) (append_assoc w (32 ∷ spaced ws) last)
    ∙ ap (count_words count prev (c ∷ (w ++ 32 ∷ rest))) (
        omega
          (arith, e, ap length (append_assoc w (32 ∷ spaced ws) last), length-append w (32 ∷ rest)))
    ∙ word.continues
    ∙ count_words-blank count word.prev (length rest) rest word.visible
    ∙ counted ws last (count + 1) 32 (length rest) (h.1) k refl
    ∙ ap (λ x. some x) (omega arith)

-- Of a text of words with a blank behind each, and of characters that can be seen behind the last
-- blank, word_count counts the words that have a blank behind them, and so not the one at the end.
pub word_count_lem :
    (ws : List (List ℕ)) (last : List ℕ)
    → All IsWord ws
    → AreGraphs last
    → word_count (spaced ws ++ last) (length (spaced ws ++ last)) ≡ some (length ws)
unfolding word_count
word_count_lem ws last h k =
    counted ws last 0 32 (length (spaced ws ++ last)) h k refl ∙ ap (λ x. some x) (omega arith)
