-- ===== src/Tests/Samples.antt =====
-- Sampling with natural numbers for floats.
use tinyllama_c.Prelude.{ℕ, ◌+◌, ◌-◌, ◌*◌, ◌/◌, ◌≡◌, refl, [], ◌∷◌, ltb, leb, ◌==◌, arith}
use tinyllama_c.Sampler.{
  Float, SampleParam, sample_token, sample_greedy, best_from, select_top, select_from, select_step,
  sift_up, sift_down, least_child, swap, xorshift,
}
use tinyllama_c.Sampler.Token.{sample_token-Sampled, Sampled}
use tinyllama_c.Sampler.Greedy.{Ordered, IsFirst, sample_greedy-IsFirst}

abbrev whole : Float ℕ
whole = record {
  lt = ltb;
  le = leb;
  same = λ a b. a == b;
  plus = λ a b. a + b;
  minus = λ a b. a - b;
  times = λ a b. a * b;
  over = λ a b. a / b;
  expf = λ a. a;
  of_nat = λ n. n;
  default_eps = 0;
}

abbrev top_two : SampleParam ℕ
top_two = record {
  temperature = 1;
  top_k = 2;
  top_p = 1;
  min_p = 0;
  repeat_penalty = 2;
  repeat_last_n = 3;
  frequency_penalty = 0;
  presence_penalty = 0;
}

sample_token-Sampled_example :
    Sampled 4 (sample_token whole (λ a. a) top_two 7 1 (5 ∷ 9 ∷ 9 ∷ 2 ∷ []) (1 ∷ 3 ∷ []))
sample_token-Sampled_example =
    sample_token-Sampled whole (λ a. a) (λ t a. refl) top_two 7 1 (5 ∷ 9 ∷ 9 ∷ 2 ∷ []) (1 ∷ 3 ∷ [])
      (omega arith)

whole-Ordered : Ordered whole
whole-Ordered = record {
  irreflexive = λ a. ground arith;
  transitive = λ a b c h g. ground (arith, h, g);
  alike = λ a b c h g. ground (arith, h, g);
}

sample_greedy-IsFirst_example :
    IsFirst whole (5 ∷ 9 ∷ 9 ∷ 2 ∷ []) 4 (sample_greedy whole (5 ∷ 9 ∷ 9 ∷ 2 ∷ []))
sample_greedy-IsFirst_example =
    sample_greedy-IsFirst whole whole-Ordered (5 ∷ 9 ∷ 9 ∷ 2 ∷ []) (omega arith)

greedy_run : sample_greedy whole (5 ∷ 9 ∷ 9 ∷ 2 ∷ []) ≡ 1
unfolding sample_greedy best_from
greedy_run = refl

heap_run :
    select_top whole 2 (5 ∷ 9 ∷ 2 ∷ 7 ∷ [])
    ≡ record { prob = 7; idx = 3 } ∷ record { prob = 9; idx = 1 } ∷ []
unfolding select_from select_step sift_up sift_down least_child swap
heap_run = refl

state_run : xorshift 1 ≡ 270369
unfolding xorshift
state_run = refl
