-- ===== src/Http/Loading.antt =====
-- core/services/loading.service.ts and core/interceptors/loading.interceptor.ts: the number of
-- requests in flight that the progress bar shows.
use enterprise_platform.Common.{
  ℕ, ◌+◌, ◌-◌, ◌<◌, Bool, true, false, List, [], ◌∷◌, if◌then◌else◌, ltb, ◌≡◌, ◌↔◌, arith,
}

unfoldable pub inc : ℕ → ℕ
inc n = n + 1

unfoldable pub dec : ℕ → ℕ
dec n = if ltb 0 n then n - 1 else 0

unfoldable pub is_loading : ℕ → Bool
is_loading n = ltb 0 n

-- A request is sent, or has ended by success, failure or cancellation; `skip` is whether it has
-- the header `X-Skip-Loading`.
pub data Traffic : Type 0 where
  sent ended : (skip : Bool) → Traffic

unfoldable pub step : Traffic → ℕ → ℕ
unfolding inc dec
step (sent skip) n = if skip then n else inc n
step (ended skip) n = if skip then n else dec n

unfoldable pub run : List Traffic → ℕ → ℕ
run [] n = n
run (t ∷ ts) n = run ts (step t n)

abbrev pub sent_count : List Traffic → ℕ
sent_count [] = 0
sent_count (sent true ∷ ts) = sent_count ts
sent_count (sent false ∷ ts) = 1 + sent_count ts
sent_count (ended _ ∷ ts) = sent_count ts

abbrev pub ended_count : List Traffic → ℕ
ended_count [] = 0
ended_count (sent _ ∷ ts) = ended_count ts
ended_count (ended true ∷ ts) = ended_count ts
ended_count (ended false ∷ ts) = 1 + ended_count ts

-- With `n` counted requests open, each end is the end of a request that was sent.
abbrev pub IsOrderly : ℕ → List Traffic → Type 0
IsOrderly n [] = Unit
IsOrderly n (sent true ∷ ts) = IsOrderly n ts
IsOrderly n (sent false ∷ ts) = IsOrderly (n + 1) ts
IsOrderly n (ended true ∷ ts) = IsOrderly n ts
IsOrderly n (ended false ∷ ts) = (0 < n) × IsOrderly (n - 1) ts

run_balance :
    (ts : List Traffic) (n : ℕ) → IsOrderly n ts → run ts n + ended_count ts ≡ n + sent_count ts
unfolding run step
run_balance [] n h = omega arith
run_balance (sent true ∷ ts) n h = omega (arith, run_balance ts n h)
run_balance (sent false ∷ ts) n h = omega (arith, run_balance ts (n + 1) h)
run_balance (ended true ∷ ts) n h = omega (arith, run_balance ts n h)
run_balance (ended false ∷ ts) n (pos, h) = ground (arith, run_balance ts (n - 1) h)

-- Where every request ends after it was sent, the count is the number of requests that were sent
-- and have not ended, those with the skip header left out, and the bar shows exactly while there is
-- one.
pub run-in_flight :
    (ts : List Traffic)
    → IsOrderly 0 ts
    → (run ts 0 ≡ sent_count ts - ended_count ts)
      × ((is_loading (run ts 0) ≡ true) ↔ (ended_count ts < sent_count ts))
unfolding is_loading
run-in_flight ts h = ground (arith, run_balance ts 0 h)
