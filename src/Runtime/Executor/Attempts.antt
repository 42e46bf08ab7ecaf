-- ===== src/Runtime/Executor/Attempts.antt =====
-- How often a call is made, what it answers, and how long it waits.
use xenopus.Prelude.{
  ℕ, zero, suc, ◌+◌, ◌-◌, ◌*◌, ◌^◌, ◌≤◌, ◌≡◌, ◌⊎◌, refl, ap, Bool, true, false, not, ◌&&◌, some,
  List, [], ◌∷◌, String, ok, arith, length, Bool-cases, inl, inr,
}
use native.Mathlib.Nat.{two-pow-succ, mul-add}
use xenopus.Prelude.Strip.{is_blank}
use xenopus.Runtime.Budgets.{RetryPolicy, backoff}
use xenopus.Tools.Contracts.{ToolResult}
use xenopus.Runtime.Executor.{
  settles, Log, Execution, round_log, then_sleep, run_rounds, execute_with_retries,
}

unfoldable pub sum : List ℕ → ℕ
sum [] = 0
sum (n ∷ ns) = n + sum ns

module _ {V S : Type 0} (attempt : ℕ → S → ToolResult V × S) (pause : ℕ → S → S)
    (policy : RetryPolicy) where
  -- The state in which the next round starts after a round that failed for now
  abbrev pub next : ℕ → S → S
  next n s = pause (backoff policy n) (attempt n s).1

  -- The answer of the `k`-th round after round `n`, when all rounds before it go on
  unfoldable pub answer : ℕ → ℕ → S → ToolResult V × S
  answer zero n s = attempt n s
  answer (suc k) n s = answer k (suc n) (next n s)

  -- None of the first `k` rounds from round `n` on settles the call.
  unfoldable pub goes_on : ℕ → ℕ → S → Bool
  goes_on zero n s = true
  goes_on (suc k) n s = not (settles (attempt n s).0) && goes_on k (suc n) (next n s)

  -- What these rounds and the `k`-th after them write
  unfoldable pub written : ℕ → ℕ → S → Log V
  written zero n s = round_log n (attempt n s).0
  written (suc k) n s =
      then_sleep (round_log n (attempt n s).0) (backoff policy n) (written k (suc n) (next n s))

  -- The run ends with the first round that settles the call, or with the last one.
  abbrev pub Ends : ℕ → ℕ → S → Execution attempt pause → Type 0
  Ends more n s run =
      (k : ℕ) × (k ≤ more)
      × (goes_on k n s ≡ true)
      × ((settles (answer k n s).0 ≡ true) ⊎ (k ≡ more))
      × (run ≡ ((answer k n s).0, written k n s, (answer k n s).1))

  run_rounds-Ends : (more n : ℕ) (s : S) → Ends more n s (run_rounds attempt pause policy more n s)
  unfolding run_rounds answer goes_on written
  run_rounds-Ends zero n s = (0, omega arith, refl, inr refl, refl)
  run_rounds-Ends (suc more) n s = elim (Bool-cases (settles (attempt n s).0)) [
    | inl e ↦ rw e (0, omega arith, refl, inl e, refl)
    | inr e ↦
        let (k, le, on, last, same) = run_rounds-Ends more (suc n) (next n s) in
        rw (e, same)
          (
            suc k,
            omega arith,
            rw e on,
            elim last [ inl settled ↦ inl settled | inr eq ↦ inr (ap suc eq) ],
            refl,
          )
  ]

  -- With a policy that its constructor accepts and a correlation id, `execute` returns. It makes the
  -- rounds one after the other, and stops with the first that succeeds or fails for good, or with the
  -- last that the policy allows: its answer is that round's, and the log holds the rounds up to it.
  pub execute-Ends :
      (correlation_id : String) (s : S)
      → 1 ≤ policy.max_attempts
      → is_blank correlation_id ≡ false
      → (run : Execution attempt pause) × (execute_with_retries attempt pause policy correlation_id
            s
          ≡ ok (some run))
        × Ends (policy.max_attempts - 1) 1 s run
  unfolding execute_with_retries
  execute-Ends correlation_id s h named = go policy.max_attempts refl
    where
      go :
          (n : ℕ)
          → policy.max_attempts ≡ n
          → (run : Execution attempt pause) × (execute_with_retries attempt pause policy
                correlation_id s
              ≡ ok (some run))
            × Ends (policy.max_attempts - 1) 1 s run
      go zero e = absurd (omega arith)
      go (suc more) e =
          let eq : policy.max_attempts - 1 ≡ more = omega arith in
          (
            run_rounds attempt pause policy more 1 s,
            rw (e, named) refl,
            rw eq (run_rounds-Ends more 1 s),
          )

  run_rounds-settled :
      (more n : ℕ) (s : S)
      → settles (attempt n s).0 ≡ true
      → run_rounds attempt pause policy more n s
        ≡ ((attempt n s).0, round_log n (attempt n s).0, (attempt n s).1)
  unfolding run_rounds
  run_rounds-settled zero n s h = refl
  run_rounds-settled (suc more) n s h = rw h refl

  pub execute-settled :
      (correlation_id : String) (s : S)
      → 1 ≤ policy.max_attempts
      → is_blank correlation_id ≡ false
      → settles (attempt 1 s).0 ≡ true
      → execute_with_retries attempt pause policy correlation_id s
        ≡ ok (some ((attempt 1 s).0, round_log 1 (attempt 1 s).0, (attempt 1 s).1))
  unfolding execute_with_retries
  execute-settled correlation_id s h named settled = go policy.max_attempts refl
    where
      go :
          (n : ℕ)
          → policy.max_attempts ≡ n
          → execute_with_retries attempt pause policy correlation_id s
            ≡ ok (some ((attempt 1 s).0, round_log 1 (attempt 1 s).0, (attempt 1 s).1))
      go zero e = absurd (omega arith)
      go (suc more) e = rw (e, named) (ap (λ x. ok (some x)) (run_rounds-settled more 1 s settled))

  written_lengths :
      (k n : ℕ) (s : S)
      → (length (written k n s).observations ≡ suc k) × (length (written k n s).journal ≡ 2 * suc k)
  unfolding written
  written_lengths zero n s = (refl, refl)
  written_lengths (suc k) n s =
      let (a, b) = written_lengths k (suc n) (next n s) in (omega arith, omega arith)

  -- The sleeps double, so that they add up to one less than the next power of two.
  written_sleeps :
      (k a : ℕ) (s : S)
      → sum (written k (suc a) s).sleeps + policy.backoff_base * 2 ^ a
        ≡ policy.backoff_base * 2 ^ (a + k)
  unfolding written sum backoff
  written_sleeps zero a s = let e : a + 0 ≡ a = omega arith in rw e (omega arith)
  written_sleeps (suc k) a s =
      let ih = written_sleeps k (suc a) (next (suc a) s) in
      let e : a + suc k ≡ suc a + k = omega arith in
      let base = policy.backoff_base in
      let step : 2 ^ suc a ≡ 2 ^ a + 2 ^ a = two-pow-succ a in
      let twice : base * 2 ^ suc a ≡ base * 2 ^ a + base * 2 ^ a = rw step (mul-add base _ _) in
      let pred : suc a - 1 ≡ a = omega arith in
      let first : base * 2 ^ (suc a - 1) ≡ base * 2 ^ a = rw pred refl in rw e (omega arith)

  -- With a policy that its constructor accepts and a correlation id, `execute` makes at least one
  -- round and at most as many as the policy allows. The journal holds two events for each round and
  -- the sleeps, together with one base delay, are the base times two to the number of sleeps.
  pub execute_bounds :
      (correlation_id : String) (s : S)
      → 1 ≤ policy.max_attempts
      → is_blank correlation_id ≡ false
      → (run : Execution attempt pause) × (k : ℕ) × (execute_with_retries attempt pause policy
            correlation_id s
          ≡ ok (some run))
        × (suc k ≤ policy.max_attempts)
        × (length run.1.observations ≡ suc k)
        × (length run.1.journal ≡ 2 * suc k)
        × (sum run.1.sleeps + policy.backoff_base ≡ policy.backoff_base * 2 ^ k)
  execute_bounds correlation_id s h named =
      let (run, returned, (k, le, _, _, same)) = execute-Ends correlation_id s h named in
      let (seen, noted) = written_lengths k 1 s in
      let e : 0 + k ≡ k = omega arith in
      let slept : sum (written k 1 s).sleeps + policy.backoff_base * 1
          ≡ policy.backoff_base * 2 ^ k =
        rw e at (written_sleeps k 0 s) in
      (run, k, returned, omega arith, rw same seen, rw same noted, rw same (omega arith))
