-- ===== src/Remediation/Recovery/Verdict.antt =====
-- The verdict of the verification loop, for any health probe.
use sentinelops_ai.Prelude.{
  ℕ, zero, suc, ◌+◌, ◌-◌, ◌*◌, ◌≤◌, ◌<◌, ◌≡◌, refl, sym, ◌∙◌, ap, subst, ◌⊎◌, inl, inr, Bool, true,
  false, none, some, List, [], arith, Bool-cases, ltb, ltb→lt,
}
use native.Mathlib.Nat.{zero-add}
use sentinelops_ai.Remediation.Target.{ServiceTarget}
use sentinelops_ai.Remediation.Recovery.{
  Probe, RecoveryConfig, RecoveryCheck, RecoveryOutcome, HealthStatus, recovered, recovery_failed,
  poll_checks, claimed_status, all_passed, observe, poll_loop, verify, max_attempts, next_poll,
  unhealthy,
}

pub max_attempts-pos : (config : RecoveryConfig) → 0 < max_attempts config
unfolding max_attempts
max_attempts-pos config = omega arith

module _ (probe : Probe) (target : ServiceTarget) (config : RecoveryConfig) (start : ℕ) where
  -- The virtual time of the poll number `k`, counted from 0.
  abbrev pub poll_time : ℕ → ℕ
  poll_time k = start + k * config.poll_interval

  -- Whether every check passes on the poll number `k`.
  unfoldable pub passes : ℕ → Bool
  passes k = all_passed (poll_checks (observe probe target config start (poll_time k)) config)

  -- The verdict over the polls `lo` to `hi`, the last one included.
  pub record Recovers (lo hi k : ℕ) (o : RecoveryOutcome) : Type 0 where
    pub from : lo ≤ k
    pub within : k ≤ hi
    pub healthy : passes k ≡ true
    pub first : (j : ℕ) → lo ≤ j → j < k → passes j ≡ false
    pub verdict : o.status ≡ recovered
    pub attempts : o.attempts ≡ k + 1
    pub healthy_at : o.first_healthy_at ≡ some (poll_time k)
    pub completed : o.completed_at ≡ poll_time k

  pub record Fails (lo hi : ℕ) (o : RecoveryOutcome) : Type 0 where
    pub sick : (j : ℕ) → lo ≤ j → j ≤ hi → passes j ≡ false
    pub verdict : o.status ≡ recovery_failed
    pub attempts : o.attempts ≡ max_attempts config
    pub healthy_at : o.first_healthy_at ≡ none
    pub completed : o.completed_at ≡ poll_time hi

  abbrev pub Judged : ℕ → ℕ → RecoveryOutcome → Type 0
  Judged lo hi o = ((k : ℕ) × Recovers lo hi k o) ⊎ Fails lo hi o

  at_once :
      (n i : ℕ) (cs : List RecoveryCheck) (claimed : HealthStatus)
      → passes i ≡ true
      → Recovers i
          (i + n)
          i
          (poll_loop probe target config start (suc n) (suc i) (poll_time i) cs claimed)
  unfolding poll_loop passes
  at_once n i cs claimed e = rw e (record {
    from = omega arith;
    within = omega arith;
    healthy = e;
    first = λ j h l. absurd (omega arith);
    verdict = refl;
    attempts = omega arith;
    healthy_at = refl;
    completed = refl;
  })

  loop_on :
      (n i : ℕ) (cs : List RecoveryCheck) (claimed : HealthStatus)
      → passes i ≡ false
      → poll_loop probe target config start (suc n) (suc i) (poll_time i) cs claimed
        ≡ poll_loop probe target config start n
            (suc (suc i))
            (next_poll n config.poll_interval (poll_time i))
            (poll_checks (observe probe target config start (poll_time i)) config)
            (claimed_status (observe probe target config start (poll_time i)))
  unfolding poll_loop passes
  loop_on n i cs claimed e = rw e

  at_or_after :
      (i j : ℕ) → passes i ≡ false → i ≤ j → (suc i ≤ j → passes j ≡ false) → passes j ≡ false
  at_or_after i j e h k = elim (Bool-cases (ltb i j)) [
    | inl more ↦ k (ltb→lt i j more)
    | inr less ↦ subst (λ m. passes m ≡ false) (same less) e
  ]
    where
      same : ltb i j ≡ false → i ≡ j
      same l = ground arith

  extend :
      (i m : ℕ) (o : RecoveryOutcome)
      → passes i ≡ false
      → Judged (suc i) (suc i + m) o
      → Judged i (i + suc m) o
  extend i m o e (inl (k, r)) = inl (
    k,
    record {
      from = omega (arith, r.from);
      within = omega (arith, r.within);
      healthy = r.healthy;
      first = λ j h l. at_or_after i j e h (λ g. r.first j g l);
      verdict = r.verdict;
      attempts = r.attempts;
      healthy_at = r.healthy_at;
      completed = r.completed;
    },
  )
  extend i m o e (inr f) = inr (record {
    sick = λ j h l. at_or_after i j e h (λ g. f.sick j g (omega arith));
    verdict = f.verdict;
    attempts = f.attempts;
    healthy_at = f.healthy_at;
    completed = f.completed ∙ ap poll_time (suc_shift i m);
  })
    where
      suc_shift : (i m : ℕ) → suc i + m ≡ i + suc m
      suc_shift i m = omega arith

  ran_out :
      (i : ℕ) (cs : List RecoveryCheck) (claimed : HealthStatus)
      → passes i ≡ false
      → Fails i
          (i + 0)
          (poll_loop probe target config start 0 (suc (suc i)) (poll_time i) cs claimed)
  unfolding poll_loop
  ran_out i cs claimed e = record {
    sick = λ j h l. at_or_after i j e h (λ g. absurd (omega arith));
    verdict = refl;
    attempts = refl;
    healthy_at = refl;
    completed = ap poll_time (plus_zero i);
  }
    where
      plus_zero : (i : ℕ) → i ≡ i + 0
      plus_zero i = omega arith

  later : (i : ℕ) → poll_time i + config.poll_interval ≡ poll_time (suc i)
  later i = omega arith

  poll_loop-Judged :
      (n i : ℕ) (cs : List RecoveryCheck) (claimed : HealthStatus)
      → Judged i
          (i + n)
          (poll_loop probe target config start (suc n) (suc i) (poll_time i) cs claimed)
  poll_loop-Judged zero i cs claimed = elim (Bool-cases (passes i)) [
    | inl e ↦ inl (i, at_once 0 i cs claimed e)
    | inr e ↦ rw (loop_on 0 i cs claimed e) (inr (ran_out i _ _ e))
  ]
  poll_loop-Judged (suc m) i cs claimed = elim (Bool-cases (passes i)) [
    | inl e ↦ inl (i, at_once (suc m) i cs claimed e)
    | inr e ↦
        rw (loop_on (suc m) i cs claimed e)
          (rw (later i) (extend i m _ e (poll_loop-Judged m (suc i) _ _)))
  ]

  first_time : start ≡ poll_time 0
  first_time = omega arith

  start_loop :
      (m n : ℕ)
      → m ≡ suc n
      → Judged 0 n (poll_loop probe target config start m 1 start [] unhealthy)
  start_loop m n e =
      let base = poll_loop-Judged n 0 [] unhealthy in
      let at_n =
        subst
          (λ x.
            Judged 0 x (poll_loop probe target config start (suc n) 1 (poll_time 0) [] unhealthy))
          (zero-add n) base in
      let from_start =
        subst (λ x. Judged 0 n (poll_loop probe target config start (suc n) 1 x [] unhealthy))
          (sym first_time) at_n in
      subst (λ x. Judged 0 n (poll_loop probe target config start x 1 start [] unhealthy)) (sym e)
        from_start

  verify-Judged : Judged 0 (max_attempts config - 1) (verify probe target config start)
  unfolding verify
  verify-Judged =
      start_loop (max_attempts config) (max_attempts config - 1)
        (omega (arith, max_attempts-pos config))

-- Recovery verification ends within the configured number of polls, for any probe. It reports
-- `recovered` exactly at the first poll on which every check passes, with that poll's number and
-- virtual time; it reports `recovery_failed` after the last poll if none passes.
pub verify_verdict :
    (probe : Probe) (target : ServiceTarget) (config : RecoveryConfig) (start : ℕ)
    → Judged probe target config start 0
        (max_attempts config - 1)
        (verify probe target config start)
verify_verdict = verify-Judged
