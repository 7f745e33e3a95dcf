-- ===== src/Core/Configs.antt =====
-- core/dispatcher.go: which configurations `NewDispatcher` accepts, and what it makes of them.
use o4x.Prelude.{◌-◌, ◌^◌, ◌≡◌, refl, ◌⊎◌, inl, inr, true, false, ◌||◌, arith, Bool-cases}
use o4x.Core.Errors.{GoError, same_sentinel_refl, is, invalid_config, ok, err}
use o4x.Core.Int64.{pos, is_negative, is_positive, less}
use o4x.Core.DispatcherConfig.{
  DispatcherConfig, has_negative, with_defaults, no_requeue, new_dispatcher,
}
use o4x.Core.Defaults.{
  AtMost, Exceeds, AtMost-cases, or_split, or_else, never_requeued, is_positive-or_default,
  polling-positive, timeouts-positive, requeues-of,
}

-- What a dispatcher relies on.
pub record IsUsable (c : DispatcherConfig) : Type 0 where
  pub polls : is_positive c.poll_interval ≡ true
  pub backs_off : is_positive c.max_poll_interval ≡ true
  pub works : is_positive c.worker_count ≡ true
  pub waits : is_positive c.shutdown_timeout ≡ true
  pub forces : is_positive c.force_timeout ≡ true
  pub forces_later : less c.force_timeout c.shutdown_timeout ≡ false
  pub cleans_up : is_positive c.cleanup_timeout ≡ true
  pub requeues : (is_positive c.requeue_interval ≡ true) ⊎ (c.disable_auto_requeue ≡ true)

with_defaults-IsUsable :
    (c : DispatcherConfig)
    → has_negative c ≡ false
    → no_requeue c ≡ false
    → AtMost (2 ^ 58 - 1) c.poll_interval
    → AtMost (2 ^ 62 - 1) c.shutdown_timeout
    → IsUsable (with_defaults c)
unfolding has_negative no_requeue with_defaults
with_defaults-IsUsable c h requeue poll_small shutdown_small =
    let n₁ : is_negative c.poll_interval ≡ false = ground arith in
    let n₂ : is_negative c.max_poll_interval ≡ false = ground arith in
    let n₃ : is_negative c.worker_count ≡ false = ground arith in
    let n₄ : is_negative c.shutdown_timeout ≡ false = ground arith in
    let n₅ : is_negative c.force_timeout ≡ false = ground arith in
    let n₆ : is_negative c.cleanup_timeout ≡ false = ground arith in
    let n₇ : is_negative c.requeue_interval ≡ false = ground arith in
    let (polls, backs_off) =
      polling-positive c.poll_interval c.max_poll_interval n₁ n₂ poll_small in
    let (waits, forces, forces_later) =
      timeouts-positive c.shutdown_timeout c.force_timeout n₄ n₅ shutdown_small in
    record {
      polls = polls;
      backs_off = backs_off;
      works = is_positive-or_default c.worker_count (pos 1) n₃ refl;
      waits = waits;
      forces = forces;
      forces_later = forces_later;
      cleans_up = is_positive-or_default c.cleanup_timeout (pos 10000000000) n₆ refl;
      requeues = requeues-of c.requeue_interval c.disable_auto_requeue n₇ requeue;
    }

-- A configuration that is refused: a field is negative, or failed messages would never be enqueued again.
abbrev pub IsFaulty : DispatcherConfig → Type 0
IsFaulty c =
    (is_negative c.poll_interval ≡ true)
    ⊎ (is_negative c.max_poll_interval ≡ true)
    ⊎ (is_negative c.worker_count ≡ true)
    ⊎ (is_negative c.shutdown_timeout ≡ true)
    ⊎ (is_negative c.force_timeout ≡ true)
    ⊎ (is_negative c.cleanup_timeout ≡ true)
    ⊎ (is_negative c.requeue_interval ≡ true)
    ⊎ ((c.requeue_interval ≡ pos 0) × (c.disable_auto_requeue ≡ false))

-- A configuration that is accepted.
pub record IsComplete (c : DispatcherConfig) : Type 0 where
  pub polls : is_negative c.poll_interval ≡ false
  pub backs_off : is_negative c.max_poll_interval ≡ false
  pub works : is_negative c.worker_count ≡ false
  pub waits : is_negative c.shutdown_timeout ≡ false
  pub forces : is_negative c.force_timeout ≡ false
  pub cleans_up : is_negative c.cleanup_timeout ≡ false
  pub not_before : is_negative c.requeue_interval ≡ false
  pub requeues : (is_positive c.requeue_interval ≡ true) ⊎ (c.disable_auto_requeue ≡ true)

refused-IsFaulty : (c : DispatcherConfig) → (has_negative c || no_requeue c) ≡ true → IsFaulty c
unfolding has_negative no_requeue
refused-IsFaulty c h = elim (or_split (has_negative c) (no_requeue c) h) [
  | inr never ↦ inr (
      inr (
        inr
          (inr (inr (inr (inr (never_requeued c.requeue_interval c.disable_auto_requeue never)))))))
  | inl negative ↦
      or_else _ _
        (or_else _ _ (or_else _ _ (or_else _ _ (or_else _ _ (or_else _ _ (λ last. inl last))))))
        negative
]

accepted-IsComplete :
    (c : DispatcherConfig) → has_negative c ≡ false → no_requeue c ≡ false → IsComplete c
unfolding has_negative no_requeue
accepted-IsComplete c h requeue = record {
  polls = ground arith;
  backs_off = ground arith;
  works = ground arith;
  waits = ground arith;
  forces = ground arith;
  cleans_up = ground arith;
  not_before = ground arith;
  requeues = requeues-of c.requeue_interval c.disable_auto_requeue (ground arith) requeue;
}

-- `NewDispatcher` answers `ErrInvalidConfig` and a field is negative, or the requeue interval is zero and the
-- requeue is not disabled; or it answers a configuration, no field is negative, and the requeue interval is
-- positive or the requeue disabled. This configuration's intervals, timeouts and worker count are positive, its
-- forced shutdown is not before the graceful one, and it requeues unless that is disabled, but where the poll interval given
-- was 2^58 ns or more, or the shutdown timeout 2^62 ns or more.
pub new_dispatcher_decides :
    (c : DispatcherConfig)
    → (IsFaulty c × (e : GoError) × (new_dispatcher c ≡ err e) × (is e invalid_config ≡ true))
      ⊎ (IsComplete c
          × (c' : DispatcherConfig) × (new_dispatcher c ≡ ok c')
          × (IsUsable c'
              ⊎ Exceeds (2 ^ 58 - 1) c.poll_interval
              ⊎ Exceeds (2 ^ 62 - 1) c.shutdown_timeout))
unfolding new_dispatcher is
new_dispatcher_decides c = elim (Bool-cases (has_negative c)) [
  | inl bad ↦
      let faulty = refused-IsFaulty c (rw bad refl) in
      inl (rw bad (faulty, _, refl, same_sentinel_refl invalid_config))
  | inr fine ↦ elim (Bool-cases (no_requeue c)) [
    | inl bad ↦
        let faulty = refused-IsFaulty c (rw (fine, bad) refl) in
        inl (rw (fine, bad) (faulty, _, refl, same_sentinel_refl invalid_config))
    | inr good ↦
        let complete = accepted-IsComplete c fine good in
        inr (rw (fine, good) (complete, with_defaults c, refl, usable fine good))
  ]
]
  where
    usable :
        has_negative c ≡ false
        → no_requeue c ≡ false
        → IsUsable (with_defaults c)
          ⊎ Exceeds (2 ^ 58 - 1) c.poll_interval
          ⊎ Exceeds (2 ^ 62 - 1) c.shutdown_timeout
    usable fine good = elim (AtMost-cases (2 ^ 58 - 1) c.poll_interval) [
      | inr over ↦ inr (inl over)
      | inl p ↦ elim (AtMost-cases (2 ^ 62 - 1) c.shutdown_timeout) [
        | inr over ↦ inr (inr over)
        | inl s ↦ inl (with_defaults-IsUsable c fine good p s)
      ]
    ]
