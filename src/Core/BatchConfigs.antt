-- ===== src/Core/BatchConfigs.antt =====
-- core/batch_dispatcher.go: which configurations `NewBatchDispatcher` accepts, and what it makes of them.
use o4x.Prelude.{◌-◌, ◌^◌, ◌≡◌, refl, ◌⊎◌, inl, inr, true, false, ◌||◌, arith, Bool-cases}
use o4x.Core.Errors.{GoError, same_sentinel_refl, is, invalid_config, ok, err}
use o4x.Core.Int64.{ℤ, pos, negsuc, is_negative, is_positive, less}
use o4x.Core.Defaults.{
  AtMost, Exceeds, AtMost-cases, or_split, or_else, never_requeued, is_positive-or_default,
  polling-positive, timeouts-positive, requeues-of,
}
use o4x.Core.DispatcherConfig.{or_default}
use o4x.Core.BatchConfig.{
  BatchDispatcherConfig, has_negative_field, within_publisher, with_batch_defaults, never_requeues,
  new_batch_dispatcher,
}

-- What a batch dispatcher relies on, with a publisher of this `MaxBatchSize`.
pub record IsUsableBatch (max_size : ℤ) (c : BatchDispatcherConfig) : Type 0 where
  pub polls : is_positive c.poll_interval ≡ true
  pub backs_off : is_positive c.max_poll_interval ≡ true
  pub fetches : is_positive c.batch_size ≡ true
  pub fits : less max_size c.batch_size ≡ false
  pub works : is_positive c.worker_count ≡ true
  pub waits : is_positive c.shutdown_timeout ≡ true
  pub forces : is_positive c.force_timeout ≡ true
  pub forces_later : less c.force_timeout c.shutdown_timeout ≡ false
  pub delays : is_positive c.requeue_backoff_base ≡ true
  pub delays_at_most : is_positive c.requeue_backoff_max ≡ true
  pub cleans_up : is_positive c.cleanup_timeout ≡ true
  pub requeues : (is_positive c.requeue_interval ≡ true) ⊎ (c.disable_auto_requeue ≡ true)

less_irrefl : (z : ℤ) → less z z ≡ false
less_irrefl (pos n) = ground arith
less_irrefl (negsuc n) = ground arith

within_publisher-fits :
    (max_size size : ℤ)
    → is_positive max_size ≡ true
    → is_positive size ≡ true
    → (is_positive (within_publisher max_size size) ≡ true)
      × (less max_size (within_publisher max_size size) ≡ false)
unfolding within_publisher
within_publisher-fits max_size size m p = elim (Bool-cases (less max_size size)) [
  | inl above ↦ rw above (m, less_irrefl max_size)
  | inr below ↦ rw below (p, below)
]

with_batch_defaults-IsUsableBatch :
    (max_size : ℤ) (c : BatchDispatcherConfig)
    → is_positive max_size ≡ true
    → has_negative_field c ≡ false
    → never_requeues c ≡ false
    → AtMost (2 ^ 58 - 1) c.poll_interval
    → AtMost (2 ^ 62 - 1) c.shutdown_timeout
    → IsUsableBatch max_size (with_batch_defaults max_size c)
unfolding has_negative_field never_requeues with_batch_defaults
with_batch_defaults-IsUsableBatch max_size c m h requeue poll_small shutdown_small =
    let n₁ : is_negative c.poll_interval ≡ false = ground arith in
    let n₂ : is_negative c.max_poll_interval ≡ false = ground arith in
    let n₃ : is_negative c.batch_size ≡ false = ground arith in
    let n₄ : is_negative c.worker_count ≡ false = ground arith in
    let n₅ : is_negative c.shutdown_timeout ≡ false = ground arith in
    let n₆ : is_negative c.force_timeout ≡ false = ground arith in
    let n₇ : is_negative c.requeue_interval ≡ false = ground arith in
    let n₈ : is_negative c.requeue_backoff_base ≡ false = ground arith in
    let n₉ : is_negative c.requeue_backoff_max ≡ false = ground arith in
    let n₁₀ : is_negative c.cleanup_timeout ≡ false = ground arith in
    let (polls, backs_off) =
      polling-positive c.poll_interval c.max_poll_interval n₁ n₂ poll_small in
    let (waits, forces, forces_later) =
      timeouts-positive c.shutdown_timeout c.force_timeout n₅ n₆ shutdown_small in
    let (fetches, fits) =
      within_publisher-fits max_size (or_default c.batch_size max_size) m
        (is_positive-or_default c.batch_size max_size n₃ m) in
    record {
      polls = polls;
      backs_off = backs_off;
      fetches = fetches;
      fits = fits;
      works = is_positive-or_default c.worker_count (pos 1) n₄ refl;
      waits = waits;
      forces = forces;
      forces_later = forces_later;
      delays = is_positive-or_default c.requeue_backoff_base (pos 1000000000) n₈ refl;
      delays_at_most = is_positive-or_default c.requeue_backoff_max (pos 3600000000000) n₉ refl;
      cleans_up = is_positive-or_default c.cleanup_timeout (pos 10000000000) n₁₀ refl;
      requeues = requeues-of c.requeue_interval c.disable_auto_requeue n₇ requeue;
    }

-- A configuration that is refused: a field is negative, or failed messages would never be enqueued again.
abbrev pub IsFaultyBatch : BatchDispatcherConfig → Type 0
IsFaultyBatch c =
    (is_negative c.poll_interval ≡ true)
    ⊎ (is_negative c.max_poll_interval ≡ true)
    ⊎ (is_negative c.batch_size ≡ true)
    ⊎ (is_negative c.worker_count ≡ true)
    ⊎ (is_negative c.shutdown_timeout ≡ true)
    ⊎ (is_negative c.force_timeout ≡ true)
    ⊎ (is_negative c.requeue_interval ≡ true)
    ⊎ (is_negative c.requeue_backoff_base ≡ true)
    ⊎ (is_negative c.requeue_backoff_max ≡ true)
    ⊎ (is_negative c.cleanup_timeout ≡ true)
    ⊎ ((c.requeue_interval ≡ pos 0) × (c.disable_auto_requeue ≡ false))

-- A configuration that is accepted.
pub record IsCompleteBatch (c : BatchDispatcherConfig) : Type 0 where
  pub polls : is_negative c.poll_interval ≡ false
  pub backs_off : is_negative c.max_poll_interval ≡ false
  pub fetches : is_negative c.batch_size ≡ false
  pub works : is_negative c.worker_count ≡ false
  pub waits : is_negative c.shutdown_timeout ≡ false
  pub forces : is_negative c.force_timeout ≡ false
  pub not_before : is_negative c.requeue_interval ≡ false
  pub delays : is_negative c.requeue_backoff_base ≡ false
  pub delays_at_most : is_negative c.requeue_backoff_max ≡ false
  pub cleans_up : is_negative c.cleanup_timeout ≡ false
  pub requeues : (is_positive c.requeue_interval ≡ true) ⊎ (c.disable_auto_requeue ≡ true)

refused-IsFaultyBatch :
    (c : BatchDispatcherConfig)
    → (has_negative_field c || never_requeues c) ≡ true
    → IsFaultyBatch c
unfolding has_negative_field never_requeues
refused-IsFaultyBatch c h = elim (or_split (has_negative_field c) (never_requeues c) h) [
  | inr never ↦ inr (
      inr (
        inr (
          inr (
            inr (
              inr (
                inr (
                  inr (
                    inr
                      (inr (never_requeued c.requeue_interval c.disable_auto_requeue never))))))))))
  | inl negative ↦
      or_else _ _
        (or_else _ _ (
          or_else _ _ (
            or_else _ _ (
              or_else _ _
                (or_else _ _ (or_else _ _ (or_else _ _ (or_else _ _ (λ last. inl last)))))))))
        negative
]

accepted-IsCompleteBatch :
    (c : BatchDispatcherConfig)
    → has_negative_field c ≡ false
    → never_requeues c ≡ false
    → IsCompleteBatch c
unfolding has_negative_field never_requeues
accepted-IsCompleteBatch c h requeue = record {
  polls = ground arith;
  backs_off = ground arith;
  fetches = ground arith;
  works = ground arith;
  waits = ground arith;
  forces = ground arith;
  not_before = ground arith;
  delays = ground arith;
  delays_at_most = ground arith;
  cleans_up = ground arith;
  requeues = requeues-of c.requeue_interval c.disable_auto_requeue (ground arith) requeue;
}

-- With a publisher whose `MaxBatchSize` is positive: `NewBatchDispatcher` answers `ErrInvalidConfig` and a field is
-- negative, or the requeue interval is zero and the requeue is not disabled; or it answers a configuration, no
-- field is negative, and the requeue interval is positive or the requeue disabled. In this configuration all
-- intervals, timeouts, backoffs and counts are positive (the requeue interval unless the requeue is disabled), a
-- batch is no larger than the publisher allows, and the forced shutdown is not before the graceful one, but where
-- the poll interval given was 2^58 ns or more, or the shutdown timeout 2^62 ns or more.
pub new_batch_dispatcher_decides :
    (max_size : ℤ) (c : BatchDispatcherConfig)
    → is_positive max_size ≡ true
    → (IsFaultyBatch c
        × (e : GoError) × (new_batch_dispatcher max_size c ≡ err e)
        × (is e invalid_config ≡ true))
      ⊎ (IsCompleteBatch c
          × (c' : BatchDispatcherConfig) × (new_batch_dispatcher max_size c ≡ ok c')
          × (IsUsableBatch max_size c'
              ⊎ Exceeds (2 ^ 58 - 1) c.poll_interval
              ⊎ Exceeds (2 ^ 62 - 1) c.shutdown_timeout))
unfolding new_batch_dispatcher is
new_batch_dispatcher_decides max_size c m = elim (Bool-cases (has_negative_field c)) [
  | inl bad ↦
      let faulty = refused-IsFaultyBatch c (rw bad refl) in
      inl (rw bad (faulty, _, refl, same_sentinel_refl invalid_config))
  | inr fine ↦ elim (Bool-cases (never_requeues c)) [
    | inl bad ↦
        let faulty = refused-IsFaultyBatch c (rw (fine, bad) refl) in
        inl (rw (fine, bad) (faulty, _, refl, same_sentinel_refl invalid_config))
    | inr good ↦
        let complete = accepted-IsCompleteBatch c fine good in
        inr (rw (fine, good) (complete, with_batch_defaults max_size c, refl, usable fine good))
  ]
]
  where
    usable :
        has_negative_field c ≡ false
        → never_requeues c ≡ false
        → IsUsableBatch max_size (with_batch_defaults max_size c)
          ⊎ Exceeds (2 ^ 58 - 1) c.poll_interval
          ⊎ Exceeds (2 ^ 62 - 1) c.shutdown_timeout
    usable fine good = elim (AtMost-cases (2 ^ 58 - 1) c.poll_interval) [
      | inr over ↦ inr (inl over)
      | inl p ↦ elim (AtMost-cases (2 ^ 62 - 1) c.shutdown_timeout) [
        | inr over ↦ inr (inr over)
        | inl s ↦ inl (with_batch_defaults-IsUsableBatch max_size c m fine good p s)
      ]
    ]
