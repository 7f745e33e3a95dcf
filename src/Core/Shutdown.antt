-- ===== src/Core/Shutdown.antt =====
-- core/shutdown.go: `GracefulShutdown`. Times count from its call; `done` is when the last worker ends, if one does.
-- Where a worker's end and a timer meet, Go's `select` takes either: that is a parameter.
use o4x.Prelude.{
  ℕ, ◌+◌, ◌-◌, ◌≤◌, ◌≡◌, refl, ◌⊎◌, Bool, false, ◌&&◌, ◌||◌, Option, none, some, ltb, ◌==◌,
  if◌then◌else◌, arith,
}

pub data Ending : Type 0 where
  gracefully after_extended_wait forced : Ending

-- Whether a `select` between the workers' end and a timer takes the former.
abbrev ends_first : Option ℕ → ℕ → Bool → Bool
ends_first none deadline lucky = false
ends_first (some t) deadline lucky = ltb t deadline || (t == deadline && lucky)

-- The second wait begins when the first one is over.
unfoldable pub graceful_shutdown : ℕ → ℕ → Option ℕ → Bool → Bool → Ending
graceful_shutdown shutdown_timeout force_timeout done lucky₁ lucky₂ =
    if ends_first done shutdown_timeout lucky₁
    then gracefully
    else (if ends_first done (shutdown_timeout + (force_timeout - shutdown_timeout)) lucky₂
        then after_extended_wait
        else forced)

-- If the workers never end, `OnForceShutdown` is called. If they end at the time `t`, it is called only where `t`
-- is past both timeouts; the first wait ends with them only up to `ShutdownTimeout`, and the second one
-- from there up to the later of the two timeouts.
pub graceful_shutdown-forced :
    (shutdown_timeout force_timeout t : ℕ) (lucky₁ lucky₂ : Bool)
    → (graceful_shutdown shutdown_timeout force_timeout none lucky₁ lucky₂ ≡ forced)
      × (((graceful_shutdown shutdown_timeout force_timeout (some t) lucky₁ lucky₂ ≡ forced)
            × (force_timeout ≤ t)
            × (shutdown_timeout ≤ t))
          ⊎ ((graceful_shutdown shutdown_timeout force_timeout (some t) lucky₁ lucky₂ ≡ gracefully)
              × (t ≤ shutdown_timeout))
          ⊎ ((graceful_shutdown shutdown_timeout force_timeout (some t) lucky₁ lucky₂
                ≡ after_extended_wait)
              × (t ≤ shutdown_timeout + (force_timeout - shutdown_timeout))
              × (shutdown_timeout ≤ t)))
unfolding graceful_shutdown
graceful_shutdown-forced s f t a b = (refl, ground arith)
