-- ===== src/Consumer/Pool.antt =====
-- contrib/sqs/consumer/service.go: the parallel branch of `pollAndProcess`, for `MessageConcurrency` above 1. Each
-- message has a goroutine, which holds one of the slots of the semaphore; the steps of the goroutines
-- interleave.
use o4x.Prelude.{ℕ, ◌<◌, ◌≡◌, true, false, List, [], ◌∷◌, ◌++◌, length}
use o4x.Core.Errors.{GoError}
use o4x.Consumer.Message.{RawMessage, SqsMessage}
use o4x.Consumer.Service.{
  ConsumerWorker, ConsumerWorld, receive, announce, run_handler, settle_message, checked,
}

-- Where a goroutine stands in `processMessage`: before its start, before its call of the handler, or behind it.
pub data Task : Type 0 where
  starting : RawMessage → Task
  handling : SqsMessage → Task
  settling : SqsMessage → GoError → Task

-- The messages that the loop has not come to, the goroutines that run, and what they share.
pub record Pool (Q H : Type 0) : Type 0 where
  pub waiting : List RawMessage
  pub active : List Task
  pub world : ConsumerWorld Q H

module _ {Q H : Type 0} (s : ConsumerWorker Q H) (slots : ℕ) where
  abbrev pub pool : List RawMessage → List Task → ConsumerWorld Q H → Pool Q H
  pool waiting active world = record { waiting = waiting; active = active; world = world }

  -- `begin`: the loop takes a slot and starts a goroutine. `stop_loop`: the context is cancelled. `enter`: a goroutine
  -- reads its message and calls `OnConsumeStart`. `handle`: its handler returns. `settle`: it ends and gives its
  -- slot back.
  pub data Step : Pool Q H → Pool Q H → Type 0 where
    begin :
        {p q : Pool Q H} (m : RawMessage) (ms : List RawMessage)
        → p.waiting ≡ m ∷ ms
        → s.cancelled p.world.checks ≡ false
        → length p.active < slots
        → q ≡ pool ms (p.active ++ starting m ∷ []) (checked s p.world)
        → Step p q
    stop_loop :
        {p q : Pool Q H} (m : RawMessage) (ms : List RawMessage) (n : ℕ)
        → p.waiting ≡ m ∷ ms
        → s.cancelled n ≡ true
        → q ≡ pool [] p.active (checked s p.world)
        → Step p q
    enter :
        {p q : Pool Q H} (before after : List Task) (m : RawMessage)
        → p.active ≡ before ++ starting m ∷ after
        → q
          ≡ pool p.waiting
              (before ++ handling (receive s m) ∷ after)
              (announce s (receive s m) p.world)
        → Step p q
    handle :
        {p q : Pool Q H} (before after : List Task) (msg : SqsMessage)
        → p.active ≡ before ++ handling msg ∷ after
        → q
          ≡ pool p.waiting
              (before ++ settling msg (run_handler s msg p.world).1 ∷ after)
              (run_handler s msg p.world).0
        → Step p q
    settle :
        {p q : Pool Q H} (before after : List Task) (msg : SqsMessage) (e : GoError)
        → p.active ≡ before ++ settling msg e ∷ after
        → q ≡ pool p.waiting (before ++ after) (settle_message s msg e p.world)
        → Step p q

  pub data Steps : Pool Q H → Pool Q H → Type 0 where
    done : {p : Pool Q H} → Steps p p
    next : {p q r : Pool Q H} → Step p q → Steps q r → Steps p r
