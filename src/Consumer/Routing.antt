-- ===== src/Consumer/Routing.antt =====
-- contrib/sqs/consumer/handler.go: which handler a message goes to, after any calls that set the router up.
use o4x.Prelude.{
  ◌≡◌, true, sym, refl, ap, ◌∙◌, Option, none, some, List, [], ◌∷◌, Text, text_eq, if◌then◌else◌,
  lookup, lookup-put,
}
use o4x.Core.Errors.{GoError, nil, is, unknown_event_type, same_sentinel_refl}
use o4x.Consumer.Message.{SqsMessage}
use o4x.Consumer.Router.{
  Handler, UnknownEventTypeBehavior, unknown_event_type_error, unknown_event_type_ignore,
  EventTypeRouter, new_event_type_router, register_handler, set_fallback,
  set_unknown_event_type_behavior, chosen, route,
}

pub data RouterCall (H : Type 0) : Type 0 where
  registering : Text → Handler H → RouterCall H
  setting_fallback : Handler H → RouterCall H
  setting_behavior : UnknownEventTypeBehavior → RouterCall H

module _ {H : Type 0} where
  unfoldable pub set_up : RouterCall H → EventTypeRouter H → EventTypeRouter H
  set_up (registering e f) r = register_handler e f r
  set_up (setting_fallback f) r = set_fallback f r
  set_up (setting_behavior b) r = set_unknown_event_type_behavior b r

  -- The router after calls, of which the list holds the newest first.
  unfoldable pub configured : List (RouterCall H) → EventTypeRouter H
  configured [] = new_event_type_router
  configured (c ∷ cs) = set_up c (configured cs)

  -- What the newest call of each kind says.
  unfoldable pub newest_handler : Text → List (RouterCall H) → Option (Handler H)
  newest_handler e [] = none
  newest_handler e (registering e' f ∷ cs) =
      let rest = newest_handler e cs in if text_eq e' e then some f else rest
  newest_handler e (_ ∷ cs) = newest_handler e cs

  unfoldable pub newest_fallback : List (RouterCall H) → Option (Handler H)
  newest_fallback [] = none
  newest_fallback (setting_fallback f ∷ cs) = some f
  newest_fallback (_ ∷ cs) = newest_fallback cs

  unfoldable pub newest_behavior : List (RouterCall H) → UnknownEventTypeBehavior
  newest_behavior [] = unknown_event_type_error
  newest_behavior (setting_behavior b ∷ cs) = b
  newest_behavior (_ ∷ cs) = newest_behavior cs

  handlers-configured :
      (e : Text) (cs : List (RouterCall H))
      → lookup e (configured cs).handlers ≡ newest_handler e cs
  unfolding configured set_up new_event_type_router register_handler set_fallback
      set_unknown_event_type_behavior newest_handler lookup
  handlers-configured e [] = refl
  handlers-configured e (registering e' f ∷ cs) =
      lookup-put e' e f (configured cs).handlers
      ∙ ap (λ rest. if text_eq e' e then some f else rest) (handlers-configured e cs)
  handlers-configured e (setting_fallback f ∷ cs) = handlers-configured e cs
  handlers-configured e (setting_behavior b ∷ cs) = handlers-configured e cs

  fallback-configured : (cs : List (RouterCall H)) → (configured cs).fallback ≡ newest_fallback cs
  unfolding configured set_up new_event_type_router register_handler set_fallback
      set_unknown_event_type_behavior newest_fallback
  fallback-configured [] = refl
  fallback-configured (registering e' f ∷ cs) = fallback-configured cs
  fallback-configured (setting_fallback f ∷ cs) = refl
  fallback-configured (setting_behavior b ∷ cs) = fallback-configured cs

  behavior-configured :
      (cs : List (RouterCall H)) → (configured cs).unknown_event_type_behavior ≡ newest_behavior cs
  unfolding configured set_up new_event_type_router register_handler set_fallback
      set_unknown_event_type_behavior newest_behavior
  behavior-configured [] = refl
  behavior-configured (registering e' f ∷ cs) = behavior-configured cs
  behavior-configured (setting_fallback f ∷ cs) = behavior-configured cs
  behavior-configured (setting_behavior b ∷ cs) = refl

  -- What becomes of a message, by the newest calls of each kind.
  pub data Goes (cs : List (RouterCall H)) (msg : SqsMessage) (h : H) : H × GoError → Type 0 where
    to_handler :
        (f : Handler H) {answer : H × GoError}
        → newest_handler msg.event_type cs ≡ some f
        → answer ≡ f msg h
        → Goes cs msg h answer
    to_fallback :
        (f : Handler H) {answer : H × GoError}
        → newest_handler msg.event_type cs ≡ none
        → newest_fallback cs ≡ some f
        → answer ≡ f msg h
        → Goes cs msg h answer
    ignored :
        {answer : H × GoError}
        → newest_handler msg.event_type cs ≡ none
        → newest_fallback cs ≡ none
        → newest_behavior cs ≡ unknown_event_type_ignore
        → answer ≡ (h, nil)
        → Goes cs msg h answer
    rejected :
        {answer : H × GoError}
        → newest_handler msg.event_type cs ≡ none
        → newest_fallback cs ≡ none
        → newest_behavior cs ≡ unknown_event_type_error
        → answer.0 ≡ h
        → is answer.1 unknown_event_type ≡ true
        → Goes cs msg h answer

  chosen-Goes :
      (cs : List (RouterCall H)) (msg : SqsMessage) (h : H) (a b : Option (Handler H))
      (c : UnknownEventTypeBehavior)
      → newest_handler msg.event_type cs ≡ a
      → newest_fallback cs ≡ b
      → newest_behavior cs ≡ c
      → Goes cs msg h (chosen a b c msg h)
  unfolding is
  chosen-Goes cs msg h (some f) b c e₁ e₂ e₃ = Goes.to_handler f e₁ refl
  chosen-Goes cs msg h none (some f) c e₁ e₂ e₃ = Goes.to_fallback f e₁ e₂ refl
  chosen-Goes cs msg h none none unknown_event_type_ignore e₁ e₂ e₃ = Goes.ignored e₁ e₂ e₃ refl
  chosen-Goes cs msg h none none unknown_event_type_error e₁ e₂ e₃ =
      Goes.rejected e₁ e₂ e₃ refl (same_sentinel_refl unknown_event_type)

  -- However a router was set up, a message goes to the handler last registered for its event type; else to the
  -- fallback last set; else, if the behaviour last set is to ignore it, it is answered with nil, and otherwise, as
  -- without any setting, with `ErrUnknownEventType`.
  pub route-configured :
      (cs : List (RouterCall H)) (msg : SqsMessage) (h : H)
      → Goes cs msg h (route (configured cs) msg h)
  unfolding route
  route-configured cs msg h =
      chosen-Goes cs msg h _ _ _ (sym (handlers-configured msg.event_type cs))
        (sym (fallback-configured cs)) (sym (behavior-configured cs))
