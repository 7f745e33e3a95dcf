-- ===== src/Core/Chains.antt =====
-- core/errors.go: how wrapping changes the answers of `IsRetryable` and `errors.Is`.
use o4x.Prelude.{◌≡◌, refl, ◌≢◌, Bool, true, false, List, [], ◌∷◌, Text, arith}
use o4x.Core.Errors.{
  GoError, nil, wrapped, permanent, transient, publish_error, is_retryable, as_retryable,
}

-- One layer around a cause.
pub data Layer : Type 0 where
  wrap : Text → Text → Layer
  permanent_layer transient_layer : Layer
  publish_layer : Text → Text → Layer

abbrev pub put_on : Layer → GoError → GoError
put_on (wrap m n) c = wrapped m c n
put_on permanent_layer c = permanent c
put_on transient_layer c = transient c
put_on (publish_layer i e) c = publish_error i e c

-- `errors` of several layers, the outermost first.
abbrev pub put_all : List Layer → GoError → GoError
put_all [] c = c
put_all (l ∷ ls) c = put_on l (put_all ls c)

-- What the outermost `PermanentError` or `TransientError` decides, else the inner answer.
abbrev pub decided_by : List Layer → Bool → Bool
decided_by [] b = b
decided_by (wrap m n ∷ ls) b = decided_by ls b
decided_by (permanent_layer ∷ ls) b = false
decided_by (transient_layer ∷ ls) b = true
decided_by (publish_layer i e ∷ ls) b = decided_by ls b

put_all-ne-nil : (ls : List Layer) (c : GoError) → c ≢ nil → put_all ls c ≢ nil
put_all-ne-nil [] c h = h
put_all-ne-nil (wrap m n ∷ ls) c h = λ e. cc
put_all-ne-nil (permanent_layer ∷ ls) c h = λ e. cc
put_all-ne-nil (transient_layer ∷ ls) c h = λ e. cc
put_all-ne-nil (publish_layer i e ∷ ls) c h = λ p. cc

is_retryable-wrapped :
    (m n : Text) (c : GoError) → c ≢ nil → is_retryable (wrapped m c n) ≡ is_retryable c
unfolding is_retryable as_retryable
is_retryable-wrapped m n c h = ground arith

is_retryable-publish_error :
    (i e : Text) (c : GoError) → is_retryable (publish_error i e c) ≡ is_retryable c
unfolding is_retryable as_retryable
is_retryable-publish_error i e c = refl

-- Of a non-nil error under any layers, `IsRetryable` gives what the outermost `PermanentError` or
-- `TransientError` says, and without one what it gives of the error itself.
pub is_retryable-put_all :
    (ls : List Layer) (c : GoError)
    → c ≢ nil
    → is_retryable (put_all ls c) ≡ decided_by ls (is_retryable c)
is_retryable-put_all [] c h = refl
is_retryable-put_all (wrap m n ∷ ls) c h =
    rw (is_retryable-wrapped m n (put_all ls c) (put_all-ne-nil ls c h))
      (is_retryable-put_all ls c h)
is_retryable-put_all (permanent_layer ∷ ls) c h = unfold is_retryable as_retryable in refl
is_retryable-put_all (transient_layer ∷ ls) c h = unfold is_retryable as_retryable in refl
is_retryable-put_all (publish_layer i e ∷ ls) c h =
    rw (is_retryable-publish_error i e (put_all ls c)) (is_retryable-put_all ls c h)
