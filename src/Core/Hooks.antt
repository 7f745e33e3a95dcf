-- ===== src/Core/Hooks.antt =====
-- core/hooks.go: the callbacks of the dispatchers. A callback is modelled by whether it panics; what
-- a call leaves behind is a list of notes, so that calls and their order can be observed. Durations
-- are left out.
use o4x.Prelude.{ℕ, Bool, Option, none, some, List, [], ◌∷◌, if◌then◌else◌}
use o4x.Core.Errors.{GoError}
use o4x.Core.Model.{Outbox}

-- A call of a hook with its arguments.
pub data HookCall : Type 0 where
  publish_start : Outbox → HookCall
  publish_success : Outbox → HookCall
  publish_failure : Outbox → GoError → Bool → HookCall
  message_dead : Outbox → GoError → HookCall
  batch_publish_start : List Outbox → HookCall
  batch_publish_complete : ℕ → ℕ → HookCall
  partial_batch_success : ℕ → ℕ → HookCall

-- What is seen of a call: the callback ran, or its panic was recovered and logged.
pub data HookNote : Type 0 where
  ran : HookCall → HookNote
  recovered : HookCall → HookNote

-- Each field is the callback, if one is set: from its arguments, whether it panics.
pub record Hooks : Type 0 where
  pub on_publish_start : Option (Outbox → Bool)
  pub on_publish_success : Option (Outbox → Bool)
  pub on_publish_failure : Option (Outbox → GoError → Bool → Bool)
  pub on_message_dead : Option (Outbox → GoError → Bool)
  pub on_batch_publish_start : Option (List Outbox → Bool)
  pub on_batch_publish_complete : Option (ℕ → ℕ → Bool)
  pub on_partial_batch_success : Option (ℕ → ℕ → Bool)

-- The deferred `recover` around a callback.
abbrev pub guarded : Bool → HookCall → List HookNote
guarded panics c = if panics then recovered c ∷ [] else ran c ∷ []

-- `h` is `none` where the `*Hooks` is nil.
unfoldable pub call_on_publish_start : Option Hooks → Outbox → List HookNote
call_on_publish_start none msg = []
call_on_publish_start (some h) msg = elim (h.on_publish_start) [
  | none ↦ []
  | some f ↦ guarded (f msg) (publish_start msg)
]

unfoldable pub call_on_publish_success : Option Hooks → Outbox → List HookNote
call_on_publish_success none msg = []
call_on_publish_success (some h) msg = elim (h.on_publish_success) [
  | none ↦ []
  | some f ↦ guarded (f msg) (publish_success msg)
]

unfoldable pub call_on_publish_failure : Option Hooks → Outbox → GoError → Bool → List HookNote
call_on_publish_failure none msg e retryable = []
call_on_publish_failure (some h) msg e retryable = elim (h.on_publish_failure) [
  | none ↦ []
  | some f ↦ guarded (f msg e retryable) (publish_failure msg e retryable)
]

unfoldable pub call_on_message_dead : Option Hooks → Outbox → GoError → List HookNote
call_on_message_dead none msg e = []
call_on_message_dead (some h) msg e = elim (h.on_message_dead) [
  | none ↦ []
  | some f ↦ guarded (f msg e) (message_dead msg e)
]

unfoldable pub call_on_batch_publish_start : Option Hooks → List Outbox → List HookNote
call_on_batch_publish_start none msgs = []
call_on_batch_publish_start (some h) msgs = elim (h.on_batch_publish_start) [
  | none ↦ []
  | some f ↦ guarded (f msgs) (batch_publish_start msgs)
]

unfoldable pub call_on_batch_publish_complete : Option Hooks → ℕ → ℕ → List HookNote
call_on_batch_publish_complete none done bad = []
call_on_batch_publish_complete (some h) done bad = elim (h.on_batch_publish_complete) [
  | none ↦ []
  | some f ↦ guarded (f done bad) (batch_publish_complete done bad)
]

unfoldable pub call_on_partial_batch_success : Option Hooks → ℕ → ℕ → List HookNote
call_on_partial_batch_success none expected actual = []
call_on_partial_batch_success (some h) expected actual = elim (h.on_partial_batch_success) [
  | none ↦ []
  | some f ↦ guarded (f expected actual) (partial_batch_success expected actual)
]
