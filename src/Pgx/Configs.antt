-- ===== src/Pgx/Configs.antt =====
-- contrib/pgx/config.go: with which options a repository is built, and what table it uses.
use o4x.Prelude.{
  ◌≡◌, ◌⊎◌, inl, inr, refl, Bool, true, false, ◌&&◌, Option, none, some, List, [], ◌∷◌, Text, codes,
  Bool-cases,
}
use o4x.Core.Int64.{ℤ}
use o4x.Core.TableName.{validate_table_name, valid_table_name_pattern}
use o4x.Core.Regex.{match_string, nullable, deriv, in_class}
use o4x.Pgx.Config.{
  Config, default_config, is_valid, with_outbox_table_name, with_inbox_table_name,
  with_stuck_publishing_threshold, apply_options, applied_to, outbox_fields, inbox_fields,
  OutboxRepositoryFields, InboxRepositoryFields, new_outbox_repository, new_inbox_repository,
}

-- A call of one of the three functions.
pub data ConfigOption : Type 0 where
  outbox_table inbox_table : Text → ConfigOption
  threshold : ℤ → ConfigOption

unfoldable pub option_of : ConfigOption → Option (Config → Config)
option_of (outbox_table name) = with_outbox_table_name name
option_of (inbox_table name) = with_inbox_table_name name
option_of (threshold d) = with_stuck_publishing_threshold d

-- Go evaluates the arguments first: one that panics is the end.
abbrev consed : {A : Type 0} → Option A → Option (List A) → Option (List A)
consed (some a) (some as') = some (a ∷ as')
consed (some a) none = none
consed none o = none

unfoldable pub options_of : List ConfigOption → Option (List (Config → Config))
options_of [] = some []
options_of (o ∷ os) = consed (option_of o) (options_of os)

abbrev built_with :
    {A : Type 0} → (List (Config → Config) → Option A) → Option (List (Config → Config)) → Option A
built_with build none = none
built_with build (some opts) = build opts

module _ {C : Type 0} (pool : C) where
  unfoldable pub build_outbox : List ConfigOption → Option (OutboxRepositoryFields C)
  build_outbox os = built_with (new_outbox_repository pool) (options_of os)

  unfoldable pub build_inbox : List ConfigOption → Option (InboxRepositoryFields C)
  build_inbox os = built_with (new_inbox_repository pool) (options_of os)

-- What the list says, by itself: whether its names are valid, and which names are its last ones.
unfoldable pub names_valid : List ConfigOption → Bool
names_valid [] = true
names_valid (outbox_table name ∷ os) = is_valid name && names_valid os
names_valid (inbox_table name ∷ os) = is_valid name && names_valid os
names_valid (threshold d ∷ os) = names_valid os

unfoldable pub last_outbox_name : Text → List ConfigOption → Text
last_outbox_name name [] = name
last_outbox_name name (outbox_table name' ∷ os) = last_outbox_name name' os
last_outbox_name name (_ ∷ os) = last_outbox_name name os

unfoldable pub last_inbox_name : Text → List ConfigOption → Text
last_inbox_name name [] = name
last_inbox_name name (inbox_table name' ∷ os) = last_inbox_name name' os
last_inbox_name name (_ ∷ os) = last_inbox_name name os

-- Options that did not panic, applied to a configuration.
record IsApplied (os : List ConfigOption) (opts : List (Config → Config)) : Type 0 where
  outbox :
      (c : Config) → (applied_to c opts).outbox_table_name ≡ last_outbox_name c.outbox_table_name os
  inbox :
      (c : Config) → (applied_to c opts).inbox_table_name ≡ last_inbox_name c.inbox_table_name os
  valid_outbox :
      (c : Config)
      → is_valid c.outbox_table_name ≡ true
      → is_valid (applied_to c opts).outbox_table_name ≡ true
  valid_inbox :
      (c : Config)
      → is_valid c.inbox_table_name ≡ true
      → is_valid (applied_to c opts).inbox_table_name ≡ true

options_of_decides :
    (os : List ConfigOption)
    → ((names_valid os ≡ true)
        × (opts : List (Config → Config)) × (options_of os ≡ some opts)
        × IsApplied os opts)
      ⊎ ((names_valid os ≡ false) × (options_of os ≡ none))
unfolding names_valid options_of last_outbox_name last_inbox_name option_of with_outbox_table_name
    with_inbox_table_name with_stuck_publishing_threshold
options_of_decides [] = inl (
  refl,
  [],
  refl,
  record { outbox = λ c. refl; inbox = λ c. refl; valid_outbox = λ c v. v; valid_inbox = λ c v. v },
)
options_of_decides (threshold d ∷ os) = elim (options_of_decides os) [
  | inl (v, opts, e, a) ↦ inl (
    v,
    (λ c. record c { stuck_publishing_threshold = d }) ∷ opts,
    rw e refl,
    record {
      outbox = λ c. a.outbox _;
      inbox = λ c. a.inbox _;
      valid_outbox = λ c v. a.valid_outbox _ v;
      valid_inbox = λ c v. a.valid_inbox _ v;
    },
  )
  | inr (v, e) ↦ inr (v, rw e refl)
]
options_of_decides (outbox_table name ∷ os) = elim (Bool-cases (is_valid name)) [
  | inr bad ↦ inr (rw bad (refl, refl))
  | inl here ↦ elim (options_of_decides os) [
    | inl (v, opts, e, a) ↦ inl (
        rw here (
          v,
          (λ c. record c { outbox_table_name = name }) ∷ opts,
          rw e refl,
          record {
            outbox = λ c. a.outbox _;
            inbox = λ c. a.inbox _;
            valid_outbox = λ c w. a.valid_outbox _ here;
            valid_inbox = λ c w. a.valid_inbox _ w;
          },
        ))
    | inr (v, e) ↦ inr (rw here (v, rw e refl))
  ]
]
options_of_decides (inbox_table name ∷ os) = elim (Bool-cases (is_valid name)) [
  | inr bad ↦ inr (rw bad (refl, refl))
  | inl here ↦ elim (options_of_decides os) [
    | inl (v, opts, e, a) ↦ inl (
        rw here (
          v,
          (λ c. record c { inbox_table_name = name }) ∷ opts,
          rw e refl,
          record {
            outbox = λ c. a.outbox _;
            inbox = λ c. a.inbox _;
            valid_outbox = λ c w. a.valid_outbox _ w;
            valid_inbox = λ c w. a.valid_inbox _ here;
          },
        ))
    | inr (v, e) ↦ inr (rw here (v, rw e refl))
  ]
]

default_names : (is_valid (codes "outbox") ≡ true) × (is_valid (codes "consumer_inbox") ≡ true)
unfolding validate_table_name valid_table_name_pattern match_string nullable deriv in_class
default_names = (refl, refl)

-- Whatever options of the package are given, the repositories are built exactly if every table name among the
-- options is valid, otherwise the process panics; and what is built uses the last name given for its table,
-- or the default, which is always a valid name.
pub build_decides :
    {C : Type 0} (pool : C) (os : List ConfigOption)
    → ((names_valid os ≡ true)
        × (r : OutboxRepositoryFields C) × (build_outbox pool os ≡ some r)
        × (r.table_name ≡ last_outbox_name (codes "outbox") os)
        × (is_valid r.table_name ≡ true)
        × (s : InboxRepositoryFields C) × (build_inbox pool os ≡ some s)
        × (s.table_name ≡ last_inbox_name (codes "consumer_inbox") os)
        × (is_valid s.table_name ≡ true))
      ⊎ ((names_valid os ≡ false) × (build_outbox pool os ≡ none) × (build_inbox pool os ≡ none))
unfolding default_config build_outbox build_inbox new_outbox_repository new_inbox_repository
    apply_options
build_decides pool os = elim (options_of_decides os) [
  | inr (v, e) ↦ inr (v, rw e refl, rw e refl)
  | inl (v, opts, e, a) ↦
      let good = a.valid_outbox default_config default_names.0 in
      let fine = a.valid_inbox default_config default_names.1 in
      inl (
        v,
        outbox_fields pool (apply_options opts),
        rw (e, good) refl,
        a.outbox default_config,
        good,
        inbox_fields pool (apply_options opts),
        rw (e, fine) refl,
        a.inbox default_config,
        fine,
      )
]
