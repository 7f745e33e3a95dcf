-- ===== src/Core/Switch.antt =====
-- What `Start`, `Stop` and the two flags of the dispatchers and of the consumer service have in common, as an
-- interface: the flags `running` and `pendingShutdown`, and what an event does to them.
use o4x.Prelude.{◌≡◌, refl, ap, ◌∙◌, Bool, true, false, not, ◌&&◌, ◌||◌, List, [], ◌∷◌}

pub data SwitchKind : Type 0 where
  starts stops neither : SwitchKind

-- A start of something `startable` sets `running`, and a stop clears it.
abbrev pub running_after : SwitchKind → Bool → Bool → Bool
running_after starts startable on = startable || on
running_after stops startable on = false
running_after neither startable on = on

-- A stop of something that runs sets `pendingShutdown`.
abbrev pub pending_after : SwitchKind → Bool → Bool → Bool
pending_after stops on pending = on || pending
pending_after _ on pending = pending

pub record Switch (S E : Type 0) : Type 0 where
  pub is_running : S → Bool
  pub is_pending : S → Bool
  pub startable : S → Bool
  pub on_event : E → S → S
  pub kind : E → SwitchKind
  pub startable_law : (e : E) (s : S) → startable (on_event e s) ≡ startable s
  pub running_law :
      (e : E) (s : S)
      → is_running (on_event e s) ≡ running_after (kind e) (startable s) (is_running s)
  pub pending_law :
      (e : E) (s : S)
      → is_pending (on_event e s) ≡ pending_after (kind e) (is_running s) (is_pending s)

-- By the kinds of the events alone: whether the switch is on at the end, and whether it was ever stopped
-- while it was on.
unfoldable pub ends_on : Bool → Bool → List SwitchKind → Bool
ends_on startable on [] = on
ends_on startable on (k ∷ ks) = ends_on startable (running_after k startable on) ks

unfoldable pub was_ended : Bool → Bool → List SwitchKind → Bool
was_ended startable on [] = false
was_ended startable on (k ∷ ks) =
    pending_after k on false || was_ended startable (running_after k startable on) ks

pending-swap :
    (a : Bool) (k : SwitchKind) (on p : Bool)
    → (a || pending_after k on p) ≡ ((pending_after k on false || a) || p)
pending-swap a starts on p = refl
pending-swap true stops true p = refl
pending-swap true stops false p = refl
pending-swap false stops true p = refl
pending-swap false stops false p = refl
pending-swap a neither on p = refl

module _ {S E : Type 0} (w : Switch S E) where
  abbrev pub kinds : List E → List SwitchKind
  kinds [] = []
  kinds (e ∷ es) = w.kind e ∷ kinds es

  abbrev pub on_all : List E → S → S
  on_all [] s = s
  on_all (e ∷ es) s = on_all es (w.on_event e s)

  pub is_running-on_all :
      (es : List E) (s : S)
      → w.is_running (on_all es s) ≡ ends_on (w.startable s) (w.is_running s) (kinds es)
  unfolding ends_on
  is_running-on_all [] s = refl
  is_running-on_all (e ∷ es) s =
      is_running-on_all es (w.on_event e s)
      ∙ (ap (λ b. ends_on b (w.is_running (w.on_event e s)) (kinds es)) (w.startable_law e s)
          ∙ ap (λ b. ends_on (w.startable s) b (kinds es)) (w.running_law e s))

  pub is_pending-on_all :
      (es : List E) (s : S)
      → w.is_pending (on_all es s)
        ≡ (was_ended (w.startable s) (w.is_running s) (kinds es) || w.is_pending s)
  unfolding was_ended
  is_pending-on_all [] s = refl
  is_pending-on_all (e ∷ es) s =
      is_pending-on_all es (w.on_event e s)
      ∙ (ap
            (λ b.
              was_ended b (w.is_running (w.on_event e s)) (kinds es)
              || w.is_pending (w.on_event e s))
            (w.startable_law e s)
          ∙ (ap (λ b. was_ended (w.startable s) b (kinds es) || w.is_pending (w.on_event e s))
                (w.running_law e s)
              ∙ (ap
                    (λ b.
                      was_ended (w.startable s)
                        (running_after (w.kind e) (w.startable s) (w.is_running s)) (kinds es)
                      || b)
                    (w.pending_law e s)
                  ∙ pending-swap _ (w.kind e) (w.is_running s) (w.is_pending s))))

  or_false : (b : Bool) → (b || false) ≡ b
  or_false true = refl
  or_false false = refl

  -- The health of something that was not pending: on, and never ended.
  pub health-on_all :
      (es : List E) (s : S)
      → w.is_pending s ≡ false
      → (w.is_running (on_all es s) && not (w.is_pending (on_all es s))) ≡ (
          ends_on (w.startable s) (w.is_running s) (kinds es)
          && not (was_ended (w.startable s) (w.is_running s) (kinds es)))
  health-on_all es s fresh =
      ap (λ b. b && not (w.is_pending (on_all es s))) (is_running-on_all es s)
      ∙ ap (λ b. ends_on (w.startable s) (w.is_running s) (kinds es) && not b)
          (is_pending-on_all es s
            ∙ (ap (λ b. was_ended (w.startable s) (w.is_running s) (kinds es) || b) fresh
                ∙ or_false _))
