-- ===== src/Health/Examples.antt =====
-- Five failures in a row, and failures that a success interrupts.
use timberdoodle.Base.{◌+◌, String, ◌≡◌, refl, true, List, [], ◌∷◌, leb}
use timberdoodle.Base.Dict.{text_key}
use timberdoodle.Health.{record_failure, is_disabled}
use timberdoodle.Health.History.{
  Event, failed, succeeded, streak, tripped, replay, history_of, is_disabled_iff_tripped,
}

-- Latest first.
abbrev events : List (String × Event)
events =
    ("hook", failed "timeout")
    ∷ ("other", succeeded)
    ∷ ("hook", succeeded)
    ∷ ("hook", failed "refused")
    ∷ ("hook", failed "refused")
    ∷ ("other", failed "refused")
    ∷ ("hook", failed "refused")
    ∷ ("hook", failed "refused")
    ∷ ("hook", failed "refused")
    ∷ []

-- The success reset the count and left the webhook disabled.
stays_disabled : tripped 5 (history_of "hook" events) ≡ true
stays_disabled = refl

is_disabled_iff_tripped_example :
    (is_disabled (replay 5 events) "hook" ≡ tripped 5 (history_of "hook" events))
    × ((record_failure 5 (replay 5 events) "hook" "timeout").1
        ≡ leb 5 (streak (history_of "hook" events) + 1))
is_disabled_iff_tripped_example = is_disabled_iff_tripped 5 events "hook" "timeout"
