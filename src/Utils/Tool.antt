-- ===== src/Utils/Tool.antt =====
-- include/utils/Tool.h: a tool that is off, or on with a state.
use structur3d.Prelude.{◌≡◌, refl, Option, none, some, List, [], ◌∷◌}

pub record Tool (T : Type 0) : Type 0 where
  pub state : Option T

module _ {T : Type 0} where
  -- `Tool()`
  unfoldable pub make_tool : Tool T
  make_tool = record { state = none }

  unfoldable pub start : T → Tool T → Tool T
  start initial tool = record { state = some initial }

  unfoldable pub step : (T → T) → Tool T → Tool T
  step handler tool = elim tool.state [
    | none ↦ tool
    | some state ↦ record { state = some (handler state) }
  ]

  unfoldable pub finish : Tool T → Tool T
  finish tool = record { state = none }

  -- All steps in a row.
  abbrev steps : List (T → T) → Tool T → Tool T
  steps [] tool = tool
  steps (handler ∷ handlers) tool = steps handlers (step handler tool)

  abbrev handled : List (T → T) → T → T
  handled [] t = t
  handled (handler ∷ handlers) t = handled handlers (handler t)

  -- Between a start and the finish the state is the first one, put through all handlers in order; a tool
  -- that is off stays off, whatever the steps.
  steps_lem :
      (handlers : List (T → T)) (t : T)
      → ((steps handlers (start t make_tool)).state ≡ some (handled handlers t))
        × ((steps handlers make_tool).state ≡ none)
        × ((steps handlers (finish (start t make_tool))).state ≡ none)
  unfolding make_tool start step finish
  steps_lem [] t = (refl, refl, refl)
  steps_lem (handler ∷ handlers) t =
      let (on, off, finished) = steps_lem handlers (handler t) in (on, off, finished)
