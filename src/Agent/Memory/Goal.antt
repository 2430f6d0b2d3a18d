-- ===== src/Agent/Memory/Goal.antt =====
-- GoalTracker.update (protoprompt/agent/goal.py), which WorkingMemory.set_goal calls.
use protoprompt.Prelude.{◌≡◌, Option, none, some, [], Text, if◌then◌else◌, arith}
use protoprompt.PyText.{is_empty}
use protoprompt.Agent.Memory.{Config, Memory}

-- GoalTracker.update: the vector of the new goal, if there is a client and a text
pub goal_vector : {Vec S : Type 0} → Config Vec S → Text → Option Vec
goal_vector c text = elim c.embed [
  | none ↦ none
  | some f ↦ if is_empty text then none else some (f text)
]

-- WorkingMemory.set_goal
pub set_goal : {Vec S : Type 0} → Config Vec S → Text → Memory Vec → Memory Vec
unfolding goal_vector
set_goal c text s = record s { goal = goal_vector c text; goal_text = text }

-- A goal without a text leaves no vector of an older goal behind.
set_goal-nothing :
    {Vec S : Type 0} (c : Config Vec S) (s : Memory Vec) → (set_goal c [] s).goal ≡ none
unfolding set_goal
set_goal-nothing c s = ground arith
