-- ===== src/Engine/Tests/Thread.antt =====
-- A request that arrives before the first of two rounds, and a third that stops the thread.
use mini_llm_runtime.Base.{ℕ, ◌≡◌, true, false, List, [], ◌∷◌}
use mini_llm_runtime.Engine.{Engine}
use mini_llm_runtime.Engine.Action.{returned}
use mini_llm_runtime.Engine.Run.{Round, Ending, run}
use mini_llm_runtime.Engine.Logic.{core, Inv}
use mini_llm_runtime.Engine.Thread.{IsEnded, run-IsVacant}
use mini_llm_runtime.Engine.Tests.{counting_runner, steady_world, some_request, new_engine, new-Inv}

abbrev three_rounds : List Round
three_rounds =
    record { arrivals = some_request ∷ []; stop = false }
    ∷ record { arrivals = []; stop = false }
    ∷ record { arrivals = []; stop = true }
    ∷ []

run-IsVacant_example :
    (ending : Ending) × (after : Engine ℕ) × (run steady_world counting_runner three_rounds
        new_engine
      ≡ (returned ending, after))
    × Inv (core after)
    × IsEnded steady_world counting_runner three_rounds ending (core after)
run-IsVacant_example = run-IsVacant steady_world counting_runner three_rounds new_engine new-Inv tt
