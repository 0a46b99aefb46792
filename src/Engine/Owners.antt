-- ===== src/Engine/Owners.antt =====
-- Who holds a sequence in a balanced engine.
use mini_llm_runtime.Base.{ℕ, ◌<◌, ◌≡◌, false, some, arith, get_elem?, total-ge}
use mini_llm_runtime.Engine.{Active}
use mini_llm_runtime.Engine.Balance.{uses}
use mini_llm_runtime.Engine.Logic.{Core, Inv}

-- The sequence of a request that is not done is one of a request.
pub sequence-lt :
    (c : Core)
    → Inv c
    → (i : ℕ) (x : Active) → get_elem? c.active i ≡ some x
    → x.done ≡ false
    → x.sequence < c.config.max_active
sequence-lt c v i x here going =
    let once : uses x.sequence x ≡ 1 = ground (arith, going) in
    ground (arith, v.sequences x.sequence, total-ge (uses x.sequence) c.active i x here, once)
