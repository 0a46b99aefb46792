-- ===== src/Scheduler/Order.antt =====
-- The order in which items are served: by effective priority, then by arrival. Waiting raises the
-- effective priority without bound.
use mini_llm_runtime.Base.{
  ℕ, ◌+◌, ◌*◌, ◌/◌, ◌≤◌, ◌<◌, ◌≡◌, ◌≢◌, ap, true, false, arith, ℤ, pos, pos_part, neg_part, ◌+ℤ◌,
  div_ℤ, ◌≤ℤ◌,
}
use mini_llm_runtime.Scheduler.{ScheduleItem, effective_priority, before}

abbrev pub rank : ℤ → ScheduleItem → ℤ
rank aging x = effective_priority x.priority x.wait_ms aging

pub before_irrefl : (aging : ℤ) (x : ScheduleItem) → before aging x x ≡ false
unfolding before
before_irrefl aging x = ground arith

pub before_asym :
    (aging : ℤ) (x y : ScheduleItem) → before aging x y ≡ true → before aging y x ≡ false
unfolding before
before_asym aging x y h = ground arith

pub before_neg_trans :
    (aging : ℤ) (x y z : ScheduleItem)
    → before aging y x ≡ false
    → before aging z y ≡ false
    → before aging z x ≡ false
unfolding before
before_neg_trans aging x y z h k = ground arith

-- Two items with different arrival numbers are always ordered one way.
pub before_total :
    (aging : ℤ) (x y : ScheduleItem)
    → x.order ≢ y.order
    → before aging x y ≡ false
    → before aging y x ≡ true
unfolding before
before_total aging x y ne h = ground arith

le-div : (d m n : ℕ) → 0 < d → d * m ≤ n → m ≤ n / d
le-div d m n h k = grind arith

rank_lem :
    (aging waited p : ℕ) (x : ScheduleItem)
    → x.priority ≡ pos p
    → x.wait_ms ≡ pos waited
    → rank (pos aging) x ≡ pos (p + waited / aging)
unfolding effective_priority div_ℤ ◌+ℤ◌
rank_lem aging waited p x e w = rw (e, w) (ground arith)

before_of_rank :
    (aging : ℤ) (x y : ScheduleItem) (m n : ℕ)
    → rank aging x ≡ pos m
    → rank aging y ≤ℤ pos n
    → n < m
    → before aging x y ≡ true
unfolding before
before_of_rank aging x y m n e b h = ground (arith, ap pos_part e, ap neg_part e)

-- No starvation: with a positive aging interval, an item of priority zero or more that has waited
-- for `aging * (n + 1)` milliseconds comes before every item whose effective priority is at most
-- `n`.
pub before_aged :
    (aging n waited p : ℕ) (x y : ScheduleItem)
    → 0 < aging
    → x.priority ≡ pos p
    → x.wait_ms ≡ pos waited
    → aging * (n + 1) ≤ waited
    → rank (pos aging) y ≤ℤ pos n
    → before (pos aging) x y ≡ true
before_aged aging n waited p x y h e w enough bound =
    before_of_rank (pos aging) x y (p + waited / aging) n (rank_lem aging waited p x e w) bound
      (omega (arith, le-div aging (n + 1) waited h enough))
