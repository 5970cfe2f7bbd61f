-- ===== src/Scheduler/Strategy/Table.antt =====
-- scheduler/strategy/strategy.go: New and List.
use cattle.Prelude.{ℕ, List, [], ◌∷◌, Option, Text, text, text_eq, find, map, if◌then◌else◌}
use cattle.Scheduler.Strategy.{Sort, Strategy, spread, binpack}
use cattle.Scheduler.Strategy.Shuffle.{random}

pub record NamedStrategy : Type 0 where
  pub strategy_name : Text
  pub rank_and_sort : Strategy

-- init. `Initialize` of the random strategy makes the source of the draws.
unfoldable pub all_strategies : Sort → (ℕ → ℕ) → List NamedStrategy
unfolding spread binpack random
all_strategies sort draw =
    record { strategy_name = text "spread"; rank_and_sort = spread sort }
    ∷ record { strategy_name = text "binpack"; rank_and_sort = binpack sort }
    ∷ record { strategy_name = text "random"; rank_and_sort = random draw }
    ∷ []

-- New, on the table: `none` is ErrNotSupported.
unfoldable pub new_strategy : List NamedStrategy → Text → Option NamedStrategy
unfolding find text_eq
new_strategy table name =
    let name' = if text_eq name (text "binpacking") then text "binpack" else name in
    find (λ (s : NamedStrategy). text_eq s.strategy_name name') table

-- List
unfoldable pub list_strategies : List NamedStrategy → List Text
list_strategies = map (λ (s : NamedStrategy). s.strategy_name)
