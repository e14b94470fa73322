-- ===== src/Tests/Migration.antt =====
-- The migration on a database that keeps what was created, the last first, and drops only the last.
use agentic_ai.Base.{
  ◌≡◌, refl, Option, none, some, List, [], ◌∷◌, ◌==◌, eq_refl, arith, if◌then◌else◌, true,
}
use agentic_ai.Migration.{
  Operation, create_table, create_index, drop_index, drop_table, upgrade, downgrade,
}
use agentic_ai.Migration.Undo.{Database, inverse, is_creation, run_all, downgrade-upgrade}

abbrev step : Operation → List Operation → Option (List Operation)
step (create_table name columns constraints) s = some (create_table name columns constraints ∷ s)
step (create_index name table column) s = some (create_index name table column ∷ s)
step (drop_table name) (create_table made columns constraints ∷ s) =
    if made == name then some s else none
step (drop_index name table) (create_index made of column ∷ s) =
    if made == name then some s else none
step drop s = none

step_drops :
    (o : Operation) (s t : List Operation)
    → is_creation o ≡ true
    → step o s ≡ some t
    → step (inverse o) t ≡ some s
step_drops (create_table name columns constraints) s t h e = ground (arith, e, eq_refl name)
step_drops (create_index name table column) s t h e = ground (arith, e, eq_refl name)
step_drops (drop_table name) s t h e = cc
step_drops (drop_index name table) s t h e = cc

abbrev stack : Database
stack = record { Schema = List Operation; apply = step; drops = step_drops }

abbrev upgraded : List Operation
upgraded = made upgrade []
  where
    made : List Operation → List Operation → List Operation
    made [] s = s
    made (o ∷ os) s = made os (o ∷ s)

stack_takes : run_all stack upgrade [] ≡ some upgraded
unfolding run_all upgrade
stack_takes = refl

downgrade-upgrade_example : run_all stack downgrade upgraded ≡ some []
downgrade-upgrade_example = downgrade-upgrade stack [] upgraded stack_takes
