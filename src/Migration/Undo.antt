-- ===== src/Migration/Undo.antt =====
-- The downgrade takes back the upgrade, whatever database carries them out.
use agentic_ai.Base.{
  Bool, true, false, ◌≡◌, refl, sym, ◌∙◌, ap, Option, none, some, some_inj, List, [], ◌∷◌, ◌++◌,
  arith, Option-cases, inl, inr,
}
use agentic_ai.Base.Lists.{All}
use agentic_ai.Migration.{
  Operation, create_table, create_index, drop_index, drop_table, upgrade, downgrade,
}

abbrev pub is_creation : Operation → Bool
is_creation (create_table name columns constraints) = true
is_creation (create_index name table column) = true
is_creation _ = false

-- The operation that drops what a creation creates.
abbrev pub inverse : Operation → Operation
inverse (create_table name columns constraints) = drop_table name
inverse (create_index name table column) = drop_index name table
inverse drop = drop

-- A database: its schemas, and what an operation makes of one, if it does not fail. The law is what
-- databases promise of a creation: to drop what was just created gives back what was there.
pub record Database : Type 1 where
  pub Schema : Type 0
  pub apply : Operation → Schema → Option Schema
  pub drops :
      (o : Operation) (s t : Schema)
      → is_creation o ≡ true
      → apply o s ≡ some t
      → apply (inverse o) t ≡ some s

-- The inverses in reverse order.
abbrev undo : List Operation → List Operation
undo [] = []
undo (o ∷ os) = undo os ++ inverse o ∷ []

module _ (d : Database) where
  open d use {Schema, apply, drops}

  -- The operations one after the other, up to the first that fails.
  unfoldable pub run_all : List Operation → Schema → Option Schema
  run_all [] s = some s
  run_all (o ∷ os) s = elim (apply o s) [ none ↦ none | some t ↦ run_all os t ]

  -- The first operation of a run that succeeds, and the rest of it.
  run_all_first :
      (o : Operation) (os : List Operation) (s t : Schema)
      → run_all (o ∷ os) s ≡ some t
      → (v : Schema) × (apply o s ≡ some v) × (run_all os v ≡ some t)
  unfolding run_all
  run_all_first o os s t h = elim (Option-cases (apply o s)) [
    | inl e ↦ absurd (ground (arith, e, h))
    | inr (v, e) ↦ (v, e, ground (arith, e, h))
  ]

  run_all_one : (o : Operation) (s t : Schema) → apply o s ≡ some t → run_all (o ∷ []) s ≡ some t
  unfolding run_all
  run_all_one o s t e = ground (arith, e)

  run_all-append :
      (os us : List Operation) (s t : Schema)
      → run_all os s ≡ some t
      → run_all (os ++ us) s ≡ run_all us t
  unfolding run_all
  run_all-append [] us s t h = ap (run_all us) (some_inj h)
  run_all-append (o ∷ os) us s t h =
      let (v, e, rest) = run_all_first o os s t h in rw e (run_all-append os us v t rest)

  undo_every :
      (os : List Operation) (s t : Schema)
      → All (λ o. is_creation o ≡ true) os
      → run_all os s ≡ some t
      → run_all (undo os) t ≡ some s
  unfolding run_all
  undo_every [] s t creates h = sym h
  undo_every (o ∷ os) s t creates h =
      let (v, made, rest) = run_all_first o os s t h in
      run_all-append (undo os) (inverse o ∷ []) t v (undo_every os v t creates.1 rest)
      ∙ run_all_one (inverse o) v s (drops o s v creates.0 made)

-- The downgrade drops what the upgrade creates, in reverse order.
downgrade_lem : downgrade ≡ undo upgrade
unfolding upgrade downgrade
downgrade_lem = refl

upgrade-creates : All (λ o. is_creation o ≡ true) upgrade
unfolding upgrade
upgrade-creates = ground arith

-- On every database on which the upgrade succeeds, the downgrade after it succeeds and gives back
-- the schema that there was.
pub downgrade-upgrade :
    (d : Database) (s t : d.Schema) → run_all d upgrade s ≡ some t → run_all d downgrade t ≡ some s
downgrade-upgrade d s t h =
    ap (λ us. run_all d us t) downgrade_lem ∙ undo_every d upgrade s t upgrade-creates h
