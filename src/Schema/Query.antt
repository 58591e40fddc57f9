-- ===== src/Schema/Query.antt =====
-- What the generated Prisma client runs. A query is its documented effect on the tables: it is
-- done with an answer, or the schema refuses it. The effect of each query that the program builds
-- is written beside its use; `External.Prisma` says how the client may run one.
use mzl_payment_app.Common.{Option, none, some, List, [], ◌∷◌}
use mzl_payment_app.Schema.Tables.{Tables}

-- A unique index, the CHECK `non_negative_balance` of the migration, a row that is not there.
pub data Violation : Type 0 where
  unique check missing : Violation

pub data Outcome (F : Type 0) (A : Type 0) : Type 0 where
  done : A → Tables F → Outcome F A
  violates : Violation → Outcome F A

abbrev pub Query : Type 0 → Type 0 → Type 0
Query F A = Tables F → Outcome F A

module _ {F : Type 0} where
  -- `Prisma.Transaction(ops…)`: the operations in order, or none of them.
  unfoldable pub transaction : List (Query F (Unit {0})) → Query F (Unit {0})
  transaction [] t = done tt t
  transaction (op ∷ ops) t = elim (op t) [
    | done _ t' ↦ transaction ops t'
    | violates v ↦ violates v
  ]

  -- A `FindUnique` or a `FindFirst`: `q` is what its filter finds.
  abbrev pub find_query : {A : Type 0} → (Tables F → Option A) → Query F (Option A)
  find_query q t = elim (q t) [ none ↦ violates missing | some a ↦ done (some a) t ]

  -- A `FindMany`
  abbrev pub many_query : {A : Type 0} → (Tables F → A) → Query F A
  many_query q t = done (q t) t
