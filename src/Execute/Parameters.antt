-- ===== src/Execute/Parameters.antt =====
-- The names that `SqliteStatementGetParameterSchema` gives.
use arrow_adbc.Base.{ℕ, ◌+◌, ◌<◌, ◌≡◌, Bool, Option, some, List, length, get_elem?}
use arrow_adbc.Platform.{Platform}
use arrow_adbc.Library.{Library}
use arrow_adbc.Statement.{Statement}
use arrow_adbc.Execute.{StatementCalls, parameter_name}

module _ (p : Platform) (l : Library) (calls : StatementCalls p.Double l) (view_init : ℕ → Bool)
    (set : ℕ → Bool) where
  open p use {Double}
  open l use {World, Stmt}

  abbrev pub Named : ℕ → ℕ → Option Stmt → World → List (List ℕ) → Type 0
  Named more i stmt w names =
      (length names ≡ more)
      × ((k : ℕ)
          → k < more
          → get_elem? names k
            ≡ some (
                parameter_name p l calls view_init (i + k)
                  (calls.bind_parameter_name stmt w (i + k + 1))))
