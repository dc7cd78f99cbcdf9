-- ===== src/Execute/Ends.antt =====
-- The execution of statements ends, by returning.
use arrow_adbc.Base.{ℕ, ◌≡◌, ◌≢◌, Bool, true, Option}
use arrow_adbc.Platform.{Platform}
use arrow_adbc.Engine.{ResultCode}
use arrow_adbc.Params.{Binder}
use arrow_adbc.Library.{Library}
use arrow_adbc.Statement.{Statement}
use arrow_adbc.Execute.{StatementCalls, Executed, returned, undefined, unfinished}

-- A statement that yields no rows.
abbrev pub IsQuiet : (l : Library) → Option l.Stmt → Type 0
IsQuiet l stmt = (w : l.World) → (l.step_statement stmt w).0 ≢ ResultCode.row

module _ (p : Platform) (l : Library) (calls : StatementCalls p.Double l) (view_init : ℕ → Bool)
    (readable : (n : ℕ) → view_init n ≡ true) where
  open p use {Double}
  open l use {World, Stmt}

  -- The call returned, within its rounds and without an access that C leaves undefined.
  abbrev pub IsReturned : Executed p l calls view_init → Type 0
  IsReturned (returned status affected reader s w) = Unit
  IsReturned undefined = ⊥
  IsReturned unfinished = ⊥
