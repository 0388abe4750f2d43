-- ===== src/Db/Connections.antt =====
-- Calls after taking a connection of the pool.
use mercado.Prelude.{inl, inr}
use mercado.Prelude.Exec.{Exec, map_error, ◌>>◌}
use mercado.Errors.{StorageError}
use mercado.Prelude.Results.{Result, err, Result-cases}

-- A call after taking a connection: the pool answers, or the call ends in an error.
pub with_connection :
    {W A : Type 0} (P : Result StorageError A × W → Type 0)
    (pool_get : Exec W (Unit {0}) (Unit {0})) (call : Exec W StorageError A) (w : W)
    → P (err StorageError.database_connection_error, (pool_get w).1)
    → P (call (pool_get w).1)
    → P ((map_error (λ _. StorageError.database_connection_error) pool_get >> call) w)
with_connection P pool_get call w failed connected = elim (Result-cases (pool_get w).0) [
  | inr (e, h) ↦ rw h failed
  | inl (x, h) ↦ rw h connected
]
