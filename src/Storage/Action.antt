-- ===== src/Storage/Action.antt =====
-- What a store does in a world that it changes: a value or the exception's class, and the world
-- behind it.
use mexican_banking_monitor.Base.Effects
use mexican_banking_monitor.Storage.Errors.{StoreError}
pub use mexican_banking_monitor.Base.Effects.{
  continue, ◌>>=◌, ◌>>◌, lift, Relates, >>=-Relates, >>=-ok, lift-eq-ok,
}

abbrev pub Action : Type 0 → Type 0 → Type 0
Action = Effects.Action StoreError
