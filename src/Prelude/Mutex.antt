-- ===== src/Prelude/Mutex.antt =====
-- sync.RWMutex: a lock is `none` where it waits for one that is held. A fair lock also makes new
-- readers wait behind a writer; that only delays them.
use Prim.Native.Nat.{ℕ, ◌+◌, ◌-◌}
use mathlib.Core.Bool.{Bool, true, false, ◌||◌}
use mathlib.Core.Option.{Option, none, some}
use go_api_practice.Prelude.Tests.{if◌then◌else◌, ltb}

pub record RwMutex : Type 0 where
  pub readers : ℕ
  pub writer : Bool

unfoldable pub r_lock : RwMutex → Option RwMutex
r_lock m = if m.writer then none else some (record m { readers = m.readers + 1 })

unfoldable pub r_unlock : RwMutex → RwMutex
r_unlock m = record m { readers = m.readers - 1 }

unfoldable pub w_lock : RwMutex → Option RwMutex
w_lock m = if m.writer || ltb 0 m.readers then none else some (record m { writer = true })

unfoldable pub w_unlock : RwMutex → RwMutex
w_unlock m = record m { writer = false }
