-- ===== src/Channel/Pool.antt =====
-- Runs of the pool of crates/uf-daemon/src/transfer_channel.rs: what its clients do, one call after
-- another under the lock, and the lanes that they hold.
use uflow.Prelude.{ℕ, ◌+◌, ◌≡◌, List, [], ◌∷◌, Bool, false, ◌==◌, ◌||◌, if◌then◌else◌, length}
use uflow.Channel.State.{TransferDirection, ManagerState, Env}
use uflow.Channel.Reap.{reap_expired_lanes}
use uflow.Channel.Acquire.{Inputs, Outcome, leased, refused, waits, again, acquire, release}
use uflow.Channel.Lanes.{is_leased}
use uflow.Channel.Safety.{Good}

pub data Event : Type 0 where
  acquires : TransferDirection → (device bytes_hint : ℕ) → Event
  releases : (lane_id now : ℕ) → Event
  looks : (now : ℕ) → Event

abbrev pub holds : ℕ → List ℕ → Bool
holds id [] = false
holds id (h ∷ hs) = h == id || holds id hs

abbrev pub without : ℕ → List ℕ → List ℕ
without id [] = []
without id (h ∷ hs) = let rest = without id hs in if h == id then rest else h ∷ rest

-- No lane has two holders.
abbrev pub IsDistinct : List ℕ → Type 0
IsDistinct [] = Unit
IsDistinct (h ∷ hs) = (holds h hs ≡ false) × IsDistinct hs

abbrev pub after_acquire : List ℕ → Outcome → ManagerState × List ℕ
after_acquire held (leased info t) = (t, info.lane_id ∷ held)
after_acquire held (refused detail t) = (t, held)
after_acquire held (waits t) = (t, held)
after_acquire held (again t) = (t, held)

-- One call; a client that waits is one that calls `acquire` again later.
unfoldable pub step : Env → (ℕ → Inputs) → ManagerState → List ℕ → Event → ManagerState × List ℕ
step env inputs s held (acquires d device bytes_hint) =
    after_acquire held (acquire env inputs (length s.lanes + 1) s d device bytes_hint)
step env inputs s held (releases lane_id now) = (release s lane_id now, without lane_id held)
step env inputs s held (looks now) = (reap_expired_lanes env now s, held)

-- `inputs` answers by the number of calls that are left.
unfoldable pub run :
    Env → (ℕ → ℕ → Inputs) → List Event → ManagerState → List ℕ → ManagerState × List ℕ
run env inputs [] s held = (s, held)
run env inputs (e ∷ es) s held =
    let next = step env (inputs (length es)) s held e in run env inputs es next.0 next.1

-- The state is as it should be, and the lanes that are held are those that are marked busy.
pub record Holds (env : Env) (s : ManagerState) (held : List ℕ) : Type 0 where
  pub good : Good env s
  pub distinct : IsDistinct held
  pub marked : (id : ℕ) → is_leased id s.lanes ≡ holds id held
