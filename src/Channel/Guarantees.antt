-- ===== src/Channel/Guarantees.antt =====
-- What a client of `acquire` of crates/uf-daemon/src/transfer_channel.rs may rely on.
use uflow.Prelude.{ℕ, ◌+◌, ◌<◌, ◌≡◌, ◌≢◌, true, length, u64_mod}
use uflow.Channel.State.{TransferDirection, ManagerState, Env}
use uflow.Channel.Acquire.{Inputs, LaneLeaseInfo, Outcome, leased, waits, again, acquire}
use uflow.Channel.Lanes.{any_busy}
use uflow.Channel.Leases.{Leases, IsExact}
use uflow.Channel.Safety.{Good}
use uflow.Channel.Passes.{Fits, AfterAcquire, acquire-AfterAcquire}

module _ (env : Env) (inputs : ℕ → Inputs) (fuel : ℕ) (s : ManagerState) (d : TransferDirection)
    (device bytes_hint : ℕ) (exact : (n : ℕ) → IsExact (inputs n)) (fits : Fits env d bytes_hint)
    (enough : length s.lanes < fuel) (ids : s.next_lane_id + 1 < u64_mod) (good : Good env s) where
  after : (o : Outcome) → acquire env inputs fuel s d device bytes_hint ≡ o → AfterAcquire env s o
  after o e =
      rw⁻¹ e (acquire-AfterAcquire env inputs fuel s d device bytes_hint exact fits enough ids good)

  -- In a good state of the pool, while lane ids last, `acquire` ends: it returns or waits after at most one
  -- pass more than there are lanes, if sizes stay below 2 ^ 64 and ACL pins what it is asked for.
  pub acquire_terminates :
      (t : ManagerState) → acquire env inputs fuel s d device bytes_hint ≢ again t
  unfolding AfterAcquire
  acquire_terminates t e = after (again t) e

  -- In a good state of the pool, with fuel for one pass more than there are lanes, while lane ids last, if sizes
  -- stay below 2 ^ 64 and ACL pins what it is asked for, the lane that `acquire` hands out was free and is held
  -- now, and no other lane changes hands.
  pub acquire-Leases :
      (info : LaneLeaseInfo) (t : ManagerState)
      → acquire env inputs fuel s d device bytes_hint ≡ leased info t
      → Leases info.lane_id s.lanes t.lanes
  unfolding AfterAcquire
  acquire-Leases info t e = (after (leased info t) e).1

  -- In a good state of the pool, with fuel for one pass more than there are lanes, while lane ids last, if sizes
  -- stay below 2 ^ 64 and ACL pins what it is asked for, `acquire` waits only while a client holds a lane of the
  -- pool.
  pub acquire_waits :
      (t : ManagerState)
      → acquire env inputs fuel s d device bytes_hint ≡ waits t
      → any_busy t.lanes ≡ true
  unfolding AfterAcquire
  acquire_waits t e = let (_, _, held) = after (waits t) e in held
