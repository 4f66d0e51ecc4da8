-- ===== src/Channel/WithLane.antt =====
-- `TransferChannelManager::with_lane` of crates/uf-daemon/src/transfer_channel.rs, among the calls of other
-- clients: these run while it waits for a lane, and while its transfer runs with the lock given back. The
-- transfer `f` is a parameter that returns; a panic in it is not modelled.
use uflow.Prelude.{ℕ, suc, ◌+◌, List, [], ◌∷◌, Bool, true, not, ◌&&◌, ◌==◌, Result, length}
use uflow.Prelude.Text.{Str}
use uflow.Channel.State.{TransferDirection, ManagerState, Env}
use uflow.Channel.Acquire.{
  Inputs, LaneLeaseInfo, Outcome, leased, refused, waits, again, acquire, release,
}
use uflow.Channel.Pool.{Event, acquires, releases, looks, run, without}

-- The pool, and the lanes that clients hold.
abbrev pub Pool : Type 0
Pool = ManagerState × List ℕ

-- How far a call has come: it still waits, it was refused a lane, or the transfer has answered; then with the
-- pool before and after the lane is given back.
pub data Course {ℓ} (A : Type ℓ) : Type ℓ where
  waiting : Pool → Course A
  failed : Str → Pool → Course A
  done : LaneLeaseInfo → Result Str A → (during after : Pool) → Course A

-- The calls of other clients do not give the lane back: only its holder does.
abbrev pub spares : ℕ → List Event → Bool
spares id [] = true
spares id (acquires d device bytes_hint ∷ es) = spares id es
spares id (releases j now ∷ es) = not (j == id) && spares id es
spares id (looks now ∷ es) = spares id es

-- The answers of ACL and the clock: to the turns of this call, to the calls of others in a batch, and when the
-- lane is given back.
pub record Answers : Type 0 where
  pub own : ℕ → ℕ → Inputs
  pub theirs : ℕ → ℕ → ℕ → Inputs
  pub released_at : ℕ

module _ {ℓ} {A : Type ℓ} (env : Env) (answers : Answers) (f : LaneLeaseInfo → Result Str A)
    (busy : LaneLeaseInfo → List Event) where
  -- After a turn of the loop of `acquire`; `next` goes on where it waits. The others' calls `busy` run while the
  -- transfer does.
  abbrev pub use_lane : (Pool → Course A) → List ℕ → Outcome → Course A
  use_lane next held (leased info t) =
      let during = run env (answers.theirs 0) (busy info) t (info.lane_id ∷ held) in
      done info (f info) during
        (release during.0 info.lane_id answers.released_at, without info.lane_id during.1)
  use_lane next held (refused detail t) = failed detail (t, held)
  use_lane next held (waits t) = next (t, held)
  use_lane next held (again t) = waiting (t, held)

  -- `with_lane`; `wakes` are the others' calls between the wake-ups of `cv.wait`, in batches.
  unfoldable pub with_lane : List (List Event) → Pool → TransferDirection → ℕ → ℕ → Course A
  with_lane [] (s, held) d device bytes_hint =
      use_lane waiting held (acquire env (answers.own 0) (length s.lanes + 1) s d device bytes_hint)
  with_lane (wake ∷ wakes) (s, held) d device bytes_hint =
      use_lane
        (λ p.
          with_lane wakes (run env (answers.theirs (suc (length wakes))) wake p.0 p.1) d device
            bytes_hint)
        held
        (acquire env (answers.own (suc (length wakes))) (length s.lanes + 1) s d device bytes_hint)
