-- ===== src/Channel/Holders.antt =====
-- The clients that hold lanes of the pool of crates/uf-daemon/src/transfer_channel.rs, in a run.
use uflow.Prelude.{
  ℕ, ◌+◌, ◌≤◌, ◌<◌, ◌≡◌, refl, sym, ◌∙◌, List, [], ◌∷◌, false, ◌==◌, if◌then◌else◌, length, arith,
  inl, inr, u64_mod, Bool-cases,
}
use uflow.Channel.State.{TransferDirection, TransferLane, ManagerState, Env, count_direction}
use uflow.Channel.Acquire.{
  Inputs, Outcome, leased, refused, waits, again, acquire, release, release_lane,
}
use uflow.Channel.Lanes.{is_leased, all_bytes, IsOrdered}
use uflow.Channel.Shrinks.{reap_expired-Shrinks}
use uflow.Channel.Leases.{IsExact, is_leased-release}
use uflow.Channel.Safety.{Good, Good-Shrinks}
use uflow.Channel.Passes.{Fits, AfterAcquire, acquire-AfterAcquire}
use uflow.Channel.Pool.{
  Event, acquires, releases, looks, holds, without, IsDistinct, after_acquire, step, run, Holds,
}
use uflow.Channel.Ids.{next_after, next_after-acquire}

pub holds-without :
    (id j : ℕ) (held : List ℕ)
    → holds j (without id held) ≡ (if j == id then false else holds j held)
holds-without id j [] = ground arith
holds-without id j (h ∷ hs) = ground (arith, holds-without id j hs)

IsDistinct-without : (id : ℕ) (held : List ℕ) → IsDistinct held → IsDistinct (without id held)
IsDistinct-without id [] u = tt
IsDistinct-without id (h ∷ hs) (new, u) = elim (Bool-cases (h == id)) [
  | inl same ↦ rw same (IsDistinct-without id hs u)
  | inr other ↦ rw other (ground (arith, holds-without id h hs), IsDistinct-without id hs u)
]

-- Releasing a lane moves no lane and changes no size.
Good-release :
    (env : Env) (s : ManagerState) (id now : ℕ) → Good env s → Good env (release s id now)
unfolding release release_lane IsOrdered all_bytes count_direction
Good-release env s id now g = record {
  ordered = order s.lanes 0 s.next_lane_id g.ordered;
  in_budget = ground (arith, g.in_budget, bytes s.lanes);
  in_lanes = λ d. ground (arith, g.in_lanes d, count d s.lanes);
}
  where
    order :
        (lanes : List TransferLane) (low high : ℕ)
        → IsOrdered low lanes high
        → IsOrdered low (release_lane id now lanes) high
    order [] low high o = o
    order (x ∷ xs) low high o = elim (Bool-cases (x.lane_id == id)) [
      | inl here ↦ rw here o
      | inr later ↦ rw later (o.0, order xs (x.lane_id + 1) high o.1)
    ]

    bytes : (lanes : List TransferLane) → all_bytes (release_lane id now lanes) ≡ all_bytes lanes
    bytes [] = refl
    bytes (x ∷ xs) = ground (arith, bytes xs)

    count :
        (d : TransferDirection) (lanes : List TransferLane)
        → count_direction d (release_lane id now lanes) ≡ count_direction d lanes
    count d [] = refl
    count d (x ∷ xs) = ground (arith, count d xs)

pub free_of_release :
    (s : ManagerState) (id now j : ℕ)
    → IsOrdered 0 s.lanes s.next_lane_id
    → is_leased j (release s id now).lanes ≡ (if j == id then false else is_leased j s.lanes)
unfolding release
free_of_release s id now j o = is_leased-release 0 s.next_lane_id id now j s.lanes o

module _ (env : Env) (fits : (d : TransferDirection) (bytes_hint : ℕ) → Fits env d bytes_hint) where
  pub Holds-after_acquire :
      (s : ManagerState) (held : List ℕ) (o : Outcome)
      → Holds env s held
      → AfterAcquire env s o
      → Holds env (after_acquire held o).0 (after_acquire held o).1
  unfolding AfterAcquire
  Holds-after_acquire s held (leased info t) h (g, l) = record {
    good = g;
    distinct = (sym (h.marked info.lane_id) ∙ l.was_free, h.distinct);
    marked = λ id. ground (arith, l.is_held, l.others id, h.marked id);
  }
  Holds-after_acquire s held (refused detail t) h (g, same) = record {
    good = g;
    distinct = h.distinct;
    marked = λ id. same id ∙ h.marked id;
  }
  Holds-after_acquire s held (waits t) h (g, same, _) = record {
    good = g;
    distinct = h.distinct;
    marked = λ id. same id ∙ h.marked id;
  }
  Holds-after_acquire s held (again t) h a = elim a [ ]

  pub Holds-step :
      (inputs : ℕ → Inputs) (s : ManagerState) (held : List ℕ) (e : Event)
      → ((n : ℕ) → IsExact (inputs n))
      → s.next_lane_id + 1 < u64_mod
      → Holds env s held
      → Holds env (step env inputs s held e).0 (step env inputs s held e).1
  unfolding step
  Holds-step inputs s held (acquires d device bytes_hint) exact ids h =
      Holds-after_acquire s held _ h (
        acquire-AfterAcquire env inputs (length s.lanes + 1) s d device bytes_hint exact
          (fits d bytes_hint) (omega arith) ids h.good)
  Holds-step inputs s held (releases lane_id now) exact ids h = record {
    good = Good-release env s lane_id now h.good;
    distinct = IsDistinct-without lane_id held h.distinct;
    marked = λ id. ground (
      arith,
      free_of_release s lane_id now id h.good.ordered,
      holds-without lane_id id held,
      h.marked id,
    );
  }
  Holds-step inputs s held (looks now) exact ids h =
      let (p, is) = reap_expired-Shrinks env now s in
      record {
        good = Good-Shrinks env s _ h.good p is;
        distinct = h.distinct;
        marked = λ id. p.kept_leases id ∙ h.marked id;
      }

  pub next-step :
      (inputs : ℕ → Inputs) (s : ManagerState) (held : List ℕ) (e : Event)
      → (step env inputs s held e).0.next_lane_id ≤ s.next_lane_id + 1
  unfolding step release
  next-step inputs s held (acquires d device bytes_hint) =
      rw (of_outcome held (acquire env inputs (length s.lanes + 1) s d device bytes_hint))
        (next_after-acquire env inputs (length s.lanes + 1) s d device bytes_hint)
    where
      of_outcome :
          (held : List ℕ) (o : Outcome) → (after_acquire held o).0.next_lane_id ≡ next_after o
      of_outcome held (leased info t) = refl
      of_outcome held (refused detail t) = refl
      of_outcome held (waits t) = refl
      of_outcome held (again t) = refl
  next-step inputs s held (releases lane_id now) = omega arith
  next-step inputs s held (looks now) = omega (arith, (reap_expired-Shrinks env now s).1)

  -- Whatever the clients do from a state where the lanes marked busy are those that are held, each once,
  -- it stays so, and the limits are kept, while the ids last, sizes stay below 2 ^ 64 and ACL pins as many bytes
  -- as it is asked for.
  pub run-Holds :
      (inputs : ℕ → ℕ → Inputs) (es : List Event) (s : ManagerState) (held : List ℕ)
      → ((m n : ℕ) → IsExact (inputs m n))
      → s.next_lane_id + length es < u64_mod
      → Holds env s held
      → Holds env (run env inputs es s held).0 (run env inputs es s held).1
  unfolding run
  run-Holds inputs [] s held exact ids h = h
  run-Holds inputs (e ∷ es) s held exact ids h =
      run-Holds inputs es _ _ exact (omega (arith, ids, next-step (inputs (length es)) s held e))
        (Holds-step (inputs (length es)) s held e (exact (length es)) (omega (arith, ids)) h)
