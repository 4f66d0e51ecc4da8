-- ===== src/Channel/Exclusive.antt =====
-- The lane of a client of `with_lane` of crates/uf-daemon/src/transfer_channel.rs is its own while its transfer
-- runs.
use uflow.Prelude.{
  ℕ, suc, ◌+◌, ◌≤◌, ◌<◌, ◌≡◌, ◌≢◌, ◌∙◌, List, [], ◌∷◌, true, false, Result, length, arith, u64_mod,
}
use uflow.Prelude.Text.{Str}
use uflow.Channel.State.{TransferDirection, ManagerState, Env}
use uflow.Channel.Acquire.{Inputs, LaneLeaseInfo, Outcome, leased, refused, waits, again}
use uflow.Channel.Lanes.{is_leased}
use uflow.Channel.Leases.{IsExact}
use uflow.Channel.Passes.{Fits, AfterAcquire, acquire-AfterAcquire}
use uflow.Channel.Pool.{Event, acquires, releases, looks, holds, after_acquire, step, run, Holds}
use uflow.Channel.Ids.{next_after, next_after-acquire}
use uflow.Channel.Holders.{
  holds-without, free_of_release, Holds-after_acquire, Holds-step, next-step, run-Holds,
}
use uflow.Channel.WithLane.{
  Pool, Course, waiting, failed, done, spares, Answers, use_lane, with_lane,
}

-- How many calls the batches have, with a turn of `acquire` for each.
abbrev pub calls : List (List Event) → ℕ
calls [] = 0
calls (w ∷ ws) = 1 + length w + calls ws

-- What other clients do does not take a held lane away.
holds-after_acquire :
    (id : ℕ) (held : List ℕ) (o : Outcome)
    → holds id held ≡ true
    → holds id (after_acquire held o).1 ≡ true
holds-after_acquire id held (leased info t) h = ground (arith, h)
holds-after_acquire id held (refused detail t) h = h
holds-after_acquire id held (waits t) h = h
holds-after_acquire id held (again t) h = h

holds-run :
    (env : Env) (inputs : ℕ → ℕ → Inputs) (id : ℕ) (es : List Event) (s : ManagerState)
    (held : List ℕ)
    → spares id es ≡ true
    → holds id held ≡ true
    → holds id (run env inputs es s held).1 ≡ true
unfolding run step
holds-run env inputs id [] s held spared h = h
holds-run env inputs id (acquires d device bytes_hint ∷ es) s held spared h =
    holds-run env inputs id es _ _ spared (holds-after_acquire id held _ h)
holds-run env inputs id (releases j now ∷ es) s held spared h =
    holds-run env inputs id es _ _ (ground (arith, spared))
      (ground (arith, holds-without j id held, spared, h))
holds-run env inputs id (looks now ∷ es) s held spared h = holds-run env inputs id es _ _ spared h

-- What holds of a call: the lane is this client's while the transfer runs, whatever the others do, and then
-- nobody's; and the lanes marked busy are those that are held, at every moment.
unfoldable pub IsExclusive {ℓ} : {A : Type ℓ} → Env → Course A → Type 0
IsExclusive env (waiting (s, held)) = Holds env s held
IsExclusive env (failed detail (s, held)) = Holds env s held
IsExclusive env (done info answer (s, held) (t, left)) =
    Holds env s held
    × (holds info.lane_id held ≡ true)
    × (is_leased info.lane_id s.lanes ≡ true)
    × Holds env t left
    × (is_leased info.lane_id t.lanes ≡ false)
    × ((id : ℕ) → id ≢ info.lane_id → is_leased id t.lanes ≡ is_leased id s.lanes)

IsExclusive-waiting {ℓ} :
    (A : Type ℓ) (env : Env) (t : ManagerState) (held : List ℕ)
    → Holds env t held
    → IsExclusive {A = A} env (waiting (t, held))
unfolding IsExclusive
IsExclusive-waiting A env t held h = h

module _ (env : Env) (fits : (d : TransferDirection) (bytes_hint : ℕ) → Fits env d bytes_hint) where
  next-run :
      (inputs : ℕ → ℕ → Inputs) (es : List Event) (s : ManagerState) (held : List ℕ)
      → (run env inputs es s held).0.next_lane_id ≤ s.next_lane_id + length es
  unfolding run
  next-run inputs [] s held = omega arith
  next-run inputs (e ∷ es) s held =
      let next = step env (inputs (length es)) s held e in
      omega
        (arith, next-run inputs es next.0 next.1, next-step env fits (inputs (length es)) s held e)

  module _ {ℓ} {A : Type ℓ} (answers : Answers) (f : LaneLeaseInfo → Result Str A)
      (busy : LaneLeaseInfo → List Event) (own_exact : (m n : ℕ) → IsExact (answers.own m n))
      (their_exact : (k m n : ℕ) → IsExact (answers.theirs k m n))
      (spared : (info : LaneLeaseInfo) → spares info.lane_id (busy info) ≡ true) (longest : ℕ)
      (short : (info : LaneLeaseInfo) → length (busy info) ≤ longest) where
    IsExclusive-use_lane :
        (next : Pool → Course A) (s : ManagerState) (held : List ℕ) (o : Outcome)
        → Holds env s held
        → AfterAcquire env s o
        → next_after o ≤ s.next_lane_id + 1
        → s.next_lane_id + 2 + longest < u64_mod
        → ((t : ManagerState)
            → Holds env t held
            → t.next_lane_id ≤ s.next_lane_id + 1
            → IsExclusive env (next (t, held)))
        → IsExclusive env (use_lane env answers f busy next held o)
    unfolding IsExclusive step AfterAcquire
    IsExclusive-use_lane next s held (leased info t) h a small ids more =
        let during = run env (answers.theirs 0) (busy info) t (info.lane_id ∷ held) in
        let far = next-run (answers.theirs 0) (busy info) t (info.lane_id ∷ held) in
        let kept =
          run-Holds env fits (answers.theirs 0) (busy info) t (info.lane_id ∷ held) (their_exact 0)
            (omega (arith, small, ids, short info))
            (Holds-after_acquire env fits s held (leased info t) h a) in
        let mine =
          holds-run env (answers.theirs 0) info.lane_id (busy info) t (info.lane_id ∷ held)
            (spared info) (ground arith) in
        let free = free_of_release during.0 info.lane_id answers.released_at in
        (
          kept,
          mine,
          kept.marked info.lane_id ∙ mine,
          Holds-step env fits (answers.own 0) during.0 during.1
              (releases info.lane_id answers.released_at) (own_exact 0)
              (omega (arith, far, small, ids, short info)) kept,
          ground (arith, free info.lane_id kept.good.ordered),
          λ id other. ground (arith, free id kept.good.ordered, other),
        )
    IsExclusive-use_lane next s held (refused detail t) h a small ids more =
        Holds-after_acquire env fits s held (refused detail t) h a
    IsExclusive-use_lane next s held (waits t) h a small ids more =
        more t (Holds-after_acquire env fits s held (waits t) h a) small
    IsExclusive-use_lane next s held (again t) h a small ids more = elim a [ ]

    -- From a pool where the lanes marked busy are those that clients hold, a call of `with_lane` has a lane that no
    -- other client holds or is given while its transfer runs, whatever lanes the others lease, give back or look
    -- at, and that is free afterwards; the lanes marked busy are those that are held throughout. The transfer
    -- returns, the others give back no lane of this client, lane ids last for all these calls, sizes stay below
    -- 2 ^ 64 and ACL pins as many bytes as it is asked for.
    pub with_lane-IsExclusive :
        (wakes : List (List Event)) (s : ManagerState) (held : List ℕ) (d : TransferDirection)
        (device bytes_hint : ℕ)
        → s.next_lane_id + 2 + calls wakes + longest < u64_mod
        → Holds env s held
        → IsExclusive env (with_lane env answers f busy wakes (s, held) d device bytes_hint)
    unfolding with_lane
    with_lane-IsExclusive [] s held d device bytes_hint ids h =
        IsExclusive-use_lane waiting s held _ h
          (acquire-AfterAcquire env (answers.own 0) (length s.lanes + 1) s d device bytes_hint
            (own_exact 0) (fits d bytes_hint) (omega arith) (omega (arith, ids)) h.good)
          (next_after-acquire env (answers.own 0) (length s.lanes + 1) s d device bytes_hint)
          (omega (arith, ids)) (λ t g small. IsExclusive-waiting A env t held g)
    with_lane-IsExclusive (w ∷ ws) s held d device bytes_hint ids h =
        IsExclusive-use_lane
          (λ p.
            with_lane env answers f busy ws (run env (answers.theirs (suc (length ws))) w p.0 p.1) d
              device bytes_hint)
          s held _ h
          (acquire-AfterAcquire env (answers.own (suc (length ws))) (length s.lanes + 1) s d device
            bytes_hint (own_exact (suc (length ws))) (fits d bytes_hint) (omega arith)
            (omega (arith, ids)) h.good)
          (next_after-acquire env (answers.own (suc (length ws))) (length s.lanes + 1) s d device
            bytes_hint)
          (omega (arith, ids))
          (λ t g small.
            with_lane-IsExclusive ws _ _ d device bytes_hint
              (omega (arith, ids, small, next-run (answers.theirs (suc (length ws))) w t held))
              (run-Holds env fits (answers.theirs (suc (length ws))) w t held
                (their_exact (suc (length ws))) (omega (arith, ids, small)) g))
