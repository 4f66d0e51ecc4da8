-- ===== src/Channel/Passes.antt =====
-- The passes of `acquire` of crates/uf-daemon/src/transfer_channel.rs, and how many it takes.
use uflow.Prelude.{
  ℕ, zero, suc, ◌+◌, ◌*◌, ◌%◌, ◌<◌, ◌≡◌, refl, sym, ◌∙◌, List, [], ◌∷◌, true, false, arith, length,
  Option, none, some, inl, inr, u64_mod, Option-cases, ltb,
}
use uflow.Prelude.Text.{text}
use uflow.Channel.State.{
  TransferDirection, TransferLane, ManagerState, Env, chunk_count, max_pinned_bytes, lanes_bytes,
}
use uflow.Channel.Reap.{position, reap_expired_lanes, reap_one_idle_lane}
use uflow.Channel.Acquire.{
  Inputs, Outcome, leased, refused, waits, again, is_reusable, grow, miss, pass, pass_at, acquire,
  after_pass, lane_chunk_bytes, retry_or_wait, full_lanes, has_room,
}
use uflow.Channel.Lanes.{any_busy, all_bytes, lanes_bytes-eq-all, position-eq-some}
use uflow.Channel.Shrinks.{
  reap_expired-Shrinks, reap_one-Shrinks, any_busy_of_direction, any_busy_of_none,
}
use uflow.Channel.Leases.{Leases, IsExact}
use uflow.Channel.Safety.{
  Good, Same, AfterPass, if_either, Good-Shrinks, Shrinks-AfterPass, reuse-AfterPass,
  create-AfterPass,
}

length_of_bytes : (lanes : List TransferLane) → 0 < all_bytes lanes → 0 < length lanes
unfolding all_bytes
length_of_bytes [] n = n
length_of_bytes (x ∷ xs) n = omega arith

retry-AfterPass :
    (env : Env) (s : ManagerState) (d : Option TransferDirection)
    → Good env s
    → (reap_one_idle_lane s d ≡ none → any_busy s.lanes ≡ true)
    → AfterPass env s (retry_or_wait s (reap_one_idle_lane s d))
unfolding AfterPass
retry-AfterPass env s d g held = elim (Option-cases (reap_one_idle_lane s d)) [
  | inl gone ↦ rw gone (g, λ j. refl, held gone)
  | inr (t, there) ↦
      let (p, is, less) = reap_one-Shrinks s t d there in
      rw there (Good-Shrinks env s t g p is, p.kept_leases, is, less)
]

module _ (env : Env) (input : Inputs) (s : ManagerState) (d : TransferDirection) (device bytes : ℕ)
    (exact : IsExact input) (fits : max_pinned_bytes env + bytes * chunk_count env < u64_mod)
    (ids : s.next_lane_id + 1 < u64_mod) (g : Good env s) where
  total : lanes_bytes s.lanes ≡ all_bytes s.lanes % u64_mod
  total = lanes_bytes-eq-all s.lanes

  grow-AfterPass : AfterPass env s (grow env input s d device bytes (bytes * chunk_count env))
  unfolding AfterPass grow
  grow-AfterPass =
      if_either (AfterPass env s) _ _ _
        (λ (full : full_lanes env s d ≡ true).
          retry-AfterPass env s (some d) g (λ gone. any_busy_of_direction s d gone (ground arith)))
        (λ (below : full_lanes env s d ≡ false).
          if_either (AfterPass env s) _ _ _
            (λ (room : has_room env s (bytes * chunk_count env) ≡ true).
              create-AfterPass env input s d device bytes g exact ids
                (ground (arith, total, g.in_budget)) (omega (arith, fits))
                (ground (arith, g.in_lanes d)))
            (λ (tight : has_room env s (bytes * chunk_count env) ≡ false).
              if_either (AfterPass env s) _ _ _ (λ large. (g, λ j. refl))
                (λ (small : ltb (max_pinned_bytes env) (bytes * chunk_count env) ≡ false).
                  retry-AfterPass env s none g
                    (λ gone. any_busy_of_none s gone (some_lane tight small)))))
    where
      some_lane :
          has_room env s (bytes * chunk_count env) ≡ false
          → ltb (max_pinned_bytes env) (bytes * chunk_count env) ≡ false
          → 0 < length s.lanes
      some_lane tight small = length_of_bytes s.lanes (ground (arith, total))

-- Where a client asks for `bytes_hint` bytes, the limit on pinned bytes and the bytes of its lane
-- stay below 2 ^ 64.
abbrev pub Fits : Env → TransferDirection → ℕ → Type 0
Fits env d bytes_hint =
    max_pinned_bytes env + lane_chunk_bytes env d bytes_hint * chunk_count env < u64_mod

pub pass-AfterPass :
    (env : Env) (input : Inputs) (s : ManagerState) (d : TransferDirection) (device bytes_hint : ℕ)
    → IsExact input
    → Fits env d bytes_hint
    → s.next_lane_id + 1 < u64_mod
    → Good env s
    → AfterPass env s (pass env input s d device bytes_hint)
unfolding AfterPass pass pass_at miss is_reusable
pass-AfterPass env input s d device bytes_hint exact fits ids g =
    elim (Option-cases (position (is_reusable d bytes) s.lanes)) [
      | inr (place, there) ↦
          let (is, passes) = position-eq-some (is_reusable d bytes) s.lanes place there in
          rw there (reuse-AfterPass env input s d device place g is (ground arith))
      | inl gone ↦
          let (p, is) = reap_expired-Shrinks env input.now s in
          let t = reap_expired_lanes env input.now s in
          let later =
            grow-AfterPass env input t d device bytes exact fits (omega (arith, is))
              (Good-Shrinks env s t g p is) in
          rw gone (
            if_either (AfterPass env s) _ _ (refused (text "pinned lane footprint overflow") s)
              (λ small. Shrinks-AfterPass env s t _ p is later) (λ large. (g, λ j. refl)))
    ]
  where
    bytes : ℕ
    bytes = lane_chunk_bytes env d bytes_hint

-- What `acquire` guarantees when it returns or waits.
unfoldable pub AfterAcquire : Env → ManagerState → Outcome → Type 0
AfterAcquire env s (leased info t) = Good env t × Leases info.lane_id s.lanes t.lanes
AfterAcquire env s (refused detail t) = Good env t × Same s t
AfterAcquire env s (waits t) = Good env t × Same s t × (any_busy t.lanes ≡ true)
AfterAcquire env s (again t) = ⊥

AfterAcquire_later :
    (env : Env) (s t : ManagerState) (o : Outcome)
    → Same s t
    → AfterAcquire env t o
    → AfterAcquire env s o
unfolding AfterAcquire
AfterAcquire_later env s t (leased info u) same (g, l) = (
  g,
  record {
    was_free = sym (same info.lane_id) ∙ l.was_free;
    is_held = l.is_held;
    others = λ j other. l.others j other ∙ same j;
  },
)
AfterAcquire_later env s t (refused detail u) same (g, kept) = (g, λ j. kept j ∙ same j)
AfterAcquire_later env s t (waits u) same (g, kept, held) = (g, λ j. kept j ∙ same j, held)
AfterAcquire_later env s t (again u) same a = a

after_pass-AfterAcquire :
    (env : Env) (s : ManagerState) (next : ManagerState → Outcome) (o : Outcome)
    → AfterPass env s o
    → ((t : ManagerState)
        → length t.lanes < length s.lanes
        → t.next_lane_id ≡ s.next_lane_id
        → Good env t
        → AfterAcquire env t (next t))
    → AfterAcquire env s (after_pass next o)
unfolding AfterPass AfterAcquire
after_pass-AfterAcquire env s next (leased info t) a more = a
after_pass-AfterAcquire env s next (refused detail t) a more = a
after_pass-AfterAcquire env s next (waits t) a more = a
after_pass-AfterAcquire env s next (again t) (good, same, is, less) more =
    AfterAcquire_later env s t (next t) same (more t less is good)

pub acquire-AfterAcquire :
    (env : Env) (inputs : ℕ → Inputs) (fuel : ℕ) (s : ManagerState) (d : TransferDirection)
    (device bytes_hint : ℕ)
    → ((n : ℕ) → IsExact (inputs n))
    → Fits env d bytes_hint
    → length s.lanes < fuel
    → s.next_lane_id + 1 < u64_mod
    → Good env s
    → AfterAcquire env s (acquire env inputs fuel s d device bytes_hint)
unfolding acquire
acquire-AfterAcquire env inputs zero s d device bytes_hint exact fits enough ids g =
    absurd (omega arith)
acquire-AfterAcquire env inputs (suc fuel) s d device bytes_hint exact fits enough ids g =
    after_pass-AfterAcquire env s (λ t. acquire env inputs fuel t d device bytes_hint)
      (pass env (inputs fuel) s d device bytes_hint)
      (pass-AfterPass env (inputs fuel) s d device bytes_hint (exact fuel) fits ids g)
      (λ t less is good.
        acquire-AfterAcquire env inputs fuel t d device bytes_hint exact fits (omega arith)
          (omega (arith, is)) good)
