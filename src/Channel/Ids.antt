-- ===== src/Channel/Ids.antt =====
-- How many lane ids a call of `acquire` of crates/uf-daemon/src/transfer_channel.rs takes.
use uflow.Prelude.{
  ℕ, zero, suc, ◌+◌, ◌*◌, ltb, ◌≤◌, ◌≡◌, ◌∙◌, arith, inl, inr, u64_mod, Option, none, some,
  Option-cases, Result-cases,
}
use uflow.Prelude.Text.{Str, text}
use uflow.Channel.State.{TransferDirection, ManagerState, Env, max_pinned_bytes, chunk_count}
use uflow.Channel.Reap.{Place, position, reap_expired_lanes, reap_one_idle_lane}
use uflow.Channel.Acquire.{
  Inputs, Outcome, leased, refused, waits, again, pass, pass_at, miss, grow, create, reuse, acquire,
  after_pass, is_reusable, lane_chunk_bytes, open_lane, retry_or_wait, too_large, full_lanes,
  has_room,
}
use uflow.Channel.Shrinks.{reap_expired-Shrinks, reap_one-Shrinks}
use uflow.Channel.Safety.{if_either}

-- How far the ids go in a pass and in a call.
unfoldable Ids : ManagerState → Outcome → Type 0
Ids s (leased info t) = t.next_lane_id ≤ s.next_lane_id + 1
Ids s (refused detail t) = t.next_lane_id ≤ s.next_lane_id + 1
Ids s (waits t) = t.next_lane_id ≤ s.next_lane_id + 1
Ids s (again t) = t.next_lane_id ≡ s.next_lane_id

Ids-refused : (s : ManagerState) (detail : Str) → Ids s (refused detail s)
unfolding Ids
Ids-refused s detail = omega arith

module _ (env : Env) (input : Inputs) (d : TransferDirection) (device : ℕ) where
  Ids-retry :
      (s : ManagerState) (x : Option TransferDirection)
      → Ids s (retry_or_wait s (reap_one_idle_lane s x))
  unfolding Ids
  Ids-retry s x = elim (Option-cases (reap_one_idle_lane s x)) [
    | inl gone ↦ rw gone (omega arith)
    | inr (t, there) ↦ let (_, is, _) = reap_one-Shrinks s t x there in rw there is
  ]

  Ids-create : (s : ManagerState) (bytes : ℕ) → Ids s (create env input s d device bytes)
  unfolding create Ids
  Ids-create s bytes = elim (Result-cases (open_lane env input s.next_lane_id d device bytes)) [
    | inl (lane, made) ↦ rw made (omega arith)
    | inr (x, bad) ↦ rw bad (omega arith)
  ]

  Ids-grow :
      (s : ManagerState) (bytes required : ℕ) → Ids s (grow env input s d device bytes required)
  unfolding grow
  Ids-grow s bytes required =
      if_either (Ids s) (full_lanes env s d) _ _ (λ full. Ids-retry s (some d))
        (λ below.
          if_either (Ids s) (has_room env s required) _ _ (λ room. Ids-create s bytes)
            (λ tight.
              if_either (Ids s) (ltb (max_pinned_bytes env) required) _ _
                (λ large. Ids-refused s (too_large required (max_pinned_bytes env)))
                (λ small. Ids-retry s none)))

  Ids-reuse : (s : ManagerState) (place : Place) → Ids s (reuse input s device place)
  unfolding reuse Ids
  Ids-reuse s place = omega arith

  Ids-move :
      (s t : ManagerState) (o : Outcome) → t.next_lane_id ≡ s.next_lane_id → Ids t o → Ids s o
  unfolding Ids
  Ids-move s t (leased info u) is i = omega (arith, is)
  Ids-move s t (refused detail u) is i = omega (arith, is)
  Ids-move s t (waits u) is i = omega (arith, is)
  Ids-move s t (again u) is i = i ∙ is

  Ids-pass : (s : ManagerState) (bytes_hint : ℕ) → Ids s (pass env input s d device bytes_hint)
  unfolding pass pass_at miss
  Ids-pass s bytes_hint =
      elim (Option-cases (position (is_reusable d (lane_chunk_bytes env d bytes_hint)) s.lanes)) [
        | inr (place, there) ↦ rw there (Ids-reuse s place)
        | inl gone ↦ rw gone (
            if_either (Ids s) (ltb (lane_chunk_bytes env d bytes_hint * chunk_count env) u64_mod) _
              _
              (λ small.
                Ids-move s (reap_expired_lanes env input.now s) _
                  (reap_expired-Shrinks env input.now s).1
                  (Ids-grow (reap_expired_lanes env input.now s) _ _))
              (λ large. Ids-refused s (text "pinned lane footprint overflow")))
      ]

abbrev pub next_after : Outcome → ℕ
next_after (leased info t) = t.next_lane_id
next_after (refused detail t) = t.next_lane_id
next_after (waits t) = t.next_lane_id
next_after (again t) = t.next_lane_id

-- A call takes at most one id.
next_after-after_pass :
    (s : ManagerState) (more : ManagerState → Outcome) (o : Outcome)
    → Ids s o
    → ((t : ManagerState) → next_after (more t) ≤ t.next_lane_id + 1)
    → next_after (after_pass more o) ≤ s.next_lane_id + 1
unfolding Ids
next_after-after_pass s more (leased info t) i all = i
next_after-after_pass s more (refused detail t) i all = i
next_after-after_pass s more (waits t) i all = i
next_after-after_pass s more (again t) i all = omega (arith, i, all t)

pub next_after-acquire :
    (env : Env) (inputs : ℕ → Inputs) (fuel : ℕ) (s : ManagerState) (d : TransferDirection)
    (device bytes_hint : ℕ)
    → next_after (acquire env inputs fuel s d device bytes_hint) ≤ s.next_lane_id + 1
unfolding acquire
next_after-acquire env inputs zero s d device bytes_hint = omega arith
next_after-acquire env inputs (suc fuel) s d device bytes_hint =
    next_after-after_pass s _ _ (Ids-pass env (inputs fuel) d device s bytes_hint)
      (λ t. next_after-acquire env inputs fuel t d device bytes_hint)
