-- ===== src/Channel/Reaped.antt =====
-- The accounts of the lanes that `reap_*` of crates/uf-daemon/src/transfer_channel.rs closes.
use uflow.Prelude.{
  ℕ, ◌+◌, ◌<◌, ◌≡◌, refl, List, [], ◌∷◌, Option, some, inl, inr, arith, length, length-append,
  u64_mod, ap, Option-cases,
}
use uflow.Channel.State.{TransferDirection, TransferLane, ManagerState, Env, idle_ttl}
use uflow.Channel.Reap.{reap_expired_from, reap_expired_lanes, reap_one_idle_lane, position, wanted}
use uflow.Channel.Lanes.{all_bytes, all_bytes-append, position-eq-some}

-- The lanes and bytes that were closed, with those that are left, are as many as before.
abbrev pub Balanced : ManagerState → ManagerState → Type 0
Balanced s t =
    (t.idle_reaped_bytes + all_bytes t.lanes ≡ s.idle_reaped_bytes + all_bytes s.lanes)
    × (t.idle_reaped_lanes + length t.lanes ≡ s.idle_reaped_lanes + length s.lanes)

expired-Balanced :
    (ttl now : ℕ) (lanes : List TransferLane) (s : ManagerState)
    → s.idle_reaped_bytes + all_bytes lanes < u64_mod
    → s.idle_reaped_lanes + length lanes < u64_mod
    → Balanced (record s { lanes = lanes }) (reap_expired_from ttl now lanes s)
unfolding reap_expired_from all_bytes
expired-Balanced ttl now [] s small few = (refl, refl)
expired-Balanced ttl now (lane ∷ others) s small few =
    let (bytes, count) = expired-Balanced ttl now others s (omega arith) (omega arith) in
    (ground (arith, bytes, count), ground (arith, bytes, count))

-- What `reap_expired_lanes` closes it counts: the bytes that it has closed and those that are left make the
-- bytes there were, and likewise the lanes, if these sums are below 2 ^ 64.
pub reap_expired_lanes-Balanced :
    (env : Env) (now : ℕ) (s : ManagerState)
    → s.idle_reaped_bytes + all_bytes s.lanes < u64_mod
    → s.idle_reaped_lanes + length s.lanes < u64_mod
    → Balanced s (reap_expired_lanes env now s)
unfolding reap_expired_lanes
reap_expired_lanes-Balanced env now s small few = elim (Option-cases (idle_ttl env)) [
  | inl never ↦ rw never (refl, refl)
  | inr (ttl, is) ↦ rw is (expired-Balanced ttl now s.lanes s small few)
]

-- Where `reap_one_idle_lane` closes a lane, it counts it: the bytes closed and those left make the bytes
-- there were, and likewise the lanes, if these sums are below 2 ^ 64.
pub reap_one_idle_lane-Balanced :
    (s t : ManagerState) (d : Option TransferDirection)
    → s.idle_reaped_bytes + all_bytes s.lanes < u64_mod
    → s.idle_reaped_lanes + length s.lanes < u64_mod
    → reap_one_idle_lane s d ≡ some t
    → Balanced s t
unfolding reap_one_idle_lane all_bytes
reap_one_idle_lane-Balanced s t d small few e = elim (Option-cases (position (wanted d) s.lanes)) [
  | inl gone ↦ absurd (ground (arith, gone))
  | inr (place, there) ↦
      let (is, wants) = position-eq-some (wanted d) s.lanes place there in
      let bytes = all_bytes-append place.before place.after in
      let all = all_bytes-append place.before (place.lane ∷ place.after) in
      let count = length-append place.before place.after in
      let total = length-append place.before (place.lane ∷ place.after) in
      (
        ground (arith, there, ap all_bytes is, bytes, all),
        ground (arith, there, ap length is, count, total),
      )
]
