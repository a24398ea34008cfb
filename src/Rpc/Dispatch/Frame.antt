-- ===== src/Rpc/Dispatch/Frame.antt =====
-- internal/rpc/hub.go: what the choice of a session, a slot, a push and a pop leave alone.
use r0rpc.Prelude.{
  ℕ, zero, suc, ◌+◌, ◌%◌, inl, inr, String, Bool, Option, List, [], ◌∷◌, ◌==◌, string_eq, get_elem?,
  length, by_if, Option-cases, arith,
}
use r0rpc.Prelude.Map.{Map, insert}
use r0rpc.Rpc.Job.{Job, Result}
use r0rpc.Rpc.State.{Hub, session, order}
use r0rpc.Rpc.Hub.{signal_dispatch_locked}
use r0rpc.Rpc.Hub.Frame.{SameCalls}
use r0rpc.Rpc.Dispatch.{
  Candidate, candidate_at, saw, take_ready, pick_loop, pick_from, pick_session, acquire_turn,
  release_dispatch_locked, push_pending, pop_pending,
}

-- `pickSession` changes a cursor at most.
module _ (P : Hub → Type 0) (h : Hub)
    (moved : (c : Map String ℕ) → P (record h { group_cursor = c })) (same : P h) where
  take_keeps :
      (c : Candidate) (g : String) (n : ℕ) (rest : Hub × Result ℕ)
      → P rest.0
      → P (take_ready c h g n rest).0
  take_keeps (Candidate.ready p) g n rest v = moved (insert g n h.group_cursor)
  take_keeps Candidate.offline g n rest v = v
  take_keeps Candidate.saturated g n rest v = v

  loop_keeps :
      (g : String) (cs : List String) (start rounds offset : ℕ) (seen : Bool)
      → P (pick_loop h g cs start rounds offset seen).0
  unfolding pick_loop
  loop_keeps g cs start zero offset seen = same
  loop_keeps g cs start (suc n) offset seen =
      take_keeps (candidate_at h g (get_elem? cs ((start + offset) % length cs))) g _ _ (
        loop_keeps g cs start n (offset + 1)
          (saw (candidate_at h g (get_elem? cs ((start + offset) % length cs))) seen))

  from_keeps : (g : String) (cs : List String) → P (pick_from h g cs).0
  unfolding pick_from
  from_keeps g [] = same
  from_keeps g (c ∷ cs) = loop_keeps g (c ∷ cs) _ _ _ _

  pub pick_keeps : (g c : String) → P (pick_session h g c).0
  unfolding pick_session
  pick_keeps g c =
      by_if (λ (r : Hub × Result ℕ). P r.0) (c == "") (λ _. from_keeps g (order h g))
        λ _. elim (Option-cases (session h c)) [ inl n ↦ rw n same | inr ((p, s), n) ↦ rw n same ]

module _ (h : Hub) where
  pub acquire-SameCalls : (c : String) → SameCalls h (acquire_turn h c).0
  unfolding acquire_turn
  acquire-SameCalls c = ground arith

  pub release-SameCalls : (c : String) → SameCalls h (release_dispatch_locked h c)
  unfolding release_dispatch_locked signal_dispatch_locked
  release-SameCalls c = ground arith

  pub push_pending-SameCalls :
      (p now : ℕ) (job : Option Job) → SameCalls h (push_pending h p now job).0
  unfolding push_pending
  push_pending-SameCalls p now job = ground arith

  pub pop_pending-SameCalls : (p now : ℕ) → SameCalls h (pop_pending h p now).0
  unfolding pop_pending
  pop_pending-SameCalls p now = ground arith
