-- ===== src/Rpc/Results/Frame.antt =====
-- internal/rpc/hub.go: what the calls and their results change of the sessions, the maps of groups and
-- the calls that wait.
use r0rpc.Prelude.{
  ℕ, ◌≡◌, refl, subst, ap, inl, inr, String, Option, none, some, ◌==◌, string_eq, arith, by_if,
  Option-cases, get_elem?,
}
use r0rpc.Prelude.Map.{lookup, delete}
use r0rpc.Rpc.Job.{JobResult, Result}
use r0rpc.Rpc.State.{Hub, WaiterEntry, CompletedEntry, CompletedState}
use r0rpc.Rpc.Hub.Registry.{IsRegistry, Points, place, SameGroups-lists}
use r0rpc.Rpc.Hub.Lists.{Lists-eq}
use r0rpc.Rpc.Dispatch.{release_dispatch_locked}
use r0rpc.Rpc.Dispatch.Slots.{release-IsRegistry}
use r0rpc.Rpc.Results.{
  receive, cleanup_completed_locked, expire_waiter, SubmitOutcome, deliver, answer_over,
  answer_completed, answer_lookup, submit_result,
}

-- A property of the hub that changes of the calls and of the channels keep, and the release of a slot.
pub record IsCallFree (P : Hub → Type 0) : Type 0 where
  pub calls :
      (h k : Hub)
      → k.heap ≡ h.heap
      → k.sessions ≡ h.sessions
      → k.groups ≡ h.groups
      → k.group_order ≡ h.group_order
      → k.group_cursor ≡ h.group_cursor
      → k.pending_size ≡ h.pending_size
      → k.default_max_in_flight ≡ h.default_max_in_flight
      → P h
      → P k
  pub release : (h : Hub) (c : String) → P h → P (release_dispatch_locked h c)

place-calls :
    (h k : Hub) (d : String) → k.heap ≡ h.heap → k.sessions ≡ h.sessions → place k d ≡ place h d
place-calls h k d eh es = elim (Option-cases (lookup d h.sessions)) [
  | inl n ↦ ground (arith, ap (λ m. lookup d m) es)
  | inr (p, e) ↦ ground (arith, ap (λ m. lookup d m) es, ap (λ xs. get_elem? xs p) eh)
]

Points-calls : (h k : Hub) → k.heap ≡ h.heap → k.sessions ≡ h.sessions → Points h → Points k
Points-calls h k eh es v c p e =
    let (s, at, id) = v c p (subst (λ m. lookup c m ≡ some p) es e) in (s, rw eh at, id)

pub IsRegistry-IsCallFree : IsCallFree IsRegistry
IsRegistry-IsCallFree = record {
  calls = λ h k eh es eg eo ec ep ed v. record {
    points = Points-calls h k eh es v.points;
    lists =
        Lists-eq k (λ d. place-calls h k d eh es)
          (SameGroups-lists h k (record { groups = eg; orders = eo; cursors = ec }) v.lists);
  };
  release = release-IsRegistry;
}

module _ {P : Hub → Type 0} (free : IsCallFree P) where
  pub receive-keeps : (h : Hub) (ch : ℕ) → P h → P (receive h ch).0
  unfolding receive
  receive-keeps h ch v = elim (Option-cases (get_elem? h.channels ch)) [
    | inl e ↦ rw (e, receive) v
    | inr (none, e) ↦ rw (e, receive) v
    | inr (some r, e) ↦ rw (e, receive) (free.calls h _ refl refl refl refl refl refl refl v)
  ]

  pub expire-keeps : (h : Hub) (id : String) (now : ℕ) → P h → P (expire_waiter h id now)
  unfolding expire_waiter cleanup_completed_locked
  expire-keeps h id now v = elim (Option-cases (lookup id h.waiters)) [
    | inl e ↦ rw (e, expire_waiter) v
    | inr (w, e) ↦ rw (e, expire_waiter) (free.calls h _ refl refl refl refl refl refl refl v)
  ]

  answer_lookup-keeps :
      (h : Hub) (c : String) (result : JobResult) (now : ℕ) (w : Option WaiterEntry)
      (e : Option CompletedEntry)
      → P h
      → P (answer_lookup h c result now w e).0
  unfolding answer_lookup deliver answer_completed answer_over
  answer_lookup-keeps h c result now (some w) e v =
      let dropped = record h { waiters = delete result.request_id h.waiters } in
      by_if (λ (r : Hub × Result SubmitOutcome). P r.0) (w.client_id == c)
        (λ _.
          free.calls (release_dispatch_locked dropped c) _ refl refl refl refl refl refl refl
            (free.release dropped c (free.calls h dropped refl refl refl refl refl refl refl v)))
        λ _. v
  answer_lookup-keeps h c result now none none v = v
  answer_lookup-keeps h c result now none (some e) v =
      by_if (λ (r : Hub × Result SubmitOutcome). P r.0) (e.client_id == c) (λ _. go e.state) λ _. v
    where
      go : (s : CompletedState) → P (answer_over h c result s now).0
      go CompletedState.completed = v
      go CompletedState.expired =
          free.calls (release_dispatch_locked h c) _ refl refl refl refl refl refl refl
            (free.release h c v)
      go CompletedState.late = v

  pub submit-keeps :
      (h : Hub) (c : String) (result : JobResult) (now : ℕ)
      → P h
      → P (submit_result h c result now).0
  unfolding submit_result cleanup_completed_locked
  submit-keeps h c result now v =
      answer_lookup-keeps (cleanup_completed_locked h now) c result now _ _
        (free.calls h _ refl refl refl refl refl refl refl v)
