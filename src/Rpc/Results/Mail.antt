-- ===== src/Rpc/Results/Mail.antt =====
-- internal/rpc/hub.go: what becomes of the calls that wait and of their channels, when a call ends its
-- wait, when a client submits a result and when a goroutine takes one.
use r0rpc.Prelude.{
  ℕ, ◌≡◌, ◌≢◌, refl, sym, ap, ◌∙◌, ◌⊎◌, inl, inr, String, Option, none, some, ◌==◌, string_eq,
  get_elem?, if◌then◌else◌, by_if, Bool-cases, Option-cases, get_elem?-set_ne, get_elem?-set_self,
  get_elem?-lt, List, length, length-set,
}
use r0rpc.Prelude.Map.{lookup, delete, lookup-delete}
use r0rpc.Rpc.Job.{JobResult, Result}
use r0rpc.Rpc.State.{Hub, WaiterEntry, CompletedEntry, CompletedState}
use r0rpc.Rpc.Results.{
  SubmitOutcome, cleanup_completed_locked, receive, expire_waiter, submit_result, send_or_drop,
  deliver, answer_over, answer_completed, answer_lookup,
}
use r0rpc.Rpc.Results.Delivery.{waiters-release, channels-release}

-- Neither the calls that wait nor the channels change.
pub record SameMail (h k : Hub) : Type 0 where
  pub waiters : k.waiters ≡ h.waiters
  pub channels : k.channels ≡ h.channels

-- A call ends its wait, and no channel changes.
pub record Ends (id : String) (h k : Hub) : Type 0 where
  pub waiters : (j : String) → lookup j k.waiters ≡ (if id == j then none else lookup j h.waiters)
  pub channels : k.channels ≡ h.channels

-- A client's result ends the wait of its call, and goes to the channel of the call.
pub record Delivers (c : String) (result : JobResult) (h k : Hub) : Type 0 where
  pub entry : WaiterEntry
  pub waiting : lookup result.request_id h.waiters ≡ some entry
  pub owner : entry.client_id ≡ c
  pub waiters : k.waiters ≡ delete result.request_id h.waiters
  pub channels : k.channels ≡ send_or_drop h.channels entry.result_ch result

pub record Takes (ch : ℕ) (h k : Hub) : Type 0 where
  pub waiters : k.waiters ≡ h.waiters
  pub others : (j : ℕ) → ch ≢ j → get_elem? k.channels j ≡ get_elem? h.channels j
  pub room : length k.channels ≡ length h.channels

pub expire-Ends : (h : Hub) (id : String) (now : ℕ) → Ends id h (expire_waiter h id now)
unfolding expire_waiter cleanup_completed_locked
expire-Ends h id now = elim (Option-cases (lookup id h.waiters)) [
  | inl n ↦
      rw (n, expire_waiter)
        (record {
          waiters = λ j. elim (Bool-cases (id == j)) [
            | inl e ↦ rw e (ap (λ i. lookup i h.waiters) (sym ((string_eq.same_iff id j).0 e)) ∙ n)
            | inr e ↦ rw e refl
          ];
          channels = refl;
        })
  | inr (w, n) ↦
      rw (n, expire_waiter)
        (record { waiters = λ j. lookup-delete id j h.waiters; channels = refl })
]

pub receive-Takes : (h : Hub) (ch : ℕ) → Takes ch h (receive h ch).0
unfolding receive
receive-Takes h ch = elim (Option-cases (get_elem? h.channels ch)) [
  | inl e ↦ rw (e, receive) (record { waiters = refl; others = λ j n. refl; room = refl })
  | inr (none, e) ↦ rw (e, receive) (record { waiters = refl; others = λ j n. refl; room = refl })
  | inr (some r, e) ↦
      rw (e, receive)
        (record {
          waiters = refl;
          others = λ j n. get_elem?-set_ne h.channels ch j none n;
          room = length-set h.channels ch none;
        })
]

answer_over-SameMail :
    (h : Hub) (c : String) (result : JobResult) (s : CompletedState) (now : ℕ)
    → SameMail h (answer_over h c result s now).0
unfolding answer_over
answer_over-SameMail h c result CompletedState.completed now = record {
  waiters = refl;
  channels = refl;
}
answer_over-SameMail h c result CompletedState.expired now = record {
  waiters = waiters-release h c;
  channels = channels-release h c;
}
answer_over-SameMail h c result CompletedState.late now = record { waiters = refl; channels = refl }

answer_lookup-Delivers :
    (h : Hub) (c : String) (result : JobResult) (now : ℕ) (w : Option WaiterEntry)
    (e : Option CompletedEntry)
    → lookup result.request_id h.waiters ≡ w
    → let k = (answer_lookup h c result now w e).0 in SameMail h k ⊎ Delivers c result h k
unfolding answer_lookup deliver answer_completed
answer_lookup-Delivers h c result now (some w) e at =
    let dropped = record h { waiters = delete result.request_id h.waiters } in
    by_if (λ (r : Hub × Result SubmitOutcome). SameMail h r.0 ⊎ Delivers c result h r.0)
      (w.client_id == c)
      (λ own. inr (record {
        entry = w;
        waiting = at;
        owner = (string_eq.same_iff w.client_id c).0 own;
        waiters = waiters-release dropped c;
        channels = ap (λ cs. send_or_drop cs w.result_ch result) (channels-release dropped c);
      }))
      λ _. inl (record { waiters = refl; channels = refl })
answer_lookup-Delivers h c result now none none at =
    inl (record { waiters = refl; channels = refl })
answer_lookup-Delivers h c result now none (some e) at =
    by_if (λ (r : Hub × Result SubmitOutcome). SameMail h r.0 ⊎ Delivers c result h r.0)
      (e.client_id == c) (λ _. inl (answer_over-SameMail h c result e.state now))
      λ _. inl (record { waiters = refl; channels = refl })

pub submit-Delivers :
    (h : Hub) (c : String) (result : JobResult) (now : ℕ)
    → let k = (submit_result h c result now).0 in SameMail h k ⊎ Delivers c result h k
unfolding submit_result cleanup_completed_locked
submit-Delivers h c result now =
    let cleaned = cleanup_completed_locked h now in
    elim (answer_lookup-Delivers cleaned c result now (lookup result.request_id cleaned.waiters)
      (lookup result.request_id cleaned.completed) refl) [
        | inl s ↦ inl (record { waiters = s.waiters; channels = s.channels })
        | inr d ↦ inr (record {
          entry = d.entry;
          waiting = d.waiting;
          owner = d.owner;
          waiters = d.waiters;
          channels = d.channels;
        })
      ]

pub send_or_drop-other :
    (l : List (Option JobResult)) (j ch : ℕ) (r : JobResult)
    → j ≢ ch
    → get_elem? (send_or_drop l j r) ch ≡ get_elem? l ch
unfolding send_or_drop
send_or_drop-other l j ch r n = elim (Option-cases (get_elem? l j)) [
  | inl e ↦ rw (e, send_or_drop) refl
  | inr (none, e) ↦ rw (e, send_or_drop) (get_elem?-set_ne l j ch (some r) n)
  | inr (some x, e) ↦ rw (e, send_or_drop) refl
]

pub send_or_drop-here :
    (l : List (Option JobResult)) (ch : ℕ) (r : JobResult)
    → get_elem? l ch ≡ some none
    → get_elem? (send_or_drop l ch r) ch ≡ some (some r)
unfolding send_or_drop
send_or_drop-here l ch r e =
    rw (e, send_or_drop) (get_elem?-set_self l ch (some r) (get_elem?-lt l ch e))

pub length-send_or_drop :
    (l : List (Option JobResult)) (ch : ℕ) (r : JobResult) → length (send_or_drop l ch r) ≡ length l
unfolding send_or_drop
length-send_or_drop l ch r = elim (Option-cases (get_elem? l ch)) [
  | inl e ↦ rw (e, send_or_drop) refl
  | inr (none, e) ↦ rw (e, send_or_drop) (length-set l ch (some r))
  | inr (some x, e) ↦ rw (e, send_or_drop) refl
]
