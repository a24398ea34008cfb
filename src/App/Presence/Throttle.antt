-- ===== src/App/Presence/Throttle.antt =====
-- internal/app/app.go: the presence of a client is not written twice within the flush interval.
use r0rpc.Prelude.{
  ℕ, ◌+◌, ◌≤◌, ◌<◌, ◌≡◌, ap, ◌∙◌, String, pos, lt_int, Bool, true, false, not, ◌&&◌, some, List, [],
  ◌∷◌, ◌==◌, string_eq, same_refl, leb, ltb, AllOf, Bool-cases, inl, inr, arith,
}
use r0rpc.Prelude.Map.{Map, lookup, lookup-insert, lookup-delete, lookup-retain}
use r0rpc.App.Presence.{
  time_sub, should_flush_presence, mark_presence_flushed, reset_presence_flush,
  cleanup_presence_cache, PresenceOp, flushes, marks, resets, cleans, run_presence,
}

-- An operation that happens within `interval` after the time `at`, and is neither a login nor a failed
-- write of the client.
abbrev pub soon : String → ℕ → ℕ → PresenceOp → Bool
soon c at interval (flushes d now) = leb at now && ltb now (at + interval)
soon c at interval (marks d now) = not (d == c)
soon c at interval (resets d) = not (d == c)
soon c at interval (cleans now) = leb at now && ltb now (at + interval)

kept :
    (c : String) (at interval keep : ℕ) (m : Map String ℕ) (ops : List PresenceOp)
    → interval ≤ keep
    → AllOf (λ op. soon c at interval op ≡ true) ops
    → lookup c m ≡ some at
    → lookup c (run_presence (pos interval) (pos keep) m ops) ≡ some at
unfolding run_presence should_flush_presence mark_presence_flushed reset_presence_flush
    cleanup_presence_cache
kept c at interval keep m [] h a e = e
kept c at interval keep m (flushes d now ∷ ops) h (s, a) e =
    kept c at interval keep (should_flush_presence (pos interval) m d now).0 ops h a
      (elim (Bool-cases (d == c)) [
        | inl here ↦
            let found : lookup d m ≡ some at =
              ap (λ k. lookup k m) ((string_eq.same_iff d c).0 here) ∙ e in
            ground arith
        | inr there ↦ ground (arith, lookup-insert d now c m)
      ])
kept c at interval keep m (marks d now ∷ ops) h (s, a) e =
    kept c at interval keep (mark_presence_flushed m d now) ops h a
      (ground (arith, lookup-insert d now c m))
kept c at interval keep m (resets d ∷ ops) h (s, a) e =
    kept c at interval keep (reset_presence_flush m d) ops h a (ground (arith, lookup-delete d c m))
kept c at interval keep m (cleans now ∷ ops) h (s, a) e =
    kept c at interval keep (cleanup_presence_cache (pos keep) m now) ops h a
      (ground (arith, lookup-retain (λ last. not (lt_int (pos keep) (time_sub now last))) c m))

-- After the presence of a client was written, and any operations on other clients, clean-ups and
-- further touches of this client follow within the flush interval, with no login and no failed write
-- of the client: its presence is not written again within the interval. The cache keeps entries for
-- the interval at least.
pub flush_once :
    (c : String) (at now interval keep : ℕ) (m : Map String ℕ) (ops : List PresenceOp)
    → interval ≤ keep
    → AllOf (λ op. soon c at interval op ≡ true) ops
    → at ≤ now
    → now < at + interval
    → (should_flush_presence (pos interval) m c at).1 ≡ true
    → let written = (should_flush_presence (pos interval) m c at).0 in
      let after = run_presence (pos interval) (pos keep) written ops in
      should_flush_presence (pos interval) after c now ≡ (after, false)
unfolding should_flush_presence
flush_once c at now interval keep m ops h a lo hi w =
    let written = (should_flush_presence (pos interval) m c at).0 in
    let there : lookup c written ≡ some at = ground (arith, lookup-insert c at c m, same_refl c) in
    let last = kept c at interval keep written ops h a there in
    rw (last, should_flush_presence) (ground arith)
