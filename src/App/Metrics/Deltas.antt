-- ===== src/App/Metrics/Deltas.antt =====
-- internal/app/persist_batch.go: the deltas of a batch add up to the rows of its tasks.
use r0rpc.Prelude.{
  ℕ, ◌+◌, ◌^◌, ◌≤◌, ◌<◌, ◌≡◌, refl, sym, ap, ap₂, subst, ◌∙◌, inl, inr, String, Bool, true, false,
  Option, none, some, get_or, List, [], ◌∷◌, ◌==◌, string_eq, same_refl, Comparable, AllOf,
  Bool-cases, by_if, if◌then◌else◌, arith,
}
use r0rpc.Prelude.Map.{Map, lookup, insert, find, without, find-without}
use r0rpc.App.Totals.{
  Delta, Delta-ext, plus, joined, joined-none, joined_comm, joined_assoc, picked, added_up,
}
use r0rpc.App.Metrics.{zero_delta, add_totals, accumulate_metric, row_of, MetricTask, accumulate}

-- Sums below a bound, far from the end of the 64-bit integers.
pub record IsSmall (n : ℕ) (d : Delta) : Type 0 where
  pub total : d.total_requests ≤ n
  pub success : d.success_requests ≤ n
  pub failed : d.failed_requests ≤ n
  pub timeout : d.timeout_requests ≤ n
  pub latency : d.total_latency_ms ≤ n
  pub longest : d.max_latency_ms ≤ n

weakened-IsSmall : (n m : ℕ) (d : Delta) → n ≤ m → IsSmall n d → IsSmall m d
weakened-IsSmall n m d h s = record {
  total = omega (arith, s.total, h);
  success = omega (arith, s.success, h);
  failed = omega (arith, s.failed, h);
  timeout = omega (arith, s.timeout, h);
  latency = omega (arith, s.latency, h);
  longest = omega (arith, s.longest, h);
}

-- Without a wrap-around a task adds the row that it would insert.
accumulate_metric-plus :
    (n : ℕ) (d : Delta) (status : String) (latency : ℕ)
    → n + 1 + latency < 2 ^ 63
    → IsSmall n d
    → accumulate_metric d status latency ≡ plus d (row_of status latency)
unfolding accumulate_metric add_totals
accumulate_metric-plus n d status latency h s =
    Delta-ext _ _ (omega (arith, s.total)) (ground (arith, s.success)) (ground (arith, s.failed))
      (ground (arith, s.timeout)) (omega (arith, s.latency)) (ground (arith, s.longest))

accumulate_metric-IsSmall :
    (n : ℕ) (d : Delta) (status : String) (latency : ℕ)
    → n + 1 + latency < 2 ^ 63
    → IsSmall n d
    → IsSmall (n + 1 + latency) (accumulate_metric d status latency)
accumulate_metric-IsSmall n d status latency h s =
    subst (IsSmall (n + 1 + latency)) (sym (accumulate_metric-plus n d status latency h s))
      (record {
        total = omega (arith, s.total);
        success = ground (arith, s.success);
        failed = ground (arith, s.failed);
        timeout = ground (arith, s.timeout);
        latency = omega (arith, s.latency);
        longest = omega (arith, s.longest);
      })

-- The place of a row in a sum does not matter.
joined_swap : (a b c : Option Delta) → joined a (joined b c) ≡ joined b (joined a c)
joined_swap a b c =
    sym (joined_assoc a b c) ∙ ap (λ o. joined o c) (joined_comm a b) ∙ joined_assoc b a c

module _ {ℓ} {K : Type ℓ} where
  -- The row that the fallback inserts for each task.
  abbrev pub rows_of : List (MetricTask K) → List (K × Delta)
  rows_of [] = []
  rows_of (task ∷ tasks) = (task.key, row_of task.status task.latency_ms) ∷ rows_of tasks

  -- What a batch adds to a sum at most: its tasks, and their latencies.
  abbrev pub weight : List (MetricTask K) → ℕ
  weight [] = 0
  weight (task ∷ tasks) = 1 + task.latency_ms + weight tasks

module _ {ℓ} {K : Type ℓ} ⦃e : Comparable K⦄ where
  abbrev AllSmall : ℕ → List (K × Delta) → Type 0
  AllSmall n = AllOf (λ r. IsSmall n r.1)

  abbrev KeysDistinct : List (K × Delta) → Type 0
  KeysDistinct [] = Unit
  KeysDistinct ((k, d) ∷ rows) = (find k rows ≡ none) × KeysDistinct rows

  without-KeysDistinct :
      (k : K) (rows : List (K × Delta)) → KeysDistinct rows → KeysDistinct (without k rows)
  unfolding without
  without-KeysDistinct k [] u = u
  without-KeysDistinct k ((j, d) ∷ rows) (a, u) =
      let rest = without-KeysDistinct k rows u in
      by_if KeysDistinct (j == k) (λ _. rest) λ _. (ground (arith, find-without k j rows), rest)

  without_absent : (k : K) (rows : List (K × Delta)) → find k rows ≡ none → without k rows ≡ rows
  unfolding without find
  without_absent k [] h = refl
  without_absent k ((j, d) ∷ rows) h = ground (arith, without_absent k rows)

  abbrev former : (K → Bool) → K → Option Delta → Option Delta
  former p k none = none
  former p k (some d) = picked p k d

  -- The row under a key, and the rows under the other keys.
  added_up-without :
      (p : K → Bool) (k : K) (rows : List (K × Delta))
      → KeysDistinct rows
      → added_up p rows ≡ joined (former p k (find k rows)) (added_up p (without k rows))
  unfolding without find
  added_up-without p k [] u = refl
  added_up-without p k ((j, d) ∷ rows) (a, u) = elim (Bool-cases (j == k)) [
    | inl same ↦
        let at : j ≡ k = (e.same_iff j k).0 same in
        let gone : without k rows ≡ rows =
          without_absent k rows (ap (λ i. find i rows) (sym at) ∙ a) in
        rw same (ap₂ (λ i r. joined (picked p i d) (added_up p r)) at (sym gone))
    | inr other ↦ rw other (
        ap (joined (picked p j d)) (added_up-without p k rows u)
        ∙ joined_swap (picked p j d) (former p k (find k rows)) (added_up p (without k rows)))
  ]

  AllSmall-find :
      (n : ℕ) (k : K) (rows : List (K × Delta))
      → AllSmall n rows
      → IsSmall n (get_or (find k rows) zero_delta)
  unfolding find
  AllSmall-find n k [] a = record {
    total = omega arith;
    success = omega arith;
    failed = omega arith;
    timeout = omega arith;
    latency = omega arith;
    longest = omega arith;
  }
  AllSmall-find n k ((j, d) ∷ rows) (s, a) =
      by_if (λ o. IsSmall n (get_or o zero_delta)) (j == k) (λ _. s) λ _. AllSmall-find n k rows a

  AllSmall-without :
      (n m : ℕ) (k : K) (rows : List (K × Delta))
      → n ≤ m
      → AllSmall n rows
      → AllSmall m (without k rows)
  unfolding without
  AllSmall-without n m k [] h a = a
  AllSmall-without n m k ((j, d) ∷ rows) h (s, a) =
      let rest = AllSmall-without n m k rows h a in
      by_if (AllSmall m) (j == k) (λ _. rest) λ _. (weakened-IsSmall n m d h s, rest)

  -- A task's delta, in place of the row under its key.
  stepped :
      (p : K → Bool) (n : ℕ) (k : K) (o : Option Delta) (status : String) (latency : ℕ)
      → n + 1 + latency < 2 ^ 63
      → IsSmall n (get_or o zero_delta)
      → picked p k (accumulate_metric (get_or o zero_delta) status latency)
        ≡ joined (former p k o) (picked p k (row_of status latency))
  stepped p n k (some d) status latency h s =
      rw (accumulate_metric-plus n d status latency h s) (go (p k))
    where
      go :
          (b : Bool)
          → (if b then some (plus d (row_of status latency)) else none)
            ≡ joined (if b then some d else none) (if b then some (row_of status latency) else none)
      go true = refl
      go false = refl
  stepped p n k none status latency h s =
      rw (accumulate_metric-plus n zero_delta status latency h s) (
        ap (picked p k) (
          Delta-ext (plus zero_delta (row_of status latency)) (row_of status latency) (omega arith)
            (omega arith) (omega arith) (omega arith) (omega arith) (omega arith)))

  pub added_up-accumulate :
      (p : K → Bool) (n : ℕ) (m : Map K Delta) (tasks : List (MetricTask K))
      → n + weight tasks < 2 ^ 63
      → KeysDistinct m.entries
      → AllSmall n m.entries
      → added_up p (accumulate m tasks).entries
        ≡ joined (added_up p m.entries) (added_up p (rows_of tasks))
  unfolding accumulate lookup insert
  added_up-accumulate p n m [] h u a = sym (joined-none (added_up p m.entries))
  added_up-accumulate p n m (task ∷ tasks) h u a =
      let k = task.key in
      let o = find k m.entries in
      let status = task.status in
      let latency = task.latency_ms in
      let row = row_of status latency in
      let s = AllSmall-find n k m.entries a in
      let fits : n + 1 + latency < 2 ^ 63 = omega (arith, h) in
      let delta = accumulate_metric (get_or o zero_delta) status latency in
      let others = added_up p (without k m.entries) in
      added_up-accumulate p (n + 1 + latency) (insert k delta m) tasks (omega (arith, h))
        (
          ground (arith, find-without k k m.entries, same_refl k),
          without-KeysDistinct k m.entries u,
        )
        (
          accumulate_metric-IsSmall n (get_or o zero_delta) status latency fits s,
          AllSmall-without n (n + 1 + latency) k m.entries (omega arith) a,
        )
      ∙ ap (λ q. joined q (added_up p (rows_of tasks)))
          (ap (λ q. joined q others) (stepped p n k o status latency fits s)
            ∙ joined_assoc (former p k o) (picked p k row) others
            ∙ ap (joined (former p k o)) (joined_comm (picked p k row) others)
            ∙ sym (joined_assoc (former p k o) others (picked p k row))
            ∙ ap (λ q. joined q (picked p k row)) (sym (added_up-without p k m.entries u)))
      ∙ joined_assoc (added_up p m.entries) (picked p k row) (added_up p (rows_of tasks))
