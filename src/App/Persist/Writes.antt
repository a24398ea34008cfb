-- ===== src/App/Persist/Writes.antt =====
-- internal/app/persist_batch.go: which tasks are written, and how often.
use r0rpc.Prelude.{
  ◌≡◌, refl, sym, ap, ◌∙◌, subst, Bool, true, false, List, [], ◌∷◌, ◌++◌, if◌then◌else◌, inl, inr,
  Bool-cases,
}
use mathlib.Core.List.{append-nil, append_assoc}
use r0rpc.App.Invoke.{PersistTask, PersistTaskKind}
use r0rpc.App.Persist.{
  Write, created, completed, rpc_added, device_added, write_of, run_persist_task, same_kind,
  of_kind, Failures, Written, run_creates, statement, run_each,
}

-- The tasks of a kind that a write writes, and those that a log has written, in their order.
abbrev pub in_write : PersistTaskKind → Write → List PersistTask
in_write PersistTaskKind.create_request (created t) = t ∷ []
in_write PersistTaskKind.complete_request (completed ts) = ts
in_write PersistTaskKind.rpc_metric (rpc_added ts) = ts
in_write PersistTaskKind.device_metric (device_added ts) = ts
in_write _ _ = []

abbrev pub applied : PersistTaskKind → List Write → List PersistTask
applied k [] = []
applied k (w ∷ ws) = in_write k w ++ applied k ws

-- The tasks of a kind in a list.
abbrev pub tasks_for : PersistTaskKind → List PersistTask → List PersistTask
tasks_for k [] = []
tasks_for k (t ∷ ts) = if same_kind k t.kind then t ∷ tasks_for k ts else tasks_for k ts

pub applied-append :
    (k : PersistTaskKind) (a b : List Write) → applied k (a ++ b) ≡ applied k a ++ applied k b
applied-append k [] b = refl
applied-append k (w ∷ a) b =
    ap (λ l. in_write k w ++ l) (applied-append k a b)
    ∙ sym (append_assoc (in_write k w) (applied k a) (applied k b))

pub tasks_for-append :
    (k : PersistTaskKind) (a b : List PersistTask)
    → tasks_for k (a ++ b) ≡ tasks_for k a ++ tasks_for k b
tasks_for-append k [] b = refl
tasks_for-append k (t ∷ a) b = elim (Bool-cases (same_kind k t.kind)) [
  | inl e ↦ rw e (ap (λ l. t ∷ l) (tasks_for-append k a b))
  | inr e ↦ rw e (tasks_for-append k a b)
]

of_kind-all : (k : PersistTaskKind) (ts : List PersistTask) → of_kind k ts ≡ tasks_for k ts
unfolding of_kind
of_kind-all k [] = refl
of_kind-all k (t ∷ ts) = ap (λ l. if same_kind k t.kind then t ∷ l else l) (of_kind-all k ts)

-- What a list counts for in the tasks of the kind `k`, if it has those of the kind `j`.
abbrev pub share : PersistTaskKind → PersistTaskKind → List PersistTask → List PersistTask
share k j ts = if same_kind k j then ts else []

-- What a task alone writes: itself.
in_write-write_of :
    (k j : PersistTaskKind) (t : PersistTask) → in_write k (write_of j t) ≡ share k j (t ∷ [])
in_write-write_of PersistTaskKind.create_request PersistTaskKind.create_request t = refl
in_write-write_of PersistTaskKind.create_request PersistTaskKind.complete_request t = refl
in_write-write_of PersistTaskKind.create_request PersistTaskKind.rpc_metric t = refl
in_write-write_of PersistTaskKind.create_request PersistTaskKind.device_metric t = refl
in_write-write_of PersistTaskKind.complete_request PersistTaskKind.create_request t = refl
in_write-write_of PersistTaskKind.complete_request PersistTaskKind.complete_request t = refl
in_write-write_of PersistTaskKind.complete_request PersistTaskKind.rpc_metric t = refl
in_write-write_of PersistTaskKind.complete_request PersistTaskKind.device_metric t = refl
in_write-write_of PersistTaskKind.rpc_metric PersistTaskKind.create_request t = refl
in_write-write_of PersistTaskKind.rpc_metric PersistTaskKind.complete_request t = refl
in_write-write_of PersistTaskKind.rpc_metric PersistTaskKind.rpc_metric t = refl
in_write-write_of PersistTaskKind.rpc_metric PersistTaskKind.device_metric t = refl
in_write-write_of PersistTaskKind.device_metric PersistTaskKind.create_request t = refl
in_write-write_of PersistTaskKind.device_metric PersistTaskKind.complete_request t = refl
in_write-write_of PersistTaskKind.device_metric PersistTaskKind.rpc_metric t = refl
in_write-write_of PersistTaskKind.device_metric PersistTaskKind.device_metric t = refl

-- The fallback writes every task once, if none fails.
pub run_each-all :
    (k : PersistTaskKind) (ts : List PersistTask)
    → applied k (run_each (λ t. false) ts) ≡ tasks_for k ts
unfolding run_each run_persist_task
run_each-all k [] = refl
run_each-all k (t ∷ ts) =
    ap (λ l. l ++ applied k (run_each (λ t. false) ts)) (in_write-write_of k t.kind t)
    ∙ ap (λ l. share k t.kind (t ∷ []) ++ l) (run_each-all k ts)
    ∙ joined
  where
    joined : share k t.kind (t ∷ []) ++ tasks_for k ts ≡ tasks_for k (t ∷ ts)
    joined = elim (Bool-cases (same_kind k t.kind)) [ inl e ↦ rw e refl | inr e ↦ rw e refl ]

-- A list that begins another.
abbrev pub Begins : List PersistTask → List PersistTask → Type 0
Begins a b = (rest : List PersistTask) × (a ++ rest ≡ b)

-- What a part of a batch that is to write the tasks `ts` of the kind `k` writes: all of them in their order
-- without an error, and the first of them with one.
pub record Writes (ts : List PersistTask) (k : PersistTaskKind) (w : Written) : Type 0 where
  pub all : w.1 ≡ true → applied k w.0 ≡ ts
  pub begun : Begins (applied k w.0) ts

pub statement-Writes :
    (k j : PersistTaskKind) (write : List PersistTask → Write) (more : List PersistTask)
    (fails : Bool) (ts : List PersistTask) (rest : Written)
    → ((xs : List PersistTask) → in_write k (write xs) ≡ share k j xs)
    → Writes more k rest
    → Writes (share k j ts ++ more) k (statement fails write ts rest)
statement-Writes k j write more fails [] rest e w =
    subst (λ l. Writes (l ++ more) k rest) (sym nothing) w
  where
    nothing : share k j [] ≡ []
    nothing = elim (Bool-cases (same_kind k j)) [ inl f ↦ rw f refl | inr f ↦ rw f refl ]
statement-Writes k j write more true (t ∷ ts) rest e w = record {
  all = λ is. cc;
  begun = (_, refl);
}
statement-Writes k j write more false (t ∷ ts) rest e w = record {
  all = λ is.
      ap (λ l. l ++ applied k rest.0) (e (t ∷ ts)) ∙ ap (λ l. share k j (t ∷ ts) ++ l) (w.all is);
  begun = (
    w.begun.0,
    ap (λ l. (l ++ applied k rest.0) ++ w.begun.0) (e (t ∷ ts))
        ∙ append_assoc (share k j (t ∷ ts)) (applied k rest.0) w.begun.0
        ∙ ap (λ l. share k j (t ∷ ts) ++ l) w.begun.1,
  );
}

-- The tasks that create a request, if that is the kind.
abbrev pub creates : PersistTaskKind → List PersistTask → List PersistTask
creates k ts = share k PersistTaskKind.create_request (tasks_for PersistTaskKind.create_request ts)

-- A write before the others.
before-Writes :
    (k : PersistTaskKind) (t : PersistTask) (ts : List PersistTask) (w : Written)
    → Writes ts k w
    → Writes (share k PersistTaskKind.create_request (t ∷ []) ++ ts) k (created t ∷ w.0, w.1)
before-Writes k t ts w h =
    let e = in_write-write_of k PersistTaskKind.create_request t in
    record {
      all = λ is.
          ap (λ l. l ++ applied k w.0) e
          ∙ ap (λ l. share k PersistTaskKind.create_request (t ∷ []) ++ l) (h.all is);
      begun = (
        h.begun.0,
        ap (λ l. (l ++ applied k w.0) ++ h.begun.0) e
            ∙ append_assoc (share k PersistTaskKind.create_request (t ∷ [])) (applied k w.0)
                h.begun.0
            ∙ ap (λ l. share k PersistTaskKind.create_request (t ∷ []) ++ l) h.begun.1,
      );
    }

creates-first :
    (k : PersistTaskKind) (t : PersistTask) (ts more : List PersistTask)
    → same_kind PersistTaskKind.create_request t.kind ≡ true
    → share k PersistTaskKind.create_request (t ∷ []) ++ (creates k ts ++ more)
      ≡ creates k (t ∷ ts) ++ more
creates-first k t ts more e = elim (Bool-cases (same_kind k PersistTaskKind.create_request)) [
  | inl f ↦ rw (f, e) refl
  | inr f ↦ rw f refl
]

pub run_creates-Writes :
    (k : PersistTaskKind) (more : List PersistTask) (f : Failures) (ts : List PersistTask)
    (rest : Written)
    → Writes more k rest
    → Writes (creates k ts ++ more) k (run_creates f ts rest)
unfolding run_creates
run_creates-Writes k more f [] rest w = subst (λ l. Writes (l ++ more) k rest) (sym nothing) w
  where
    nothing : creates k [] ≡ []
    nothing = elim (Bool-cases (same_kind k PersistTaskKind.create_request)) [
      | inl f ↦ rw f refl
      | inr f ↦ rw f refl
    ]
run_creates-Writes k more f (t ∷ ts) rest w =
    let later = run_creates-Writes k more f ts rest w in
    elim (Bool-cases (same_kind PersistTaskKind.create_request t.kind)) [
      | inr other ↦ rw other later
      | inl creates_it ↦ elim (Bool-cases (f.create_fails t)) [
        | inl failed ↦ rw (creates_it, failed) (record { all = λ is. cc; begun = (_, refl) })
        | inr written ↦
            subst (λ l. Writes l k (run_creates f (t ∷ ts) rest))
              (creates-first k t ts more creates_it)
              (rw (creates_it, written)
                (before-Writes k t (creates k ts ++ more) (run_creates f ts rest) later))
      ]
    ]

pub nothing-Writes : (k : PersistTaskKind) → Writes [] k ([], true)
nothing-Writes k = record { all = λ is. refl; begun = ([], refl) }

pub in_write-completed :
    (k : PersistTaskKind) (xs : List PersistTask)
    → in_write k (completed xs) ≡ share k PersistTaskKind.complete_request xs
in_write-completed PersistTaskKind.create_request xs = refl
in_write-completed PersistTaskKind.complete_request xs = refl
in_write-completed PersistTaskKind.rpc_metric xs = refl
in_write-completed PersistTaskKind.device_metric xs = refl

pub in_write-rpc_added :
    (k : PersistTaskKind) (xs : List PersistTask)
    → in_write k (rpc_added xs) ≡ share k PersistTaskKind.rpc_metric xs
in_write-rpc_added PersistTaskKind.create_request xs = refl
in_write-rpc_added PersistTaskKind.complete_request xs = refl
in_write-rpc_added PersistTaskKind.rpc_metric xs = refl
in_write-rpc_added PersistTaskKind.device_metric xs = refl

pub in_write-device_added :
    (k : PersistTaskKind) (xs : List PersistTask)
    → in_write k (device_added xs) ≡ share k PersistTaskKind.device_metric xs
in_write-device_added PersistTaskKind.create_request xs = refl
in_write-device_added PersistTaskKind.complete_request xs = refl
in_write-device_added PersistTaskKind.rpc_metric xs = refl
in_write-device_added PersistTaskKind.device_metric xs = refl

-- The tasks of a kind, by the parts of a batch.
pub shares :
    (k : PersistTaskKind) (ts : List PersistTask)
    → creates k ts
        ++ (share k PersistTaskKind.complete_request (of_kind PersistTaskKind.complete_request ts)
            ++ (share k PersistTaskKind.rpc_metric (of_kind PersistTaskKind.rpc_metric ts)
                ++ (share k PersistTaskKind.device_metric (of_kind PersistTaskKind.device_metric ts)
                    ++ [])))
      ≡ tasks_for k ts
shares PersistTaskKind.create_request ts = append-nil _
shares PersistTaskKind.complete_request ts =
    append-nil _ ∙ of_kind-all PersistTaskKind.complete_request ts
shares PersistTaskKind.rpc_metric ts = append-nil _ ∙ of_kind-all PersistTaskKind.rpc_metric ts
shares PersistTaskKind.device_metric ts =
    append-nil _ ∙ of_kind-all PersistTaskKind.device_metric ts
