-- ===== src/Rpc/Goroutine/Accounts.antt =====
-- internal/rpc/hub.go: the accounts of a program that takes slots and jobs from the hub, by its log.
use r0rpc.Prelude.{ℕ, String, ◌+◌, ◌≡◌, refl, sym, ap, ◌∙◌, List, [], ◌∷◌, ◌++◌, arith}
use mathlib.Core.List.{append_assoc}
use r0rpc.Rpc.Job.{Job}
use r0rpc.Rpc.Goroutine.{Event}

-- The slots that a program took, and those that it gave back or left to the job that it sent.
abbrev pub slots_taken : List Event → ℕ
slots_taken [] = 0
slots_taken (Event.took c p ∷ es) = 1 + slots_taken es
slots_taken (_ ∷ es) = slots_taken es

abbrev pub slots_left : List Event → ℕ
slots_left [] = 0
slots_left (Event.gave_back c ∷ es) = 1 + slots_left es
slots_left (Event.sent job ∷ es) = 1 + slots_left es
slots_left (_ ∷ es) = slots_left es

-- The jobs that it took from a queue, and those that it sent or handed to `Requeue`, in their order.
abbrev pub jobs_popped : List Event → List Job
jobs_popped [] = []
jobs_popped (Event.popped p now job ∷ es) = job ∷ jobs_popped es
jobs_popped (_ ∷ es) = jobs_popped es

abbrev pub jobs_handled : List Event → List Job
jobs_handled [] = []
jobs_handled (Event.sent job ∷ es) = job ∷ jobs_handled es
jobs_handled (Event.requeued c ops now job e ∷ es) = job ∷ jobs_handled es
jobs_handled (_ ∷ es) = jobs_handled es

-- What a program does for a client: the slots that it takes and gives back are the client's, and so are the
-- jobs that it hands to `Requeue`.
abbrev pub Concerns : String → Event → Type 0
Concerns c (Event.took d p) = d ≡ c
Concerns c (Event.got_no_slot d t) = d ≡ c
Concerns c (Event.gave_back d) = d ≡ c
Concerns c (Event.requeued d ops now job e) = d ≡ c
Concerns c _ = Unit

-- From `before` slots and the jobs `had` in hand to `after` slots and the jobs `has`, nothing is lost.
pub record Balanced (before : ℕ) (had : List Job) (log : List Event) (after : ℕ) (has : List Job)
    : Type 0 where
  pub slots : before + slots_taken log ≡ slots_left log + after
  pub jobs : had ++ jobs_popped log ≡ jobs_handled log ++ has

taken-append : (l k : List Event) → slots_taken (l ++ k) ≡ slots_taken l + slots_taken k
taken-append [] k = omega arith
taken-append (e ∷ l) k = ground (arith, taken-append l k)

left-append : (l k : List Event) → slots_left (l ++ k) ≡ slots_left l + slots_left k
left-append [] k = omega arith
left-append (e ∷ l) k = ground (arith, left-append l k)

popped-append : (l k : List Event) → jobs_popped (l ++ k) ≡ jobs_popped l ++ jobs_popped k
popped-append [] k = refl
popped-append (e ∷ l) k = ground (arith, popped-append l k)

handled-append : (l k : List Event) → jobs_handled (l ++ k) ≡ jobs_handled l ++ jobs_handled k
handled-append [] k = refl
handled-append (e ∷ l) k = ground (arith, handled-append l k)

pub Balanced-append :
    {a b c : ℕ} {x y z : List Job} {l k : List Event}
    → Balanced a x l b y
    → Balanced b y k c z
    → Balanced a x (l ++ k) c z
Balanced-append {a} {b} {c} {x} {y} {z} {l} {k} p q = record {
  slots = ground (arith, p.slots, q.slots, taken-append l k, left-append l k);
  jobs =
      ap (λ t. x ++ t) (popped-append l k)
      ∙ sym (append_assoc x (jobs_popped l) (jobs_popped k))
      ∙ ap (λ t. t ++ jobs_popped k) p.jobs
      ∙ append_assoc (jobs_handled l) y (jobs_popped k)
      ∙ ap (λ t. jobs_handled l ++ t) q.jobs
      ∙ sym (append_assoc (jobs_handled l) (jobs_handled k) z)
      ∙ ap (λ t. t ++ z) (sym (handled-append l k));
}
