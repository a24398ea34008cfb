-- ===== src/Rpc/Goroutine/Conduct.antt =====
-- internal/rpc/hub.go: programs that keep their accounts: a rule for each step, and one for sequences.
use r0rpc.Prelude.{ℕ, refl, String, Option, none, some, List, [], ◌∷◌, AllOf, AllOf-append, arith}
use mathlib.Core.List.{append-nil}
use r0rpc.Rpc.Job.{Job}
use r0rpc.Rpc.State.{Hub}
use r0rpc.Rpc.Dispatch.{Turn, acquire_turn, pop_pending}
use r0rpc.Rpc.Ops.{HubOp}
use r0rpc.Rpc.Goroutine.{
  Proc, ◌>>=◌, pure, gap, turn_event, pop_event, try_slot, give_back, look, send, put_back,
}
use r0rpc.Rpc.Goroutine.Runs.{
  Run-append, IsRun, pure-IsRun, gap-IsRun, try_slot-IsRun, give_back-IsRun, look-IsRun, send-IsRun,
  put_back-IsRun,
}
use r0rpc.Rpc.Goroutine.Accounts.{Balanced, Balanced-append, Concerns}

-- For the client `c`, from `before` slots and the jobs `had`, the program's log is a run of the hub in which
-- slots and jobs are the client's, and its accounts leave the slots and the jobs in hand that its value
-- says.
pub record Conducts {A : Type 0} (c : String) (before : ℕ) (had : List Job) (after : A → ℕ)
    (has : A → List Job) (m : Proc A) : Type 0 where
  pub run : IsRun m
  pub own : (h : Hub) → AllOf (Concerns c) (m h).log
  pub balanced : (h : Hub) → Balanced before had (m h).log (after (m h).value) (has (m h).value)

module _ {A B : Type 0} {client : String} {b : ℕ} {x : List Job} {after : A → ℕ}
    {has : A → List Job} {after' : B → ℕ} {has' : B → List Job} where
  pub bind-Conducts :
      (m : Proc A) (f : A → Proc B)
      → Conducts client b x after has m
      → ((a : A) → Conducts client (after a) (has a) after' has' (f a))
      → Conducts client b x after' has' (m >>= f)
  bind-Conducts m f c d = record {
    run = λ h. Run-append (c.run h) ((d (m h).value).run (m h).hub);
    own = λ h.
        AllOf-append (Concerns client) (m h).log (f (m h).value (m h).hub).log (c.own h)
          ((d (m h).value).own (m h).hub);
    balanced = λ h. Balanced-append (c.balanced h) ((d (m h).value).balanced (m h).hub);
  }

pub pure-Conducts :
    {A : Type 0} {c : String} (after : A → ℕ) (has : A → List Job) (a : A)
    → Conducts c (after a) (has a) after has (pure a)
pure-Conducts after has a = record {
  run = pure-IsRun a;
  own = λ h. tt;
  balanced = λ h. record { slots = omega arith; jobs = append-nil _ };
}

-- The slots held after a turn.
abbrev pub held : Turn → ℕ
held (Turn.acquired p) = 1
held _ = 0

abbrev pub in_hand : Option Job → List Job
in_hand none = []
in_hand (some job) = job ∷ []

pub gap-Conducts :
    {c : String} (b : ℕ) (x : List Job) (ops : List HubOp)
    → Conducts c b x (λ _. b) (λ _. x) (gap ops)
gap-Conducts b x ops = record {
  run = gap-IsRun ops;
  own = λ h. (tt, tt);
  balanced = λ h. record { slots = omega arith; jobs = append-nil _ };
}

pub try_slot-Conducts : (c : String) → Conducts c 0 [] held (λ _. []) (try_slot c)
unfolding try_slot
try_slot-Conducts c = record {
  run = try_slot-IsRun c;
  own = λ h. mine (acquire_turn h c).1;
  balanced = λ h. go (acquire_turn h c).1;
}
  where
    mine : (t : Turn) → AllOf (Concerns c) (turn_event c t ∷ [])
    mine (Turn.acquired p) = (refl, tt)
    mine Turn.gone = (refl, tt)
    mine (Turn.wait n) = (refl, tt)

    go : (t : Turn) → Balanced 0 [] (turn_event c t ∷ []) (held t) []
    go (Turn.acquired p) = record { slots = refl; jobs = refl }
    go Turn.gone = record { slots = refl; jobs = refl }
    go (Turn.wait n) = record { slots = refl; jobs = refl }

pub give_back-Conducts :
    (x : List Job) (c : String) → Conducts c 1 x (λ _. 0) (λ _. x) (give_back c)
unfolding give_back
give_back-Conducts x c = record {
  run = give_back-IsRun c;
  own = λ h. (refl, tt);
  balanced = λ h. record { slots = refl; jobs = append-nil _ };
}

pub look-Conducts : {c : String} (b p now : ℕ) → Conducts c b [] (λ _. b) in_hand (look p now)
unfolding look
look-Conducts {c} b p now = record {
  run = look-IsRun p now;
  own = λ h. mine (pop_pending h p now).1;
  balanced = λ h. go (pop_pending h p now).1;
}
  where
    mine : (o : Option Job) → AllOf (Concerns c) (pop_event p now o ∷ [])
    mine (some job) = (tt, tt)
    mine none = (tt, tt)

    go : (o : Option Job) → Balanced b [] (pop_event p now o ∷ []) b (in_hand o)
    go (some job) = record { slots = omega arith; jobs = refl }
    go none = record { slots = omega arith; jobs = refl }

pub send-Conducts : {c : String} (job : Job) → Conducts c 1 (job ∷ []) (λ _. 0) (λ _. []) (send job)
unfolding send
send-Conducts job = record {
  run = send-IsRun job;
  own = λ h. (tt, tt);
  balanced = λ h. record { slots = refl; jobs = refl };
}

pub put_back-Conducts :
    (b : ℕ) (c : String) (ops : List HubOp) (now : ℕ) (job : Job)
    → Conducts c b (job ∷ []) (λ _. b) (λ _. []) (put_back c ops now job)
unfolding put_back
put_back-Conducts b c ops now job = record {
  run = put_back-IsRun c ops now job;
  own = λ h. (refl, tt);
  balanced = λ h. record { slots = omega arith; jobs = refl };
}
