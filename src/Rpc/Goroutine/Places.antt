-- ===== src/Rpc/Goroutine/Places.antt =====
-- internal/rpc/hub.go: a program takes jobs only from the queue of the session that its slot is of.
use r0rpc.Prelude.{ℕ, ◌≡◌, refl, sym, subst, String, Option, none, some, List, [], ◌∷◌, ◌++◌}
use r0rpc.Rpc.Job.{Job}
use r0rpc.Rpc.State.{Hub}
use r0rpc.Rpc.Dispatch.{Turn, acquire_turn, pop_pending}
use r0rpc.Rpc.Ops.{HubOp}
use r0rpc.Rpc.Goroutine.{
  Event, Proc, ◌>>=◌, pure, gap, turn_event, pop_event, try_slot, give_back, look, send, put_back,
}

-- The place of the session of the last slot that was taken, behind a log.
abbrev pub place_after : Option ℕ → List Event → Option ℕ
place_after at [] = at
place_after at (Event.took c p ∷ es) = place_after (some p) es
place_after at (_ ∷ es) = place_after at es

-- Every look into a queue is at that place.
abbrev pub LooksAt : Option ℕ → List Event → Type 0
LooksAt at [] = Unit
LooksAt at (Event.took c p ∷ es) = LooksAt (some p) es
LooksAt at (Event.popped p now job ∷ es) = (at ≡ some p) × LooksAt at es
LooksAt at (Event.found_none p now ∷ es) = (at ≡ some p) × LooksAt at es
LooksAt at (_ ∷ es) = LooksAt at es

LooksAt-append :
    (at : Option ℕ) (l k : List Event)
    → LooksAt at l
    → LooksAt (place_after at l) k
    → LooksAt at (l ++ k)
LooksAt-append at [] k a b = b
LooksAt-append at (Event.took c p ∷ l) k a b = LooksAt-append (some p) l k a b
LooksAt-append at (Event.popped p now job ∷ l) k a b = (a.0, LooksAt-append at l k a.1 b)
LooksAt-append at (Event.found_none p now ∷ l) k a b = (a.0, LooksAt-append at l k a.1 b)
LooksAt-append at (Event.others ops ∷ l) k a b = LooksAt-append at l k a b
LooksAt-append at (Event.got_no_slot c t ∷ l) k a b = LooksAt-append at l k a b
LooksAt-append at (Event.gave_back c ∷ l) k a b = LooksAt-append at l k a b
LooksAt-append at (Event.sent job ∷ l) k a b = LooksAt-append at l k a b
LooksAt-append at (Event.requeued c ops now job e ∷ l) k a b = LooksAt-append at l k a b

place_after-append :
    (at : Option ℕ) (l k : List Event) → place_after at (l ++ k) ≡ place_after (place_after at l) k
place_after-append at [] k = refl
place_after-append at (Event.took c p ∷ l) k = place_after-append (some p) l k
place_after-append at (Event.popped p now job ∷ l) k = place_after-append at l k
place_after-append at (Event.found_none p now ∷ l) k = place_after-append at l k
place_after-append at (Event.others ops ∷ l) k = place_after-append at l k
place_after-append at (Event.got_no_slot c t ∷ l) k = place_after-append at l k
place_after-append at (Event.gave_back c ∷ l) k = place_after-append at l k
place_after-append at (Event.sent job ∷ l) k = place_after-append at l k
place_after-append at (Event.requeued c ops now job e ∷ l) k = place_after-append at l k

-- A program whose looks are all at the place of its slot, with what its value says of that place.
pub record Keeps {A : Type 0} (at : Option ℕ) (says : A → Option ℕ → Type 0) (m : Proc A)
    : Type 0 where
  pub looks : (h : Hub) → LooksAt at (m h).log
  pub place : (h : Hub) → says (m h).value (place_after at (m h).log)

abbrev pub Anywhere {ℓ} : {A : Type ℓ} → A → Option ℕ → Type 0
Anywhere a at = Unit

abbrev pub Still {ℓ} : {A : Type ℓ} → Option ℕ → A → Option ℕ → Type 0
Still at a to = to ≡ at

pub bind-Keeps :
    {A B : Type 0} {at : Option ℕ} {says : A → Option ℕ → Type 0} {says' : B → Option ℕ → Type 0}
    (m : Proc A) (f : A → Proc B)
    → Keeps at says m
    → ((a : A) (to : Option ℕ) → says a to → Keeps to says' (f a))
    → Keeps at says' (m >>= f)
bind-Keeps {at = at} {says' = says'} m f k l =
    let then = λ (h : Hub). l (m h).value (place_after at (m h).log) (k.place h) in
    record {
      looks = λ h.
          LooksAt-append at (m h).log (f (m h).value (m h).hub).log (k.looks h)
            ((then h).looks (m h).hub);
      place = λ h.
          subst (says' (f (m h).value (m h).hub).value)
            (sym (place_after-append at (m h).log (f (m h).value (m h).hub).log))
            ((then h).place (m h).hub);
    }

pub pure-Keeps :
    {A : Type 0} {at : Option ℕ} (says : A → Option ℕ → Type 0) (a : A)
    → says a at
    → Keeps at says (pure a)
pure-Keeps says a s = record { looks = λ h. tt; place = λ h. s }

pub gap-Keeps : (at : Option ℕ) (ops : List HubOp) → Keeps at (Still at) (gap ops)
gap-Keeps at ops = record { looks = λ h. tt; place = λ h. refl }

pub give_back-Keeps : (at : Option ℕ) (c : String) → Keeps at (Still at) (give_back c)
unfolding give_back
give_back-Keeps at c = record { looks = λ h. tt; place = λ h. refl }

pub send-Keeps : (at : Option ℕ) (job : Job) → Keeps at (Still at) (send job)
unfolding send
send-Keeps at job = record { looks = λ h. tt; place = λ h. refl }

pub put_back-Keeps :
    (at : Option ℕ) (c : String) (ops : List HubOp) (now : ℕ) (job : Job)
    → Keeps at (Still at) (put_back c ops now job)
unfolding put_back
put_back-Keeps at c ops now job = record { looks = λ h. tt; place = λ h. refl }

-- A slot is of the place that it names.
abbrev pub PlaceOf : Turn → Option ℕ → Type 0
PlaceOf (Turn.acquired p) at = at ≡ some p
PlaceOf _ at = Unit

pub try_slot-Keeps : (at : Option ℕ) (c : String) → Keeps at PlaceOf (try_slot c)
unfolding try_slot
try_slot-Keeps at c = record {
  looks = λ h. looks_of (acquire_turn h c).1;
  place = λ h. place_of (acquire_turn h c).1;
}
  where
    looks_of : (t : Turn) → LooksAt at (turn_event c t ∷ [])
    looks_of (Turn.acquired p) = tt
    looks_of Turn.gone = tt
    looks_of (Turn.wait n) = tt

    place_of : (t : Turn) → PlaceOf t (place_after at (turn_event c t ∷ []))
    place_of (Turn.acquired p) = refl
    place_of Turn.gone = tt
    place_of (Turn.wait n) = tt

pub look-Keeps : (p now : ℕ) → Keeps (some p) (Still (some p)) (look p now)
unfolding look
look-Keeps p now = record {
  looks = λ h. looks_of (pop_pending h p now).1;
  place = λ h. place_of (pop_pending h p now).1;
}
  where
    looks_of : (o : Option Job) → LooksAt (some p) (pop_event p now o ∷ [])
    looks_of none = (refl, tt)
    looks_of (some job) = (refl, tt)

    place_of : (o : Option Job) → place_after (some p) (pop_event p now o ∷ []) ≡ some p
    place_of none = refl
    place_of (some job) = refl
