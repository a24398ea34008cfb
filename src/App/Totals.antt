-- ===== src/App/Totals.antt =====
-- internal/store/store.go: rows of metrics as the database adds them up.
use r0rpc.Prelude.{
  ℕ, ◌+◌, ◌≡◌, refl, ap, ◌∙◌, sym, Bool, Option, none, some, List, [], ◌∷◌, ◌++◌, max,
  if◌then◌else◌, arith,
}

-- `DeviceDailyMetricDelta` and `RPCDailyMetricDelta`, without their keys.
pub record Delta : Type 0 where
  pub total_requests : ℕ
  pub success_requests : ℕ
  pub failed_requests : ℕ
  pub timeout_requests : ℕ
  pub total_latency_ms : ℕ
  pub max_latency_ms : ℕ

-- `total_requests + VALUES(total_requests)` and so on, and `GREATEST` of the two maxima.
abbrev pub plus : Delta → Delta → Delta
plus a b = record {
  total_requests = a.total_requests + b.total_requests;
  success_requests = a.success_requests + b.success_requests;
  failed_requests = a.failed_requests + b.failed_requests;
  timeout_requests = a.timeout_requests + b.timeout_requests;
  total_latency_ms = a.total_latency_ms + b.total_latency_ms;
  max_latency_ms = max a.max_latency_ms b.max_latency_ms;
}

pub Delta-ext :
    (a b : Delta)
    → a.total_requests ≡ b.total_requests
    → a.success_requests ≡ b.success_requests
    → a.failed_requests ≡ b.failed_requests
    → a.timeout_requests ≡ b.timeout_requests
    → a.total_latency_ms ≡ b.total_latency_ms
    → a.max_latency_ms ≡ b.max_latency_ms
    → a ≡ b
Delta-ext a b e f g h k l = λ i. record {
  total_requests = e i;
  success_requests = f i;
  failed_requests = g i;
  timeout_requests = h i;
  total_latency_ms = k i;
  max_latency_ms = l i;
}

plus_comm : (a b : Delta) → plus a b ≡ plus b a
plus_comm a b =
    Delta-ext _ _ (omega arith) (omega arith) (omega arith) (omega arith) (omega arith)
      (omega arith)

plus_assoc : (a b c : Delta) → plus (plus a b) c ≡ plus a (plus b c)
plus_assoc a b c =
    Delta-ext _ _ (omega arith) (omega arith) (omega arith) (omega arith) (omega arith)
      (omega arith)

-- A row that may be missing, with another one added.
abbrev pub joined : Option Delta → Option Delta → Option Delta
joined none b = b
joined (some a) none = some a
joined (some a) (some b) = some (plus a b)

pub joined-none : (a : Option Delta) → joined a none ≡ a
joined-none none = refl
joined-none (some a) = refl

pub joined_comm : (a b : Option Delta) → joined a b ≡ joined b a
joined_comm none none = refl
joined_comm none (some b) = refl
joined_comm (some a) none = refl
joined_comm (some a) (some b) = ap some (plus_comm a b)

pub joined_assoc : (a b c : Option Delta) → joined (joined a b) c ≡ joined a (joined b c)
joined_assoc none b c = refl
joined_assoc (some a) none c = refl
joined_assoc (some a) (some b) none = refl
joined_assoc (some a) (some b) (some c) = ap some (plus_assoc a b c)

-- What the rows whose keys pass a test add up to.
module _ {ℓ} {K : Type ℓ} where
  abbrev pub picked : (K → Bool) → K → Delta → Option Delta
  picked p k d = if p k then some d else none

  abbrev pub added_up : (K → Bool) → List (K × Delta) → Option Delta
  added_up p [] = none
  added_up p ((k, d) ∷ rows) = joined (picked p k d) (added_up p rows)

  pub added_up-append :
      (p : K → Bool) (xs ys : List (K × Delta))
      → added_up p (xs ++ ys) ≡ joined (added_up p xs) (added_up p ys)
  added_up-append p [] ys = refl
  added_up-append p ((k, d) ∷ xs) ys =
      ap (joined (picked p k d)) (added_up-append p xs ys)
      ∙ sym (joined_assoc (picked p k d) (added_up p xs) (added_up p ys))
