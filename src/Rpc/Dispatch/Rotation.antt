-- ===== src/Rpc/Dispatch/Rotation.antt =====
-- internal/rpc/hub.go, `pickSession`: the loop over the offsets, and the client that it picks.
use native.Mathlib.Decide.{dec_lt}
use native.Mathlib.Nat.{add-zero, add-mod_right, mod-eq_of_lt}
use r0rpc.Prelude.{
  ℕ, zero, suc, ◌+◌, ◌-◌, ◌%◌, ◌<◌, ◌≡◌, refl, sym, ap, ◌∙◌, ◌⊎◌, inl, inr, String, Bool, true,
  false, some, List, [], ◌∷◌, ◌==◌, string_eq, length, get_elem?, member, arith, Bool-cases,
  if◌then◌else◌,
}
use r0rpc.Prelude.Map.{insert}
use r0rpc.Rpc.Job.{Result, ok, err, no_online_client, group_saturated}
use r0rpc.Rpc.State.{Hub}
use r0rpc.Rpc.Dispatch.{Candidate, candidate_at, pick_loop, saw, take_ready}

abbrev pub is_ready : Candidate → Bool
is_ready (Candidate.ready p) = true
is_ready _ = false

ready_or_not : (c : Candidate) → ((p : ℕ) × (c ≡ Candidate.ready p)) ⊎ (is_ready c ≡ false)
ready_or_not (Candidate.ready p) = inl (p, refl)
ready_or_not Candidate.offline = inr refl
ready_or_not Candidate.saturated = inr refl

skip :
    (c : Candidate) (h : Hub) (group : String) (next : ℕ) (rest : Hub × Result ℕ)
    → is_ready c ≡ false
    → take_ready c h group next rest ≡ rest
skip Candidate.offline h group next rest e = refl
skip Candidate.saturated h group next rest e = refl
skip (Candidate.ready p) h group next rest e = cc

next_offset : (offset j : ℕ) → (offset + 1) + j ≡ offset + suc j
next_offset offset j = omega arith

module _ (h : Hub) (group : String) (clients : List String) (start : ℕ) where
  -- The place of the order that the loop looks at with an offset, and what it finds there.
  abbrev pub place_at : ℕ → ℕ
  place_at k = (start + k) % length clients

  abbrev pub found_at : ℕ → Candidate
  found_at k = candidate_at h group (get_elem? clients (place_at k))

  pub seen_after : ℕ → ℕ → Bool → Bool
  seen_after zero offset seen = seen
  seen_after (suc rounds) offset seen = seen_after rounds (offset + 1) (saw (found_at offset) seen)

  abbrev pub Found : ℕ → ℕ → Hub × Result ℕ → Type 0
  Found rounds offset r =
      (i : ℕ) × (p : ℕ) × (i < rounds)
      × (found_at (offset + i) ≡ Candidate.ready p)
      × ((j : ℕ) → j < i → is_ready (found_at (offset + j)) ≡ false)
      × (r ≡ (
        record h {
          group_cursor = insert group ((place_at (offset + i) + 1) % length clients) h.group_cursor;
        },
        ok p,
      ))

  abbrev pub Missed : ℕ → ℕ → Bool → Hub × Result ℕ → Type 0
  Missed rounds offset seen r =
      ((j : ℕ) → j < rounds → is_ready (found_at (offset + j)) ≡ false)
      × (r ≡ (h, err (if seen_after rounds offset seen then group_saturated else no_online_client)))

  shift_not_ready :
      (offset n : ℕ)
      → is_ready (found_at offset) ≡ false
      → ((j : ℕ) → j < n → is_ready (found_at ((offset + 1) + j)) ≡ false)
      → (j : ℕ) → j < suc n
      → is_ready (found_at (offset + j)) ≡ false
  shift_not_ready offset n e f zero h = rw (add-zero offset) e
  shift_not_ready offset n e f (suc j) h = rw (sym (next_offset offset j)) (f j (omega arith))

  step_ready :
      (offset p : ℕ) (rest : Hub × Result ℕ)
      → found_at offset ≡ Candidate.ready p
      → take_ready (found_at offset) h group ((place_at offset + 1) % length clients) rest ≡ (
        record h {
          group_cursor = insert group ((place_at offset + 1) % length clients) h.group_cursor;
        },
        ok p,
      )
  step_ready offset p rest e = rw e refl

  pub pick_loop-cases :
      (rounds offset : ℕ) (seen : Bool)
      → Found rounds offset (pick_loop h group clients start rounds offset seen)
        ⊎ Missed rounds offset seen (pick_loop h group clients start rounds offset seen)
  unfolding pick_loop seen_after
  pick_loop-cases zero offset seen = inr (λ j lt. elim lt [ ], refl)
  pick_loop-cases (suc rounds) offset seen = elim (ready_or_not (found_at offset)) [
    | inl (p, e) ↦ inl (
      0,
      p,
      omega arith,
      rw (add-zero offset) e,
      λ j lt. elim lt [ ],
      rw (add-zero offset) (step_ready offset p _ e),
    )
    | inr e ↦ elim (pick_loop-cases rounds (offset + 1) (saw (found_at offset) seen)) [
      | inl (i, p, lt, at, before, r) ↦ inl (
        suc i,
        p,
        omega arith,
        rw (sym (next_offset offset i)) at,
        shift_not_ready offset i e before,
        rw (sym (next_offset offset i)) (skip (found_at offset) h group _ _ e ∙ r),
      )
      | inr (missed, r) ↦
          inr (shift_not_ready offset rounds e missed, skip (found_at offset) h group _ _ e ∙ r)
    ]
  ]

pub member-get_elem? :
    (xs : List String) (i : ℕ) (c : String) → get_elem? xs i ≡ some c → member c xs ≡ true
member-get_elem? [] i c e = cc
member-get_elem? (x ∷ xs) zero c e = ground (arith, string_eq.same_iff x c)
member-get_elem? (x ∷ xs) (suc i) c e = ground (arith, member-get_elem? xs i c e)

pub member_index :
    (xs : List String) (c : String)
    → member c xs ≡ true
    → (i : ℕ) × (i < length xs) × (get_elem? xs i ≡ some c)
member_index [] c e = cc
member_index (x ∷ xs) c e = elim (Bool-cases (x == c)) [
  | inl hit ↦ (0, omega arith, ground (arith, string_eq.same_iff x c))
  | inr miss ↦ let (i, lt, at) = member_index xs c (ground arith) in (suc i, omega arith, at)
]

-- Every place of the order comes up at some offset.
pub offset_of : (n start i : ℕ) → start < n → i < n → (k : ℕ) × (k < n) × ((start + k) % n ≡ i)
offset_of n start i hs hi = elim (dec_lt i start) [
  | yes below ↦ (
    i + n - start,
    omega arith,
    ap (λ (t : ℕ). t % n) (regroup below) ∙ add-mod_right i n ∙ mod-eq_of_lt hi,
  )
  | no above ↦ (i - start, omega arith, ap (λ (t : ℕ). t % n) (omega arith) ∙ mod-eq_of_lt hi)
]
  where
    regroup : i < start → start + (i + n - start) ≡ i + n
    regroup h = omega arith

seen_true :
    (h : Hub) (group : String) (clients : List String) (start rounds offset : ℕ) (found : Candidate)
    → seen_after h group clients start rounds offset (saw found true) ≡ true
unfolding seen_after
seen_true h group clients start zero offset Candidate.offline = refl
seen_true h group clients start zero offset _ = refl
seen_true h group clients start (suc n) offset Candidate.offline =
    seen_true h group clients start n (offset + 1) (found_at h group clients start offset)
seen_true h group clients start (suc n) offset _ =
    seen_true h group clients start n (offset + 1) (found_at h group clients start offset)

pub seen_first :
    (h : Hub) (group : String) (clients : List String) (start n : ℕ)
    → 0 < n
    → found_at h group clients start 0 ≡ Candidate.saturated
    → seen_after h group clients start n 0 false ≡ true
unfolding seen_after
seen_first h group clients start zero lt e = elim lt [ ]
seen_first h group clients start (suc n) lt e =
    rw (e, seen_after) (seen_true h group clients start n (0 + 1) Candidate.saturated)
