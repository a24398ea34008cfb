-- ===== src/Web/Frame/Bytes.antt =====
-- internal/web/client_ws.go: what the bit operations of the frames do to a byte.
use Prim.Native.Nat.{bit_and, bit_or, bit_xor}
use native.Mathlib.Decide.{dec_lt}
use r0rpc.Prelude.{
  ℕ, zero, suc, ◌<◌, ◌≡◌, refl, ap₂, subst, Bool, true, false, not, ◌&&◌, List, [], ◌∷◌, length,
  AllOf, get_or, get_elem?, ◌+◌, ◌%◌, eqb, arith,
}
use r0rpc.Web.Frame.{has_bit, unmask}

abbrev pub IsByte : ℕ → Type 0
IsByte b = b < 256

-- A test at every number below a bound.
abbrev check : ℕ → (ℕ → Bool) → Bool
check zero p = true
check (suc n) p = check n p && p n

check_sound : (n : ℕ) (p : ℕ → Bool) → check n p ≡ true → (b : ℕ) → b < n → p b ≡ true
check_sound zero p c b h = absurd (omega arith)
check_sound (suc n) p c b h = elim (dec_lt b n) [
  | yes lt ↦ check_sound n p (ground arith) b lt
  | no ge ↦ let last : n ≡ b = omega arith in subst (λ i. p i ≡ true) last (ground arith)
]

abbrev marks_well : ℕ → Bool
marks_well c =
    eqb (bit_and c 0x7f) c
    && not (has_bit c)
    && eqb (bit_and (bit_or 0x80 c) 0x7f) c
    && has_bit (bit_or 0x80 c)

marks_table : check 128 marks_well ≡ true
marks_table = refl

pub low_bits : (c : ℕ) → c < 128 → bit_and c 0x7f ≡ c
low_bits c h = ground (arith, check_sound 128 marks_well marks_table c h)

pub unmarked : (c : ℕ) → c < 128 → has_bit c ≡ false
unmarked c h = ground (arith, check_sound 128 marks_well marks_table c h)

pub marked_bits : (c : ℕ) → c < 128 → bit_and (bit_or 0x80 c) 0x7f ≡ c
marked_bits c h = ground (arith, check_sound 128 marks_well marks_table c h)

pub marked : (c : ℕ) → c < 128 → has_bit (bit_or 0x80 c) ≡ true
marked c h = ground (arith, check_sound 128 marks_well marks_table c h)

opcode_table : check 16 (λ c. eqb (bit_and (bit_or 0x80 c) 0x0f) c) ≡ true
opcode_table = refl

pub opcode_bits : (c : ℕ) → c < 16 → bit_and (bit_or 0x80 c) 0x0f ≡ c
opcode_bits c h =
    ground (arith, check_sound 16 (λ c. eqb (bit_and (bit_or 0x80 c) 0x0f) c) opcode_table c h)

abbrev unmasks : ℕ → ℕ → Bool
unmasks m b = eqb (bit_xor (bit_xor b m) m) b

xor_table : check 256 (λ m. check 256 (unmasks m)) ≡ true
xor_table = refl

pub xor_twice : (b m : ℕ) → IsByte b → IsByte m → bit_xor (bit_xor b m) m ≡ b
xor_twice b m hb hm = ground (
  arith,
  check_sound 256 (unmasks m) (check_sound 256 (λ m. check 256 (unmasks m)) xor_table m hm) b hb,
)

pub length-unmask : (key : List ℕ) (i : ℕ) (bs : List ℕ) → length (unmask key i bs) ≡ length bs
unfolding unmask
length-unmask key i [] = refl
length-unmask key i (b ∷ bs) = omega (arith, length-unmask key (i + 1) bs)

key-IsByte : (key : List ℕ) (i : ℕ) → AllOf IsByte key → IsByte (get_or (get_elem? key i) 0)
key-IsByte [] i a = omega arith
key-IsByte (k ∷ key) zero (h, a) = h
key-IsByte (k ∷ key) (suc i) (h, a) = key-IsByte key i a

pub unmask_twice :
    (key : List ℕ) (i : ℕ) (bs : List ℕ)
    → AllOf IsByte key
    → AllOf IsByte bs
    → unmask key i (unmask key i bs) ≡ bs
unfolding unmask
unmask_twice key i [] ks a = refl
unmask_twice key i (b ∷ bs) ks (h, a) =
    ap₂ (λ x xs. x ∷ xs)
      (xor_twice b (get_or (get_elem? key (i % 4)) 0) h (key-IsByte key (i % 4) ks))
      (unmask_twice key (i + 1) bs ks a)
