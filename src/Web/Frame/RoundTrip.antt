-- ===== src/Web/Frame/RoundTrip.antt =====
-- internal/web/client_ws.go: `ReadMessage` reads what the peer sends, and what `writeFrame` writes.
use Prim.Native.Nat.{bit_and, bit_or}
use r0rpc.Prelude.{
  ℕ, ◌≤◌, ◌<◌, ◌≡◌, refl, sym, ap, ◌∙◌, subst, Bool, true, false, some, List, [], ◌∷◌, ◌++◌, length,
  ltb, AllOf, arith, inl, inr, Bool-cases,
}
use mathlib.Core.List.{append_assoc}
use mathlib.Core.Option.{some-injective}
use r0rpc.Web.Frame.{
  Read, got, ◌>>=◌, read_full, read_length, read_payload, read_frame, has_bit, ws_max_message_bytes,
  unmask, write_frame, length_byte, extended_length,
}
use r0rpc.Web.Frame.Bytes.{
  IsByte, low_bits, unmarked, marked_bits, marked, opcode_bits, length-unmask, unmask_twice,
}

read_full-append : (xs s : List ℕ) → read_full (length xs) (xs ++ s) ≡ got xs s
unfolding read_full
read_full-append [] s = refl
read_full-append (x ∷ xs) s = ap (λ r. r >>= λ bs rest. got (x ∷ bs) rest) (read_full-append xs s)

length_byte_small : (n : ℕ) → length_byte n < 128
length_byte_small n = ground arith

-- The length that the header states is the one that is read.
read_length_lem :
    (n : ℕ) (s : List ℕ)
    → n ≤ ws_max_message_bytes
    → read_length (length_byte n) (extended_length n ++ s) ≡ got n s
unfolding read_length read_full
read_length_lem n s h = ground arith

-- The bytes of a frame without a mask.
abbrev plain_frame : ℕ → List ℕ → List ℕ
plain_frame opcode payload =
    bit_or 0x80 opcode ∷ length_byte (length payload) ∷ extended_length (length payload) ++ payload

written :
    (opcode : ℕ) (payload frame : List ℕ)
    → write_frame opcode payload ≡ some frame
    → (frame ≡ plain_frame opcode payload) × (length payload ≤ ws_max_message_bytes)
unfolding write_frame
written opcode payload frame e = elim (Bool-cases (ltb ws_max_message_bytes (length payload))) [
  | inl big ↦ ground arith
  | inr fits ↦
      let sent : write_frame opcode payload ≡ some (plain_frame opcode payload) = rw fits refl in
      (some-injective frame (plain_frame opcode payload) (sym e ∙ sent), ground arith)
]

-- What is read behind the first two bytes.
behind : Bool → ℕ → Read ℕ → Read (ℕ × List ℕ)
behind masked opcode r =
    r >>= λ n rest. read_payload masked n rest >>= λ payload rest'. got (opcode, payload) rest'

read_header :
    (b c : ℕ) (masked : Bool) (opcode short : ℕ) (s : List ℕ)
    → has_bit b ≡ true
    → bit_and b 0x0f ≡ opcode
    → has_bit c ≡ masked
    → bit_and c 0x7f ≡ short
    → read_frame (b ∷ c ∷ s) ≡ behind masked opcode (read_length short s)
unfolding read_frame behind
read_header b c masked opcode short s e f g h = rw (e, f, g, h) refl

module _ (opcode : ℕ) (payload s : List ℕ) (small : opcode < 16) where
  read_frame-plain :
      length payload ≤ ws_max_message_bytes
      → read_frame (plain_frame opcode payload ++ s) ≡ got (opcode, payload) s
  unfolding behind read_payload
  read_frame-plain l =
      let n = length payload in
      let lt = length_byte_small n in
      ap (λ t. read_frame (bit_or 0x80 opcode ∷ length_byte n ∷ t))
        (append_assoc (extended_length n) payload s)
      ∙ read_header (bit_or 0x80 opcode) (length_byte n) false opcode (length_byte n)
          (extended_length n ++ (payload ++ s)) (marked opcode (omega (arith, small)))
          (opcode_bits opcode small) (unmarked (length_byte n) lt) (low_bits (length_byte n) lt)
      ∙ ap (behind false opcode) (read_length_lem n (payload ++ s) l)
      ∙ ap (λ r. r >>= λ payload rest'. got (opcode, payload) rest') (read_full-append payload s)

  -- A frame that `writeFrame` writes is read back with its opcode.
  pub read_frame-write_frame :
      (frame : List ℕ)
      → write_frame opcode payload ≡ some frame
      → read_frame (frame ++ s) ≡ got (opcode, payload) s
  read_frame-write_frame frame e =
      let (same, l) = written opcode payload frame e in
      subst (λ f. read_frame (f ++ s) ≡ got (opcode, payload) s) (sym same) (read_frame-plain l)

-- A frame of a client, as the protocol has it: the mask bit, the key, and the payload under the key.
unfoldable pub client_frame : List ℕ → ℕ → List ℕ → List ℕ
client_frame key opcode payload =
    bit_or 0x80 opcode
      ∷ bit_or 0x80 (length_byte (length payload))
      ∷ extended_length (length payload)
    ++ (key ++ unmask key 0 payload)

read_masked :
    (key payload s : List ℕ)
    → length key ≡ 4
    → AllOf IsByte key
    → AllOf IsByte payload
    → read_payload true (length payload) (key ++ (unmask key 0 payload ++ s)) ≡ got payload s
unfolding read_payload
read_masked key payload s k ks ps =
    let masked = unmask key 0 payload in
    let first : read_full 4 (key ++ (masked ++ s)) ≡ got key (masked ++ s) =
      ap (λ n. read_full n (key ++ (masked ++ s))) (sym k) ∙ read_full-append key (masked ++ s) in
    let second : read_full (length payload) (masked ++ s) ≡ got masked s =
      ap (λ n. read_full n (masked ++ s)) (sym (length-unmask key 0 payload))
      ∙ read_full-append masked s in
    ap
      (λ r. r >>= λ key rest.
        read_full (length payload) rest >>= λ payload rest'. got (unmask key 0 payload) rest')
      first
    ∙ ap (λ r. r >>= λ payload rest'. got (unmask key 0 payload) rest') second
    ∙ ap (λ p. got p s) (unmask_twice key 0 payload ks ps)

pub read_frame-client_frame :
    (key : List ℕ) (opcode : ℕ) (payload s : List ℕ)
    → opcode < 16
    → length key ≡ 4
    → AllOf IsByte key
    → AllOf IsByte payload
    → length payload ≤ ws_max_message_bytes
    → read_frame (client_frame key opcode payload ++ s) ≡ got (opcode, payload) s
unfolding client_frame behind
read_frame-client_frame key opcode payload s small k ks ps l =
    let n = length payload in
    let lt = length_byte_small n in
    let masked = unmask key 0 payload in
    let frame : List ℕ → List ℕ = λ t. bit_or 0x80 opcode ∷ bit_or 0x80 (length_byte n) ∷ t in
    ap (λ t. read_frame (frame t)) (append_assoc (extended_length n) (key ++ masked) s)
    ∙ ap (λ t. read_frame (frame (extended_length n ++ t))) (append_assoc key masked s)
    ∙ read_header (bit_or 0x80 opcode) (bit_or 0x80 (length_byte n)) true opcode (length_byte n)
        (extended_length n ++ (key ++ (masked ++ s))) (marked opcode (omega (arith, small)))
        (opcode_bits opcode small) (marked (length_byte n) lt) (marked_bits (length_byte n) lt)
    ∙ ap (behind true opcode) (read_length_lem n (key ++ (masked ++ s)) l)
    ∙ ap (λ r. r >>= λ payload rest'. got (opcode, payload) rest')
        (read_masked key payload s k ks ps)
