-- ===== src/Web/Frame/Reading.antt =====
-- internal/web/client_ws.go, `ReadMessage`: the frames that it reads, and that its loop ends.
use Prim.Native.Nat.{bit_and}
use r0rpc.Prelude.{
  ℕ, zero, suc, ◌≤◌, ◌<◌, ◌≡◌, refl, ap, ◌∙◌, Bool, true, false, Option, none, some, List, [], ◌∷◌,
  length, eqb, ltb, by_if, arith, nat_eq, ◌==◌,
}
use r0rpc.Web.Frame.{
  Read, got, failed, WsError, ◌>>=◌, read_full, read_length, read_payload, read_frame, Message,
  Reading, has_bit, limited, ws_max_message_bytes, ws_message_pong, on_frame, read_loop, dispatch,
  write_frame, sent_first, read_message,
}
use r0rpc.Web.Frame.Bytes.{length-unmask}

-- A property of what a read gives, if it gives anything.
abbrev pub Gives : {A : Type 0} → (A → List ℕ → Type 0) → Read A → Type 0
Gives P (got a rest) = P a rest
Gives P (failed e) = Unit

then-Gives :
    {A B : Type 0} (P : A → List ℕ → Type 0) (Q : B → List ℕ → Type 0) (r : Read A)
    (f : A → List ℕ → Read B)
    → Gives P r
    → ((a : A) (rest : List ℕ) → P a rest → Gives Q (f a rest))
    → Gives Q (r >>= f)
then-Gives P Q (got a rest) f p h = h a rest p
then-Gives P Q (failed e) f p h = tt

full-Gives :
    (n : ℕ) (s : List ℕ)
    → Gives (λ bs rest. (length bs ≡ n) × (length rest ≤ length s)) (read_full n s)
unfolding read_full
full-Gives zero s = (refl, omega arith)
full-Gives (suc n) [] = tt
full-Gives (suc n) (b ∷ s) =
    then-Gives _ _ (read_full n s) _ (full-Gives n s)
      λ bs rest (e, h). (omega (arith, e), omega (arith, h))

limited-Gives :
    (k n : ℕ) (rest : List ℕ)
    → length rest ≤ k
    → Gives (λ n rest. (n ≤ ws_max_message_bytes) × (length rest ≤ k)) (limited n rest)
limited-Gives k n rest h =
    by_if (Gives (λ n rest. (n ≤ ws_max_message_bytes) × (length rest ≤ k)))
      (ltb ws_max_message_bytes n) (λ e. tt) (λ e. (ground arith, h))

length-Gives :
    (short : ℕ) (s : List ℕ)
    → Gives (λ n rest. (n ≤ ws_max_message_bytes) × (length rest ≤ length s)) (read_length short s)
unfolding read_length
length-Gives short s =
    let P : ℕ → List ℕ → Type 0 = λ n rest. (n ≤ ws_max_message_bytes) × (length rest ≤ length s) in
    by_if (Gives P) (eqb short 126)
      (λ e.
        then-Gives _ P (read_full 2 s) _ (full-Gives 2 s)
          λ ext rest (l, h). limited-Gives (length s) _ rest h)
      λ e.
        by_if (Gives P) (eqb short 127)
          (λ e.
            then-Gives _ P (read_full 8 s) _ (full-Gives 8 s)
              λ ext rest (l, h). limited-Gives (length s) _ rest h)
          λ e. limited-Gives (length s) short s (omega arith)

payload-Gives :
    (masked : Bool) (n : ℕ) (s : List ℕ)
    → Gives (λ bs rest. (length bs ≡ n) × (length rest ≤ length s)) (read_payload masked n s)
unfolding read_payload
payload-Gives false n s = full-Gives n s
payload-Gives true n s = then-Gives _ _ (read_full 4 s) _ (full-Gives 4 s) λ key rest (k, h).
    then-Gives _ _ (read_full n rest) _ (full-Gives n rest)
      λ bs rest' (e, h'). (length-unmask key 0 bs ∙ e, omega (arith, h, h'))

-- A frame takes at least two bytes, and its payload is within the limit.
frame-Gives :
    (s : List ℕ)
    → Gives
        (λ f rest. (length f.1 ≤ ws_max_message_bytes) × (length rest < length s))
        (read_frame s)
unfolding read_frame
frame-Gives [] = tt
frame-Gives (b ∷ []) = tt
frame-Gives (b ∷ c ∷ s) =
    by_if
      (Gives (λ f rest. (length f.1 ≤ ws_max_message_bytes) × (length rest < length (b ∷ c ∷ s))))
      (has_bit b)
      (λ e.
        then-Gives _ _ (read_length (bit_and c 0x7f) s) _ (length-Gives (bit_and c 0x7f) s)
          λ n rest (m, h).
            then-Gives _ _ (read_payload (has_bit c) n rest) _ (payload-Gives (has_bit c) n rest)
              λ payload rest' (l, h'). (omega (arith, l, m), omega (arith, h, h')))
      λ e. tt

on_frame_agrees :
    (bound : ℕ) (r : Read (ℕ × List ℕ)) (f g : List ℕ → Reading)
    → Gives (λ p rest. (length p.1 ≤ ws_max_message_bytes) × (length rest < bound)) r
    → ((rest : List ℕ) → length rest < bound → f rest ≡ g rest)
    → on_frame r f ≡ on_frame r g
on_frame_agrees bound (failed e) f g h same = refl
on_frame_agrees bound (got (opcode, payload) rest) f g (l, lt) same =
    ap (dispatch opcode payload rest) (same rest lt)

-- With more fuel than bytes the loop does not depend on the fuel.
pub read_loop_fuel :
    (n m : ℕ) (s : List ℕ) → length s < n → length s < m → read_loop n s ≡ read_loop m s
unfolding read_loop
read_loop_fuel zero m s h k = absurd (omega (arith, h))
read_loop_fuel (suc n) zero s h k = absurd (omega (arith, k))
read_loop_fuel (suc n) (suc m) s h k =
    on_frame_agrees (length s) (read_frame s) (read_loop n) (read_loop m) (frame-Gives s)
      λ rest lt. read_loop_fuel n m rest (omega (arith, lt, h)) (omega (arith, lt, k))

abbrev pub body : Message → List ℕ
body (Message.text payload) = payload
body (Message.pong payload) = payload

-- A reading that has ended, of fewer bytes than a bound: with an error, or with a message within the
-- limit and the bytes behind it.
abbrev pub Ends : ℕ → Reading → Type 0
Ends bound (sent, r) =
    (m : Read Message) × (r ≡ some m)
    × Gives (λ msg rest. (length (body msg) ≤ ws_max_message_bytes) × (length rest < bound)) m

sent_first-Ends :
    (bound : ℕ) (frame : List ℕ) (r : Reading) → Ends bound r → Ends bound (sent_first frame r)
sent_first-Ends bound frame (sent, r) e = e

weakened-Ends : (a b : ℕ) (r : Reading) → a ≤ b → Ends a r → Ends b r
weakened-Ends a b (sent, r) h (got msg rest, e, (l, lt)) =
    (got msg rest, e, (l, omega (arith, lt, h)))
weakened-Ends a b (sent, r) h (failed x, e, g) = (failed x, e, tt)

answered-Ends :
    (bound : ℕ) (f : Option (List ℕ)) (next : Reading)
    → Ends bound next
    → Ends bound (elim f [
      | none ↦ ([], some (failed WsError.too_large))
      | some frame ↦ sent_first frame next
    ])
answered-Ends bound none next h = (failed WsError.too_large, refl, tt)
answered-Ends bound (some frame) next h = sent_first-Ends bound frame next h

dispatch-Ends :
    (bound opcode : ℕ) (payload rest : List ℕ) (next : Reading)
    → length payload ≤ ws_max_message_bytes
    → length rest < bound
    → Ends bound next
    → Ends bound (dispatch opcode payload rest next)
dispatch-Ends bound opcode payload rest next l lt h =
    by_if (Ends bound) (opcode == 9)
      (λ e. answered-Ends bound (write_frame ws_message_pong payload) next h)
      λ e.
        by_if (Ends bound) (opcode == 10) (λ e. (got (Message.pong payload) rest, refl, (l, lt)))
          λ e.
            by_if (Ends bound) (opcode == 8) (λ e. (failed WsError.eof, refl, tt))
              λ e.
                by_if (Ends bound) (opcode == 1)
                  (λ e. (got (Message.text payload) rest, refl, (l, lt))) λ e. h

on_frame-Ends :
    (bound : ℕ) (r : Read (ℕ × List ℕ)) (f : List ℕ → Reading)
    → Gives (λ p rest. (length p.1 ≤ ws_max_message_bytes) × (length rest < bound)) r
    → ((rest : List ℕ) → length rest < bound → Ends bound (f rest))
    → Ends bound (on_frame r f)
on_frame-Ends bound (failed e) f g h = (failed e, refl, tt)
on_frame-Ends bound (got (opcode, payload) rest) f (l, lt) h =
    dispatch-Ends bound opcode payload rest (f rest) l lt (h rest lt)

read_loop-Ends : (n : ℕ) (s : List ℕ) → length s < n → Ends (length s) (read_loop n s)
unfolding read_loop
read_loop-Ends zero s h = absurd (omega (arith, h))
read_loop-Ends (suc n) s h =
    on_frame-Ends (length s) (read_frame s) (read_loop n) (frame-Gives s) λ rest lt.
      weakened-Ends (length rest) (length s) (read_loop n rest) (omega (arith, lt))
        (read_loop-Ends n rest (omega (arith, lt, h)))

-- The loop of `ReadMessage` ends on whatever bytes the peer sends: with an error, or with a message
-- of at most 4 MiB and fewer bytes left than there were.
pub read_message-Ends : (s : List ℕ) → Ends (length s) (read_message s)
unfolding read_message
read_message-Ends s = read_loop-Ends (suc (length s)) s (omega arith)
