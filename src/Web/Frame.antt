-- ===== src/Web/Frame.antt =====
-- internal/web/client_ws.go, `wsConn`: WebSocket frames on a connection. A byte is a number below
-- 256. The bytes that the peer sends until it closes the connection are a list; a read beyond it is
-- `io.EOF`, and writes to the connection succeed.
pub mod Bytes
pub mod Reading
pub mod RoundTrip
pub mod Conversation
use Prim.Native.Nat.{bit_and, bit_or, bit_xor}
use r0rpc.Prelude.{
  ℕ, zero, suc, ◌+◌, ◌*◌, ◌/◌, ◌%◌, ◌^◌, Bool, true, false, not, Option, none, some, List, [], ◌∷◌,
  ◌++◌, ◌==◌, nat_eq, eqb, ltb, leb, length, get_or, get_elem?, if◌then◌else◌,
}

-- `4 << 20`
abbrev pub ws_max_message_bytes : ℕ
ws_max_message_bytes = 4 * 2 ^ 20

abbrev pub ws_message_text : ℕ
ws_message_text = 1

abbrev pub ws_message_close : ℕ
ws_message_close = 8

abbrev pub ws_message_ping : ℕ
ws_message_ping = 9

abbrev pub ws_message_pong : ℕ
ws_message_pong = 10

-- `binary.BigEndian.PutUint64`
abbrev pub put_uint64 : ℕ → List ℕ
put_uint64 n =
    n / 2 ^ 56 % 256
    ∷ n / 2 ^ 48 % 256
    ∷ n / 2 ^ 40 % 256
    ∷ n / 2 ^ 32 % 256
    ∷ n / 2 ^ 24 % 256
    ∷ n / 2 ^ 16 % 256
    ∷ n / 2 ^ 8 % 256
    ∷ n % 256
    ∷ []

-- The second byte of the header, without the mask bit.
abbrev pub length_byte : ℕ → ℕ
length_byte n = if ltb n 126 then n % 256 else if leb n 65535 then 126 else 127

-- The rest of the header.
abbrev pub extended_length : ℕ → List ℕ
extended_length n =
    if ltb n 126 then [] else if leb n 65535 then n / 2 ^ 8 % 256 ∷ n % 256 ∷ [] else put_uint64 n

-- The bytes that `writeFrame` sends; `none` is its error for a payload that is too large.
unfoldable pub write_frame : ℕ → List ℕ → Option (List ℕ)
write_frame opcode payload =
    if ltb ws_max_message_bytes (length payload)
    then none
    else some (
        bit_or 0x80 opcode ∷ length_byte (length payload) ∷ extended_length (length payload)
        ++ payload)

pub data WsError : Type 0 where
  -- `eof` is `io.EOF` or `io.ErrUnexpectedEOF`
  eof fragmented too_large : WsError

-- What a read gives, with the bytes behind it.
pub data Read (A : Type 0) : Type 0 where
  got : A → List ℕ → Read A
  failed : WsError → Read A

infixl 20 ◌>>=◌
abbrev pub ◌>>=◌ : {A B : Type 0} → Read A → (A → List ℕ → Read B) → Read B
got a rest >>= f = f a rest
failed e >>= f = failed e

-- `io.ReadFull`
unfoldable pub read_full : ℕ → List ℕ → Read (List ℕ)
read_full zero s = got [] s
read_full (suc n) [] = failed eof
read_full (suc n) (b ∷ s) = read_full n s >>= λ bs rest. got (b ∷ bs) rest

-- `binary.BigEndian.Uint16` and `Uint64`, behind the bytes read so far.
abbrev pub big_endian : ℕ → List ℕ → ℕ
big_endian acc [] = acc
big_endian acc (b ∷ bs) = big_endian (acc * 256 + b) bs

abbrev pub limited : ℕ → List ℕ → Read ℕ
limited n rest = if ltb ws_max_message_bytes n then failed too_large else got n rest

-- The length of the payload, from the seven bits of the header.
unfoldable pub read_length : ℕ → List ℕ → Read ℕ
unfolding read_full
read_length short s =
    if eqb short 126
    then (read_full 2 s >>= λ ext rest. limited (big_endian 0 ext) rest)
    else if eqb short 127
    then (read_full 8 s >>= λ ext rest. limited (big_endian 0 ext) rest)
    else limited short s

-- `payload[i] ^= maskKey[i%4]`, from the index `i` on.
unfoldable pub unmask : List ℕ → ℕ → List ℕ → List ℕ
unmask key i [] = []
unmask key i (b ∷ bs) = bit_xor b (get_or (get_elem? key (i % 4)) 0) ∷ unmask key (i + 1) bs

-- The payload of a frame, behind its length.
unfoldable pub read_payload : Bool → ℕ → List ℕ → Read (List ℕ)
unfolding read_full unmask
read_payload true n s = read_full 4 s >>= λ key rest.
    read_full n rest >>= λ payload rest'. got (unmask key 0 payload) rest'
read_payload false n s = read_full n s

abbrev pub has_bit : ℕ → Bool
has_bit b = not (eqb (bit_and b 0x80) 0)

-- One turn of the loop of `ReadMessage`: the opcode and the payload of the next frame.
unfoldable pub read_frame : List ℕ → Read (ℕ × List ℕ)
unfolding read_length read_payload
read_frame [] = failed eof
read_frame (b ∷ []) = failed eof
read_frame (b ∷ c ∷ s) =
    if has_bit b
    then (read_length (bit_and c 0x7f) s >>= λ n rest.
        read_payload (has_bit c) n rest >>= λ payload rest'. got (bit_and b 0x0f, payload) rest')
    else failed fragmented

-- What `ReadMessage` returns.
pub data Message : Type 0 where
  text pong : List ℕ → Message

-- The frames that `ReadMessage` sends meanwhile, and what it returns; `none` is a loop that did not
-- end within the fuel.
abbrev pub Reading : Type 0
Reading = List (List ℕ) × Option (Read Message)

abbrev pub sent_first : List ℕ → Reading → Reading
sent_first frame (sent, r) = (frame ∷ sent, r)

-- The switch on the opcode, with what the next turn of the loop does.
abbrev pub dispatch : ℕ → List ℕ → List ℕ → Reading → Reading
dispatch opcode payload rest next =
    if opcode == ws_message_ping
    then (elim (write_frame ws_message_pong payload) [
      | none ↦ ([], some (failed too_large))
      | some frame ↦ sent_first frame next
    ])
    else if opcode == ws_message_pong
    then ([], some (got (Message.pong payload) rest))
    else if opcode == ws_message_close
    then ([], some (failed eof))
    else if opcode == ws_message_text
    then ([], some (got (Message.text payload) rest))
    else next

abbrev pub on_frame : Read (ℕ × List ℕ) → (List ℕ → Reading) → Reading
on_frame (failed e) loop = ([], some (failed e))
on_frame (got (opcode, payload) rest) loop = dispatch opcode payload rest (loop rest)

unfoldable pub read_loop : ℕ → List ℕ → Reading
unfolding read_frame
read_loop zero s = ([], none)
read_loop (suc fuel) s = on_frame (read_frame s) (read_loop fuel)

-- Each frame takes at least two of the bytes.
unfoldable pub read_message : List ℕ → Reading
unfolding read_loop
read_message s = read_loop (suc (length s)) s
