-- ===== src/Web/Frame/Conversation.antt =====
-- internal/web/client_ws.go: whole messages, as `ReadMessage` returns them, between frames of control.
use mathlib.Core.List.{append_assoc}
use r0rpc.Prelude.{
  ℕ, suc, ◌≤◌, ◌<◌, ◌≡◌, ap, ◌∙◌, some, get_or, List, [], ◌∷◌, ◌++◌, length, length-append, AllOf,
  arith,
}
use r0rpc.Web.Frame.{
  got, Message, Reading, read_frame, read_loop, dispatch, on_frame, write_frame, sent_first,
  read_message, ws_message_text, ws_message_ping, ws_message_pong, ws_max_message_bytes,
}
use r0rpc.Web.Frame.Bytes.{IsByte}
use r0rpc.Web.Frame.Reading.{read_loop_fuel}
use r0rpc.Web.Frame.RoundTrip.{client_frame, read_frame-client_frame, read_frame-write_frame}

-- `ReadMessage` handles the next frame, and then reads on.
read_next :
    (opcode : ℕ) (payload frame rest : List ℕ)
    → 0 < length frame
    → read_frame (frame ++ rest) ≡ got (opcode, payload) rest
    → read_message (frame ++ rest) ≡ dispatch opcode payload rest (read_message rest)
unfolding read_message read_loop
read_next opcode payload frame rest lt e =
    ap (λ r. on_frame r (read_loop (length (frame ++ rest)))) e
    ∙ ap (dispatch opcode payload rest) (
        read_loop_fuel (length (frame ++ rest)) (suc (length rest)) rest
          (omega (arith, lt, length-append frame rest)) (omega arith))

write_frame_long :
    (opcode : ℕ) (payload frame : List ℕ)
    → write_frame opcode payload ≡ some frame
    → 0 < length frame
unfolding write_frame
write_frame_long opcode payload [] e = ground arith
write_frame_long opcode payload (b ∷ bs) e = omega arith

-- What `writeFrame` sends as a text is what `ReadMessage` returns from the same bytes, with the bytes
-- that follow left over.
pub read_message-write_frame :
    (payload rest frame : List ℕ)
    → write_frame ws_message_text payload ≡ some frame
    → read_message (frame ++ rest) ≡ ([], some (got (Message.text payload) rest))
read_message-write_frame payload rest frame e =
    read_next ws_message_text payload frame rest (write_frame_long ws_message_text payload frame e)
      (read_frame-write_frame ws_message_text payload rest (omega arith) frame e)

-- A frame of a client: the key of its mask, and its payload.
pub record ClientFrame : Type 0 where
  pub key : List ℕ
  pub payload : List ℕ

-- The key has four bytes, and the payload is within the limit.
pub record IsProper (f : ClientFrame) : Type 0 where
  pub key_length : length f.key ≡ 4
  pub key_bytes : AllOf IsByte f.key
  pub payload_bytes : AllOf IsByte f.payload
  pub fits : length f.payload ≤ ws_max_message_bytes

abbrev pub bytes_of : ℕ → ClientFrame → List ℕ
bytes_of opcode f = client_frame f.key opcode f.payload

-- Pings of a client, one behind the other, and the frames that answer them.
abbrev pub pings : List ClientFrame → List ℕ
pings [] = []
pings (f ∷ fs) = bytes_of ws_message_ping f ++ pings fs

abbrev pub pongs : List ClientFrame → List (List ℕ)
pongs [] = []
pongs (f ∷ fs) = get_or (write_frame ws_message_pong f.payload) [] ∷ pongs fs

read_client :
    (opcode : ℕ) (f : ClientFrame) (rest : List ℕ)
    → opcode < 16
    → IsProper f
    → read_message (bytes_of opcode f ++ rest) ≡ dispatch opcode f.payload rest (read_message rest)
unfolding client_frame
read_client opcode f rest h p = read_next opcode f.payload (bytes_of opcode f) rest (omega arith) (
    read_frame-client_frame f.key opcode f.payload rest h p.key_length p.key_bytes p.payload_bytes
      p.fits)

answer_ping :
    (f : ClientFrame) (rest : List ℕ) (next : Reading)
    → IsProper f
    → dispatch ws_message_ping f.payload rest next
      ≡ sent_first (get_or (write_frame ws_message_pong f.payload) []) next
unfolding write_frame
answer_ping f rest next p = ground (arith, p.fits)

pub read_message-client :
    (fs : List ClientFrame) (f : ClientFrame) (rest : List ℕ)
    → AllOf IsProper fs
    → IsProper f
    → read_message (pings fs ++ (bytes_of ws_message_text f ++ rest))
      ≡ (pongs fs, some (got (Message.text f.payload) rest))
read_message-client [] f rest ps p = read_client ws_message_text f rest (omega arith) p
read_message-client (g ∷ fs) f rest (q, ps) p =
    let after = bytes_of ws_message_text f ++ rest in
    ap read_message (append_assoc (bytes_of ws_message_ping g) (pings fs) after)
    ∙ read_client ws_message_ping g (pings fs ++ after) (omega arith) q
    ∙ answer_ping g (pings fs ++ after) (read_message (pings fs ++ after)) q
    ∙ ap (sent_first (get_or (write_frame ws_message_pong g.payload) []))
        (read_message-client fs f rest ps p)
