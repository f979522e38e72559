-- ===== src/Websocket/Library.antt =====
-- What the program uses of the crate `fastwebsockets`: frames, close codes, and a connection that
-- reads whole messages and writes frames.
use trap.Shared.{ℕ, ◌/◌, ◌%◌, ◌≡◌, Bool, true, List, [], ◌∷◌, ◌++◌, Result, ok, err, All}
use trap.Text.Utf8.{Bytes}
use trap.Errors.{WebSocketError}

pub data OpCode : Type 0 where
  continuation text binary close ping pong : OpCode

-- `Payload`: the same bytes, owned or borrowed.
pub data Payload : Type 0 where
  owned shared borrowed borrowed_mut : Bytes → Payload

abbrev pub payload_bytes : Payload → Bytes
payload_bytes (owned b) = b
payload_bytes (shared b) = b
payload_bytes (borrowed b) = b
payload_bytes (borrowed_mut b) = b

-- `Frame`, without its mask.
pub record Frame : Type 0 where
  pub fin : Bool
  pub opcode : OpCode
  pub payload : Payload

abbrev pub new_frame : Bool → OpCode → Payload → Frame
new_frame fin opcode payload = record { fin = fin; opcode = opcode; payload = payload }

-- `Frame::close` and the close codes that the source names, with their numbers in RFC 6455. A close
-- frame carries its code as two bytes, the higher one first, and then its reason.
pub record WebsocketCrate : Type 0 where
  pub close_frame : ℕ → Bytes → Frame
  pub normal : ℕ
  pub protocol : ℕ
  pub invalid : ℕ
  pub error : ℕ
  pub close_frame_lem :
      (code : ℕ) (reason : Bytes)
      → close_frame code reason
        ≡ new_frame true close (owned ((code / 256) ∷ (code % 256) ∷ reason))
  pub normal_lem : normal ≡ 1000
  pub protocol_lem : protocol ≡ 1002
  pub invalid_lem : invalid ≡ 1007
  pub error_lem : error ≡ 1011

-- What the peer has been sent, once a write has returned.
abbrev pub written_after : List Frame → Frame → Result (Unit {0}) WebSocketError → List Frame
written_after sent frame (ok _) = sent ++ frame ∷ []
written_after sent frame (err _) = sent

abbrev pub IsPong : Frame → Type 0
IsPong f = f.opcode ≡ pong

-- At most one close frame.
abbrev pub IsAnswer : List Frame → Type 0
IsAnswer [] = Unit {0}
IsAnswer (c ∷ []) = c.opcode ≡ close
IsAnswer (c ∷ d ∷ rest) = ⊥

-- A read answers nothing but a close frame, which it then gives or refuses with an error.
abbrev pub IsAnswered : Result Frame WebSocketError → Type 0
IsAnswered (ok f) = f.opcode ≡ close
IsAnswered (err e) = Unit {0}

abbrev pub IsAnswerTo : Result Frame WebSocketError → List Frame → Type 0
IsAnswerTo out [] = Unit {0}
IsAnswerTo out (c ∷ rest) = IsAnswered out

-- `FragmentCollector<W>`: a write sends its frame or fails, and a read that resolves gives a whole
-- message, a control frame or an error. The crate's defaults, which the source does not change, are
-- `auto_pong` and `auto_close`: on its own, a read answers the pings of the peer with pongs, and then,
-- when it comes upon the peer's close frame, that frame with a close frame.
pub record FrameSocket (W : Type 0) : Type 0 where
  pub write_frame : W → Frame → W × Result (Unit {0}) WebSocketError
  pub read_frame : W → W × Result Frame WebSocketError
  pub written : W → List Frame
  pub written-write_frame :
      (w : W) (frame : Frame)
      → written (write_frame w frame).0 ≡ written_after (written w) frame (write_frame w frame).1
  pub written-read_frame :
      (w : W)
      → (pongs : List Frame) × (answer : List Frame) × (written (read_frame w).0
          ≡ (written w ++ pongs) ++ answer)
        × All IsPong pongs
        × IsAnswer answer
        × IsAnswerTo (read_frame w).1 answer
