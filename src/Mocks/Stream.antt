-- ===== src/Mocks/Stream.antt =====
-- aras/mocks/stream.rs: how the tests read a frame, and the stream that they give to a connection.
use trap.Shared.{
  ℕ, ◌+◌, ◌*◌, Bool, true, false, ◌&&◌, Option, none, some, List, [], ◌∷◌, ◌++◌, length, drop, map,
  ltb, leb, if◌then◌else◌,
}
use trap.Text.Utf8.{Str, Bytes, from_utf8}
use trap.Websocket.Library.{OpCode, close, Frame, payload_bytes}

-- `FrameExt::is_close_frame`
unfoldable pub is_close_code : OpCode → Bool
is_close_code close = true
is_close_code _ = false

unfoldable pub is_close_frame : Frame → Bool
unfolding is_close_code
is_close_frame f = is_close_code f.opcode

-- `u16::from_be_bytes` of the first two bytes of a payload
unfoldable pub first_two : Bytes → Option ℕ
first_two (hi ∷ lo ∷ rest) = some (hi * 256 + lo)
first_two _ = none

-- `FrameExt::close_code`
unfoldable pub close_code : Frame → Option ℕ
unfolding is_close_frame first_two
close_code f =
    if is_close_frame f && leb 2 (length (payload_bytes f.payload))
    then first_two (payload_bytes f.payload)
    else none

-- `FrameExt::message`
unfoldable pub message_bytes : Frame → Option Bytes
unfolding is_close_frame
message_bytes f =
    if is_close_frame f && ltb 2 (length (payload_bytes f.payload))
    then some (drop 2 (payload_bytes f.payload))
    else if is_close_frame f
    then none
    else some (payload_bytes f.payload)

unfoldable pub message : Frame → Option Str
unfolding message_bytes
message f = elim (message_bytes f) [ none ↦ none | some b ↦ from_utf8 b ]

-- The frames that the crate `fastwebsockets` writes, as bytes.
pub record FrameBytes : Type 0 where
  pub text_frame : Bytes → Bytes
  pub close_frame : ℕ → Bytes → Bytes

pub record MockWebsocketStream : Type 0 where
  pub written : List Bytes
  pub data_buffer : List Bytes

module _ ⦃bytes : FrameBytes⦄ where
  -- `MockWebsocketStream::empty` and `MockWebsocketStream::new`, for messages as bytes
  abbrev empty : MockWebsocketStream
  empty = record { written = []; data_buffer = [] }

  abbrev create_frame : Bytes → Bytes
  create_frame text = bytes.text_frame text

  abbrev create_close_frame : Bytes
  create_close_frame = bytes.close_frame 1000 []

  abbrev new : List Bytes → MockWebsocketStream
  new messages = record {
    written = [];
    data_buffer = map create_frame messages ++ create_close_frame ∷ [];
  }

-- `poll_read`: what is put into the buffer; `none` is `Poll::Pending`.
unfoldable poll_read : MockWebsocketStream → Option (MockWebsocketStream × Bytes)
poll_read s = elim s.data_buffer [
  | [] ↦ none
  | msg ∷ rest ↦ some (record s { data_buffer = rest }, msg)
]

-- `poll_write`: how many bytes are taken, which is all of them.
unfoldable poll_write : Bytes → MockWebsocketStream → MockWebsocketStream × ℕ
poll_write buf s = (record s { written = s.written ++ buf ∷ [] }, length buf)
