-- ===== src/Websocket/Builder.antt =====
-- `FrameBuilder`: an event of the application becomes frames of bounded size. Lengths and offsets
-- are `usize`, of 64 bits; `none` is a loop that has used up its fuel.
use mathlib.Core.Option
use trap.Shared.{
  ℕ, zero, suc, ◌+◌, ◌-◌, ◌%◌, min, true, false, Option, none, some, List, [], ◌∷◌, length, take,
  drop, leb, ltb, ◌==◌, if◌then◌else◌,
}
use trap.Text.Utf8.{Str, Bytes, encode}
use trap.Asgi.Events.{WebsocketSendEvent}
use trap.Websocket.Library.{OpCode, continuation, text, binary, owned, Frame, new_frame}

pub record FrameBuilder : Type 0 where
  pub max_frame_size : ℕ

abbrev pub usize_add : ℕ → ℕ → ℕ
usize_add a b = (a + b) % 18446744073709551616

-- `data.slice(start..end)`
abbrev pub slice : Bytes → ℕ → ℕ → Bytes
slice bytes start end = take (end - start) (drop start bytes)

-- `while start < data.len()`
unfoldable pub split_loop : ℕ → ℕ → Bytes → ℕ → Option (List Bytes)
split_loop zero size bytes start = none
split_loop (suc fuel) size bytes start = elim (ltb start (length bytes)) [
  | true ↦
      let end = min (usize_add start size) (length bytes) in
      Option.map (◌∷◌ (slice bytes start end)) (split_loop fuel size bytes end)
  | false ↦ some []
]

-- One round for each byte, and one for the test that ends the loop.
unfoldable pub split_bytes : FrameBuilder → Bytes → Option (List Bytes)
unfolding split_loop
split_bytes b bytes =
    if leb (length bytes) b.max_frame_size
    then some (bytes ∷ [])
    else split_loop (suc (length bytes)) b.max_frame_size bytes 0

unfoldable pub split_string : FrameBuilder → Str → Option (List Bytes)
unfolding split_bytes
split_string b s = split_bytes b (encode s)

-- `chunks.into_iter().enumerate().map(...)`, from the index `i` on
unfoldable pub number_frames : ℕ → ℕ → OpCode → List Bytes → List Frame
number_frames i total op [] = []
number_frames i total op (chunk ∷ rest) =
    new_frame (i == total - 1) (if i == 0 then op else continuation) (owned chunk)
    ∷ number_frames (suc i) total op rest

unfoldable pub to_frames : OpCode → List Bytes → List Frame
unfolding number_frames
to_frames op chunks = number_frames 0 (length chunks) op chunks

-- The `match` on the text and the bytes of the event.
unfoldable pub choose : FrameBuilder → Option Str → Option Bytes → Option (List Frame)
unfolding split_string to_frames
choose b (some t) _ = Option.map (to_frames text) (split_string b t)
choose b none (some bytes) = Option.map (to_frames binary) (split_bytes b bytes)
choose b none none = some (new_frame true binary (owned []) ∷ [])

unfoldable pub build : FrameBuilder → WebsocketSendEvent → Option (List Frame)
unfolding choose
build b event = choose b event.text event.bytes
