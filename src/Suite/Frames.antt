-- ===== src/Suite/Frames.antt =====
-- The tests `test_frame_builder` of aras/src/protocols/websocket.rs.
use trap.Shared.{ℕ, ◌≡◌, refl, Bool, true, false, none, some, List, length}
use trap.Text.Utf8.{Str, Bytes, str, encode}
use trap.Asgi.Events.{WebsocketSendEvent}
use trap.Websocket.Library.{OpCode, text, binary, continuation, Frame, payload_bytes}
use trap.Websocket.Builder.{FrameBuilder, build}
use trap.Suite.{get_elem?, IsSomeAnd}

abbrev text_event : Str → WebsocketSendEvent
text_event s = record { bytes = none; text = some s }

abbrev binary_event : Bytes → WebsocketSendEvent
binary_event b = record { bytes = some b; text = none }

abbrev empty_event : WebsocketSendEvent
empty_event = record { bytes = none; text = none }

abbrev builder : ℕ → FrameBuilder
builder size = record { max_frame_size = size }

-- The frame at an index, and its payload.
abbrev IsAt : List Frame → ℕ → Bool → OpCode → Bytes → Type 0
IsAt frames i fin op bytes =
    IsSomeAnd (λ f. (f.fin ≡ fin) × (f.opcode ≡ op) × (payload_bytes f.payload ≡ bytes))
      (get_elem? frames i)

abbrev TestSingleTextFrame : Type 0
TestSingleTextFrame =
    IsSomeAnd (λ frames. (length frames ≡ 1) × IsAt frames 0 true text (str "hello"))
      (build (builder 1024) (text_event (str "hello")))

test_single_text_frame : TestSingleTextFrame
unfolding build encode
test_single_text_frame = (refl, (refl, refl, refl))

abbrev TestSingleBinaryFrame : Type 0
TestSingleBinaryFrame =
    IsSomeAnd (λ frames. (length frames ≡ 1) × IsAt frames 0 true binary (str "hello"))
      (build (builder 1024) (binary_event (str "hello")))

test_single_binary_frame : TestSingleBinaryFrame
unfolding build
test_single_binary_frame = (refl, (refl, refl, refl))

abbrev TestEmptyEventReturnsSingleEmptyBinaryFrame : Type 0
TestEmptyEventReturnsSingleEmptyBinaryFrame =
    IsSomeAnd
      (λ frames.
        (length frames ≡ 1)
        × IsSomeAnd
            (λ f. (f.fin ≡ true) × (f.opcode ≡ binary) × (length (payload_bytes f.payload) ≡ 0))
            (get_elem? frames 0))
      (build (builder 1024) empty_event)

test_empty_event_returns_single_empty_binary_frame : TestEmptyEventReturnsSingleEmptyBinaryFrame
unfolding build
test_empty_event_returns_single_empty_binary_frame = (refl, (refl, refl, refl))

abbrev TestDataExactlyAtMaxFrameSizeIsOneFrame : Type 0
TestDataExactlyAtMaxFrameSizeIsOneFrame =
    IsSomeAnd
      (λ frames.
        (length frames ≡ 1)
        × IsSomeAnd (λ f. (f.fin ≡ true) × (f.opcode ≡ text)) (get_elem? frames 0))
      (build (builder 5) (text_event (str "hello")))

test_data_exactly_at_max_frame_size_is_one_frame : TestDataExactlyAtMaxFrameSizeIsOneFrame
unfolding build encode
test_data_exactly_at_max_frame_size_is_one_frame = (refl, (refl, refl))

abbrev TestDataOneByteOverMaxFrameSizeSplitsIntoTwoFrames : Type 0
TestDataOneByteOverMaxFrameSizeSplitsIntoTwoFrames =
    IsSomeAnd
      (λ frames.
        (length frames ≡ 2)
        × IsAt frames 0 false text (str "hello")
        × IsAt frames 1 true continuation (str "!"))
      (build (builder 5) (text_event (str "hello!")))

test_data_one_byte_over_max_frame_size_splits_into_two_frames :
    TestDataOneByteOverMaxFrameSizeSplitsIntoTwoFrames
unfolding build encode
test_data_one_byte_over_max_frame_size_splits_into_two_frames =
    (refl, (refl, refl, refl), (refl, refl, refl))

abbrev TestTextSplitsIntoMultipleFramesWithCorrectOpcodesAndFin : Type 0
TestTextSplitsIntoMultipleFramesWithCorrectOpcodesAndFin =
    IsSomeAnd
      (λ frames.
        (length frames ≡ 3)
        × IsAt frames 0 false text (str "abcd")
        × IsAt frames 1 false continuation (str "efgh")
        × IsAt frames 2 true continuation (str "ij"))
      (build (builder 4) (text_event (str "abcdefghij")))

test_text_splits_into_multiple_frames_with_correct_opcodes_and_fin :
    TestTextSplitsIntoMultipleFramesWithCorrectOpcodesAndFin
unfolding build encode
test_text_splits_into_multiple_frames_with_correct_opcodes_and_fin =
    (refl, (refl, refl, refl), (refl, refl, refl), (refl, refl, refl))

abbrev TestBinarySplitsIntoMultipleFrames : Type 0
TestBinarySplitsIntoMultipleFrames =
    IsSomeAnd
      (λ frames.
        (length frames ≡ 3)
        × IsAt frames 0 false binary (str "abc")
        × IsAt frames 1 false continuation (str "def")
        × IsAt frames 2 true continuation (str "gh"))
      (build (builder 3) (binary_event (str "abcdefgh")))

test_binary_splits_into_multiple_frames : TestBinarySplitsIntoMultipleFrames
unfolding build
test_binary_splits_into_multiple_frames =
    (refl, (refl, refl, refl), (refl, refl, refl), (refl, refl, refl))

abbrev TestTextTakesPriorityOverBytesWhenBothPresent : Type 0
TestTextTakesPriorityOverBytesWhenBothPresent =
    IsSomeAnd
      (λ frames.
        (length frames ≡ 1)
        × IsSomeAnd (λ f. (f.opcode ≡ text) × (payload_bytes f.payload ≡ str "text"))
            (get_elem? frames 0))
      (build (builder 1024) (record { bytes = some (str "binary"); text = some (str "text") }))

test_text_takes_priority_over_bytes_when_both_present :
    TestTextTakesPriorityOverBytesWhenBothPresent
unfolding build encode
test_text_takes_priority_over_bytes_when_both_present = (refl, (refl, refl))
