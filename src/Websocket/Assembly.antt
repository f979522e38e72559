-- ===== src/Websocket/Assembly.antt =====
-- websocket.rs: the frames of an event, against the message that a receiver puts together.
use mathlib.Core.Option
use trap.Shared.{
  ℕ, suc, ◌+◌, ◌-◌, ◌≤◌, ◌<◌, ◌≡◌, refl, sym, ap, ◌∙◌, Bool, true, false, Option, none, some, List,
  [], ◌∷◌, ◌++◌, append-nil, length, concat, All, ◌==◌, arith,
}
use trap.Text.Utf8.{Str, Bytes, encode}
use trap.Asgi.Events.{WebsocketSendEvent}
use trap.Websocket.Library.{
  OpCode, continuation, text, binary, owned, payload_bytes, Frame, new_frame,
}
use trap.Websocket.Builder.{FrameBuilder, split_bytes, number_frames, to_frames, choose, build}
use trap.Websocket.Splitting.{isize_max, IsSplit, split_bytes_total}

-- RFC 6455, section 5.4: continuation frames follow, and the last one alone is final.
unfoldable pub assemble_rest : List Frame → Option Bytes
assemble_rest [] = none
assemble_rest (f ∷ fs) = elim f.opcode [
  | continuation ↦ elim f.fin [
    | false ↦ Option.map (◌++◌ (payload_bytes f.payload)) (assemble_rest fs)
    | true ↦ elim fs [ [] ↦ some (payload_bytes f.payload) | _ ∷ _ ↦ none ]
  ]
  | _ ↦ none
]

unfoldable pub assemble : List Frame → Option (OpCode × Bytes)
assemble [] = none
assemble (f ∷ fs) = elim f.fin [
  | true ↦ elim fs [ [] ↦ some (f.opcode, payload_bytes f.payload) | _ ∷ _ ↦ none ]
  | false ↦ Option.map (λ rest. (f.opcode, payload_bytes f.payload ++ rest)) (assemble_rest fs)
]

-- The frame at a later index, and at the first.
later_frame :
    (i total : ℕ) (op : OpCode) (c : Bytes) (cs : List Bytes) (fin : Bool)
    → 0 < i
    → (i == total - 1) ≡ fin
    → number_frames i total op (c ∷ cs)
      ≡ new_frame fin continuation (owned c) ∷ number_frames (suc i) total op cs
unfolding number_frames
later_frame i total op c cs fin p e = ground arith

first_frame :
    (total : ℕ) (op : OpCode) (c : Bytes) (cs : List Bytes)
    → (0 == total - 1) ≡ false
    → number_frames 0 total op (c ∷ cs) ≡ new_frame false op (owned c) ∷ number_frames 1 total op cs
unfolding number_frames
first_frame total op c cs e = ground arith

opens :
    (op : OpCode) (c : Bytes) (fs : List Frame) (rest : Bytes)
    → assemble_rest fs ≡ some rest
    → assemble (new_frame false op (owned c) ∷ fs) ≡ some (op, c ++ rest)
unfolding assemble
opens op c fs rest e = rw e

more_follows :
    (c : Bytes) (fs : List Frame) (rest : Bytes)
    → assemble_rest fs ≡ some rest
    → assemble_rest (new_frame false continuation (owned c) ∷ fs) ≡ some (c ++ rest)
unfolding assemble_rest
more_follows c fs rest e = rw e

rest_assembles :
    (i total : ℕ) (op : OpCode) (c : Bytes) (cs : List Bytes)
    → 0 < i
    → i + suc (length cs) ≡ total
    → assemble_rest (number_frames i total op (c ∷ cs)) ≡ some (concat (c ∷ cs))
unfolding number_frames assemble_rest
rest_assembles i total op c [] p e =
    rw (later_frame i total op c [] true p (ground arith)) (ap some (sym (append-nil c)))
rest_assembles i total op c (d ∷ cs) p e =
    rw (later_frame i total op c (d ∷ cs) false p (ground arith)) (
      more_follows c (number_frames (suc i) total op (d ∷ cs)) _
        (rest_assembles (suc i) total op d cs (omega arith) (omega arith)))

-- The frames made of one or more pieces are one message with the given opcode.
assemble-to_frames :
    (op : OpCode) (chunks : List Bytes)
    → 0 < length chunks
    → assemble (to_frames op chunks) ≡ some (op, concat chunks)
unfolding to_frames assemble
assemble-to_frames op [] h = elim h [ ]
assemble-to_frames op (c ∷ []) h = ap (λ b. some (op, b)) (sym (append-nil c))
assemble-to_frames op (c ∷ d ∷ cs) h =
    let total = suc (suc (length cs)) in
    ap assemble (first_frame total op c (d ∷ cs) (ground arith))
    ∙ opens op c (number_frames 1 total op (d ∷ cs)) _
        (rest_assembles 1 total op d cs (omega arith) (omega arith))

to_frames_sized :
    (i total size : ℕ) (op : OpCode) (chunks : List Bytes)
    → All (λ c. length c ≤ size) chunks
    → All (λ f. length (payload_bytes f.payload) ≤ size) (number_frames i total op chunks)
unfolding number_frames
to_frames_sized i total size op [] h = tt
to_frames_sized i total size op (c ∷ cs) h = (h.0, to_frames_sized (suc i) total size op cs h.1)

-- What an event stands for: its text before its bytes, and an empty binary message without either.
abbrev pub message_of : WebsocketSendEvent → OpCode × Bytes
message_of event = elim event.text [
  | some t ↦ (text, encode t)
  | none ↦ elim event.bytes [ some b ↦ (binary, b) | none ↦ (binary, []) ]
]

-- The frames of an event are the message that it stands for, in pieces within the limit.
pub record IsMessage (size : ℕ) (message : OpCode × Bytes) (frames : List Frame) : Type 0 where
  pub assembled : assemble frames ≡ some message
  pub sized : All (λ f. length (payload_bytes f.payload) ≤ size) frames

frames-IsMessage :
    (op : OpCode) (size : ℕ) (bytes : Bytes) (chunks : List Bytes)
    → IsSplit size bytes chunks
    → IsMessage size (op, bytes) (to_frames op chunks)
unfolding to_frames
frames-IsMessage op size bytes chunks h = record {
  assembled = assemble-to_frames op chunks h.nonempty ∙ ap (λ b. some (op, b)) h.whole;
  sized = to_frames_sized 0 (length chunks) size op chunks h.sized;
}

split_total :
    (b : FrameBuilder) (op : OpCode) (bytes : Bytes)
    → 0 < b.max_frame_size
    → length bytes ≤ isize_max
    → (frames : List Frame) × (Option.map (to_frames op) (split_bytes b bytes) ≡ some frames)
      × IsMessage b.max_frame_size (op, bytes) frames
split_total b op bytes p r =
    let (chunks, run, h) = split_bytes_total b bytes p r in
    (to_frames op chunks, rw run, frames-IsMessage op b.max_frame_size bytes chunks h)

choose_total :
    (b : FrameBuilder) (t : Option Str) (bytes : Option Bytes)
    → 0 < b.max_frame_size
    → (let m = message_of (record { bytes = bytes; text = t }) in
        length m.1 ≤ isize_max
        → (frames : List Frame) × (choose b t bytes ≡ some frames)
          × IsMessage b.max_frame_size m frames)
unfolding choose assemble
choose_total b (some t) bytes p r = split_total b text (encode t) p r
choose_total b none (some bytes) p r = split_total b binary bytes p r
choose_total b none none p r = (
  new_frame true binary (owned []) ∷ [],
  refl,
  record { assembled = refl; sized = (omega arith, tt) },
)

-- With a limit above 0 and a payload that Rust can hold, the builder ends with frames that a
-- receiver puts together to the message that the event stands for, each within the limit.
pub build_total :
    (b : FrameBuilder) (event : WebsocketSendEvent)
    → 0 < b.max_frame_size
    → length (message_of event).1 ≤ isize_max
    → (frames : List Frame) × (build b event ≡ some frames)
      × IsMessage b.max_frame_size (message_of event) frames
unfolding build
build_total b event p r = choose_total b event.text event.bytes p r
