-- ===== src/Anthropic/Stream/Response.antt =====
-- A whole response of the upstream, from its bytes: what is sent is one message of the protocol.
use foxrouters.Anthropic.Stream.{StreamWriter, new_stream_writer}
use foxrouters.Anthropic.Stream.Chunks.{on_chunk, finalize, Chunk}
use foxrouters.Anthropic.Stream.Contents.{
  choice_content, choice_calls, is_empty-nil, on_chunk-Streaming, on_chunk-text_closed,
}
use foxrouters.Anthropic.Stream.Complete.{Whole, finalize-Whole, new_stream_writer-Streaming}
use foxrouters.Anthropic.Stream.Bytes.{
  on_parsed, split_lines, on_data, line_data, trim_right_cr, process_line, process_lines, write,
  drain, write_header, new_pipe,
}
use foxrouters.Prelude.{
  if◌then◌else◌, Bool-cases, is_empty, str_eq, Str, codes, ◌≡◌, refl, inl, inr, Bool, true, false,
  not, ◌||◌, Option, none, some, List, [], ◌∷◌, ◌++◌, map, sym, ap, ◌∙◌, subst, ◌⊎◌, arith, ◌&&◌,
  leb, ℕ,
}
use foxrouters.Anthropic.Stream.Grammar.{initial}
use foxrouters.Anthropic.Stream.ToolBlocks.{Streaming}
use foxrouters.Anthropic.Stream.Delivery.{on_chunk-Onward}
use foxrouters.Anthropic.Stream.Writes.{
  finalize_again, finalize-starts, finalize-stopped, write_streamed, process_lines-append,
  write_buffered,
}
use foxrouters.Anthropic.Stream.Steps.{phase_of}
use foxrouters.Anthropic.Stream.Begun.{unstarted_sent}

-- What a line of the upstream is.
pub data Frame : Type 0 where
  skip : Frame
  done : Frame
  chunk : Chunk → Frame

abbrev pub parsed_frame : Option Chunk → Frame
parsed_frame none = skip
parsed_frame (some c) = chunk c

unfoldable pub data_frame : (Str → Option Chunk) → Option Str → Frame
data_frame parse none = skip
data_frame parse (some s) =
    if str_eq s [] then skip else if str_eq s (codes "[DONE]") then done else parsed_frame (parse s)

unfoldable pub frame_of : (Str → Option Chunk) → Str → Frame
frame_of parse line = data_frame parse (line_data (trim_right_cr line))

-- The lines of all the bytes, the last one without its line feed included.
unfoldable pub frames_of : (Str → Option Chunk) → Str → List Frame
frames_of parse bytes =
    let (lines, last) = split_lines bytes in
    map (frame_of parse) (if is_empty last then lines else lines ++ (last ∷ []))

abbrev pub Ended : List Frame → Type 0
Ended [] = Unit
Ended (skip ∷ fs) = Ended fs
Ended (done ∷ fs) = Ended fs
Ended (chunk c ∷ fs) = ⊥

-- No content after a tool call, and no chunk after the end marker.
abbrev pub OrderlyFrames : Bool → List Frame → Type 0
OrderlyFrames seen [] = Unit
OrderlyFrames seen (skip ∷ fs) = OrderlyFrames seen fs
OrderlyFrames seen (done ∷ fs) = Ended fs
OrderlyFrames seen (chunk c ∷ fs) =
    ((seen ≡ true) → choice_content c.choice ≡ [])
    × OrderlyFrames (seen || not (is_empty (choice_calls c.choice))) fs

unfoldable pub on_frame : Frame → StreamWriter → StreamWriter
on_frame skip w = w
on_frame done w = finalize w
on_frame (chunk c) w = on_chunk c w

abbrev pub on_frames : List Frame → StreamWriter → StreamWriter
on_frames [] w = w
on_frames (f ∷ fs) w = on_frames fs (on_frame f w)

on_parsed-on_frame :
    (o : Option Chunk) (w : StreamWriter) → on_parsed o w ≡ on_frame (parsed_frame o) w
unfolding on_parsed on_frame
on_parsed-on_frame none w = refl
on_parsed-on_frame (some c) w = refl

on_data-on_frame :
    (parse : Str → Option Chunk) (o : Option Str) (w : StreamWriter)
    → on_data parse o w ≡ on_frame (data_frame parse o) w
unfolding on_data on_frame data_frame
on_data-on_frame parse none w = refl
on_data-on_frame parse (some s) w = elim (Bool-cases (str_eq s [])) [
  | inl y ↦ rw y refl
  | inr n ↦ elim (Bool-cases (str_eq s (codes "[DONE]"))) [
    | inl y ↦ rw (n, y) refl
    | inr m ↦ rw (n, m) (on_parsed-on_frame (parse s) w)
  ]
]

-- While the stream runs, and after its end.
pub record Before (seen : Bool) (w : StreamWriter) : Type 0 where
  pub streaming : Streaming w
  pub stopped : w.stopped ≡ false
  pub order : (seen ≡ false) → w.text_closed ≡ false

pub record After (w : StreamWriter) : Type 0 where
  pub whole : Whole w.sent
  pub stopped : w.stopped ≡ true
  pub started : w.started ≡ true

finalize-After : (w : StreamWriter) → Streaming w → w.stopped ≡ false → After (finalize w)
finalize-After w s n = record {
  whole = finalize-Whole w s n;
  stopped = finalize-stopped w;
  started = finalize-starts w n;
}

on_chunk-Before :
    (seen : Bool) (c : Chunk) (w : StreamWriter)
    → Before seen w
    → ((seen ≡ true) → choice_content c.choice ≡ [])
    → Before (seen || not (is_empty (choice_calls c.choice))) (on_chunk c w)
on_chunk-Before seen c w b o = record {
  streaming =
      on_chunk-Streaming c w b.streaming
        (elim (Bool-cases seen) [ inl y ↦ inl (o y) | inr y ↦ inr (b.order y) ]);
  stopped = (on_chunk-Onward c w).stopped ∙ b.stopped;
  order = λ y.
      on_chunk-text_closed c w (is_empty-nil (choice_calls c.choice) (ground (arith, y)))
      ∙ b.order (ground (arith, y));
}

on_frames-After : (fs : List Frame) (w : StreamWriter) → Ended fs → After w → After (on_frames fs w)
unfolding on_frame
on_frames-After [] w e a = a
on_frames-After (skip ∷ fs) w e a = on_frames-After fs w e a
on_frames-After (done ∷ fs) w e a =
    on_frames-After fs (finalize w) e (subst After (sym (finalize_again w a.stopped)) a)
on_frames-After (chunk c ∷ fs) w e a = absurd e

on_frames-ends :
    (seen : Bool) (fs : List Frame) (w : StreamWriter)
    → OrderlyFrames seen fs
    → Before seen w
    → ((seen' : Bool) × Before seen' (on_frames fs w)) ⊎ After (on_frames fs w)
unfolding on_frame
on_frames-ends seen [] w o b = inl (seen, b)
on_frames-ends seen (skip ∷ fs) w o b = on_frames-ends seen fs w o b
on_frames-ends seen (done ∷ fs) w o b =
    inr (on_frames-After fs (finalize w) o (finalize-After w b.streaming b.stopped))
on_frames-ends seen (chunk c ∷ fs) w o b =
    on_frames-ends (seen || not (is_empty (choice_calls c.choice))) fs (on_chunk c w) o.1
      (on_chunk-Before seen c w b o.0)

process_lines-on_frames :
    (parse : Str → Option Chunk) (ls : List Str) (w : StreamWriter)
    → process_lines parse ls w ≡ on_frames (map (frame_of parse) ls) w
unfolding process_lines process_line frame_of
process_lines-on_frames parse [] w = refl
process_lines-on_frames parse (l ∷ ls) w =
    process_lines-on_frames parse ls (process_line parse (trim_right_cr l) w)
    ∙ ap (on_frames (map (frame_of parse) ls))
        (on_data-on_frame parse (line_data (trim_right_cr l)) w)

-- The end of a stream that has sent a whole message, or has sent nothing.
abbrev pub Answered : StreamWriter → Type 0
Answered w = ((w.started ≡ true) → Whole w.sent) × ((w.started ≡ false) → w.sent ≡ [])

-- What drain does after the last line.
ended : StreamWriter → StreamWriter
ended w = if w.started && not w.stopped then finalize w else w

ended_same : (w : StreamWriter) → (w.started && not w.stopped) ≡ false → ended w ≡ w
unfolding ended
ended_same w h = ap (λ b. if b then finalize w else w) h

ended_final : (w : StreamWriter) → (w.started && not w.stopped) ≡ true → ended w ≡ finalize w
unfolding ended
ended_final w h = ap (λ b. if b then finalize w else w) h

ended-Answered : (w : StreamWriter) → ((seen : Bool) × Before seen w) ⊎ After w → Answered (ended w)
ended-Answered w (inr a) =
    subst Answered (sym (ended_same w (ground (arith, a.stopped, a.started))))
      (λ y. a.whole, λ n. absurd (ground (arith, n, a.started)))
ended-Answered w (inl (seen, b)) = elim (Bool-cases w.started) [
  | inl y ↦
      let f = finalize-After w b.streaming b.stopped in
      subst Answered (sym (ended_final w (ground (arith, y, b.stopped))))
        (λ z. f.whole, λ n. absurd (ground (arith, n, f.started)))
  | inr n ↦
      let fo = b.streaming.follows in
      subst Answered (sym (ended_same w (ground (arith, n)))) (
        λ y. absurd (ground (arith, n, y)),
        λ z. unstarted_sent w.sent initial fo.protocol fo.accepted (fo.phase ∙ ap phase_of n),
      )
]

last_line :
    (parse : Str → Option Chunk) (ls : List Str) (last : Str) (w : StreamWriter)
    → (if is_empty last
        then process_lines parse ls w
        else process_line parse (trim_right_cr last) (process_lines parse ls w))
      ≡ on_frames (map (frame_of parse) (if is_empty last then ls else ls ++ (last ∷ []))) w
unfolding process_lines
last_line parse ls [] w = process_lines-on_frames parse ls w
last_line parse ls (b ∷ last) w =
    sym (process_lines-append parse ls ((b ∷ last) ∷ []) w)
    ∙ process_lines-on_frames parse (ls ++ ((b ∷ last) ∷ [])) w

new_pipe_frames :
    (parse : Str → Option Chunk) (bytes : Str) (code : ℕ)
    → leb 400 code ≡ false
    → (drain parse (write parse bytes (write_header code new_pipe))).writer
      ≡ ended (on_frames (frames_of parse bytes) new_stream_writer)
unfolding drain ended frames_of write_header new_pipe new_stream_writer
new_pipe_frames parse bytes code h =
    ap (λ p. (drain parse p).writer) (write_streamed parse bytes (write_header code new_pipe) h)
    ∙ ap ended (last_line parse (split_lines bytes).0 (split_lines bytes).1 new_stream_writer)

-- The upstream answers with any status and any bytes, cut into any writes, with no content after a
-- tool call and no chunk after the end marker. When the proxy has returned and HandleMessages has drained
-- the writer, then either nothing was sent, or what was sent is one whole message: the protocol
-- takes every event, ends, and leaves no block open.
pub streamed_response :
    (parse : Str → Option Chunk) (code : ℕ) (bytes : Str)
    → OrderlyFrames false (frames_of parse bytes)
    → Answered (drain parse (write parse bytes (write_header code new_pipe))).writer
unfolding drain write_header new_pipe new_stream_writer
streamed_response parse code bytes o = elim (Bool-cases (leb 400 code)) [
  | inl y ↦
      subst (λ p. Answered (drain parse p).writer)
        (sym (write_buffered parse bytes (write_header code new_pipe) y))
        (λ z. absurd (cc), λ z. refl)
  | inr n ↦ subst Answered (sym (new_pipe_frames parse bytes code n)) (
      ended-Answered (on_frames (frames_of parse bytes) new_stream_writer) (
        on_frames-ends false (frames_of parse bytes) new_stream_writer o
          (record { streaming = new_stream_writer-Streaming; stopped = refl; order = λ y. refl })))
]
