-- ===== src/Anthropic/Handler/Answers.antt =====
-- What a client of the Messages interface gets.
use foxrouters.Anthropic.Handler.{
  answer_stream, text_out, events, message, Answer, captured, run_writes, failed, tool_out,
  stream_failed, Json, OutBlock, Proxied,
}
use foxrouters.Anthropic.Captured.{Extract, extract_from_captured_body}
use foxrouters.Anthropic.Request.Messages.{ids_of}
use foxrouters.Anthropic.Stream.Writes.{write_buffered, write_streamed, write-append}
use foxrouters.Anthropic.Stream.Texts.{str_append-nil, str_append_assoc}
use foxrouters.Anthropic.Stream.Response.{Answered, OrderlyFrames, frames_of, streamed_response}
use foxrouters.Anthropic.Stream.{new_stream_writer}
use foxrouters.Anthropic.Stream.Complete.{Whole}
use foxrouters.Anthropic.Stream.Chunks.{Chunk}
use foxrouters.Anthropic.Stream.Bytes.{
  drain, write_header, split_lines, process_lines, Pipe, new_pipe, write,
}
use foxrouters.Prelude.{
  leb, Bool-cases, if◌then◌else◌, is_empty, codes, Str, ℕ, ◌≤◌, ◌<◌, ◌≡◌, refl, sym, ap, ◌∙◌, subst,
  inl, inr, false, Option, List, [], ◌∷◌, ◌++◌, arith,
}

run_writes-write :
    (parse : Str → Option Chunk) (ss : List Str) (s : Str) (p : Pipe)
    → run_writes parse ss (write parse s p) ≡ write parse (s ++ captured ss) p
unfolding run_writes captured
run_writes-write parse [] s p = ap (λ t. write parse t p) (sym (str_append-nil s))
run_writes-write parse (t ∷ ss) s p =
    ap (run_writes parse ss) (sym (write-append parse s t p))
    ∙ run_writes-write parse ss (s ++ t) p
    ∙ ap (λ u. write parse u p) (str_append_assoc s t (captured ss))

nothing_written :
    (parse : Str → Option Chunk) (code : ℕ)
    → write parse [] (write_header code new_pipe) ≡ write_header code new_pipe
unfolding write_header new_pipe new_stream_writer split_lines process_lines
nothing_written parse code = elim (Bool-cases (leb 400 code)) [
  | inl y ↦ write_buffered parse [] (write_header code new_pipe) y
  | inr n ↦ write_streamed parse [] (write_header code new_pipe) n
]

-- All the writes are one write of their bytes.
one_write :
    (parse : Str → Option Chunk) (ss : List Str) (code : ℕ)
    → run_writes parse ss (write_header code new_pipe)
      ≡ write parse (captured ss) (write_header code new_pipe)
unfolding run_writes captured
one_write parse [] code = sym (nothing_written parse code)
one_write parse (s ∷ ss) code = run_writes-write parse ss s (write_header code new_pipe)

status_kept :
    (parse : Str → Option Chunk) (s : Str) (code : ℕ)
    → (drain parse (write parse s (write_header code new_pipe))).status_code ≡ code
unfolding drain write write_header
status_kept parse s code = ground arith

-- An error of the client or of a server, or the events of one whole message.
abbrev pub StreamAnswer : Answer → Type 0
StreamAnswer (failed status type msg) = (400 ≤ status) × (type ≡ codes "api_error")
StreamAnswer (events es) = Whole es
StreamAnswer (message r) = ⊥

stream_failed-error : (js : Json) (out : Proxied) (p : Pipe) → StreamAnswer (stream_failed js out p)
unfolding stream_failed
stream_failed-error js out p = (ground arith, refl)

-- On the streaming path, whatever the status of the upstream is and however its bytes are cut into
-- writes, a client gets either an error with a status of at least 400, or the events of one
-- whole message; it is asked of the upstream that no content comes after a tool call and no chunk
-- after the end marker.
pub answer_stream_whole :
    (js : Json) (out : Proxied)
    → OrderlyFrames false (frames_of js.chunk (captured out.writes))
    → StreamAnswer (answer_stream js out)
unfolding answer_stream
answer_stream_whole js out o =
    let p = drain js.chunk (run_writes js.chunk out.writes (write_header out.status new_pipe)) in
    let whole : Answered p.writer =
      subst (λ q. Answered (drain js.chunk q).writer)
        (sym (one_write js.chunk out.writes out.status))
        (streamed_response js.chunk out.status (captured out.writes) o) in
    elim (Bool-cases p.writer.started) [
      | inl y ↦
          subst StreamAnswer
            (sym (ap (λ b. if b then events p.writer.sent else stream_failed js out p) y))
            (whole.0 y)
      | inr n ↦
          subst StreamAnswer
            (sym (ap (λ b. if b then events p.writer.sent else stream_failed js out p) n))
            (stream_failed-error js out p)
    ]

-- The ids of the tools of an answer.
abbrev pub out_ids : List OutBlock → List Str
out_ids [] = []
out_ids (text_out s ∷ bs) = out_ids bs
out_ids (tool_out id name input ∷ bs) = id ∷ out_ids bs

abbrev pub extracted : Json → Proxied → Extract
extracted js out = extract_from_captured_body js.completion js.choice (captured out.writes)

-- The status of the upstream if that is an error, and a message otherwise.
abbrev pub CapturedAnswer : Json → Proxied → Answer → Type 0
CapturedAnswer js out (failed status type msg) = (status ≡ out.status) × (400 ≤ out.status)
CapturedAnswer js out (events es) = ⊥
CapturedAnswer js out (message r) =
    (out.status < 400)
    × (is_empty r.content ≡ false)
    × (out_ids r.content ≡ ids_of (extracted js out).tool_calls)
    × ((is_empty (extracted js out).tool_calls ≡ false)
        → (extracted js out).finish ≡ []
        → r.stop_reason ≡ codes "tool_use")
