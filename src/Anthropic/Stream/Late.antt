-- ===== src/Anthropic/Stream/Late.antt =====
-- Content that comes after a tool block was opened.
use foxrouters.Anthropic.Stream.{
  StreamWriter, content_block_delta, text_delta, emit_event, ensure_text_block, ensure_start,
}
use foxrouters.Anthropic.Stream.Grammar.{
  initial, fill_block, accepts, inside, finished, accepts-snoc,
}
use foxrouters.Anthropic.Stream.Steps.{text_on, start_on, Follows, text_status, inside_of}
use foxrouters.Anthropic.Stream.Chunks.{on_content}
use foxrouters.Anthropic.Stream.Contents.{content_sent}
use foxrouters.Prelude.{str_eq, Str, ◌≡◌, ap, ◌∙◌, true, false, none, [], ◌∷◌, ◌++◌}

closed_text :
    (w : StreamWriter) (f : Follows w)
    → w.text_open ≡ true
    → w.text_closed ≡ true
    → f.protocol.status 0 ≡ finished
closed_text w f y z =
    f.statuses 0 ∙ ap (λ b. text_status b w.text_closed) y ∙ ap (text_status true) z

ready_same :
    (w : StreamWriter)
    → w.started ≡ true
    → w.text_open ≡ true
    → ensure_text_block (ensure_start w) ≡ w
ready_same w r y = ap ensure_text_block (start_on w r) ∙ text_on w y

-- Once a tool block has closed the block of the text, the next content is sent to the closed block,
-- which the protocol refuses: so the writer breaks it for a stream with content after a tool call.
pub late_content :
    (s : Str) (w : StreamWriter)
    → Follows w
    → w.started ≡ true
    → w.text_open ≡ true
    → w.text_closed ≡ true
    → str_eq s [] ≡ false
    → accepts (on_content s w).sent initial ≡ none
unfolding emit_event
late_content s w f r y z n =
    let w' = ensure_text_block (ensure_start w) in
    let same = ready_same w r y in
    ap (λ v. accepts v.sent initial) (content_sent s w n)
    ∙ ap
        (λ (v : StreamWriter).
          accepts (v.sent ++ (content_block_delta 0 (text_delta s) ∷ [])) initial)
        same
    ∙ accepts-snoc w.sent (content_block_delta 0 (text_delta s)) initial f.protocol f.accepted
    ∙ ap (λ ph. fill_block ph (f.protocol.status 0) f.protocol) (inside_of w f r)
    ∙ ap (λ st. fill_block inside st f.protocol) (closed_text w f y z)
