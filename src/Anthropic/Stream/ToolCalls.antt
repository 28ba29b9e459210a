-- ===== src/Anthropic/Stream/ToolCalls.antt =====
-- The tool calls of a chunk keep the writer in step with the protocol.
use foxrouters.Anthropic.Stream.{
  ensure_start, close_text_block, create_tool, store_tool, StreamToolBlock, content_block_delta,
  ensure_tool_block, StreamWriter, tool_use, SseEvent, open_tool, content_block_start, name_tool,
  Delta, emit_event, find_tool, input_json_delta,
}
use foxrouters.Anthropic.Stream.Grammar.{inside, opened, accept, fill_block}
use foxrouters.Anthropic.Stream.Steps.{
  ensure_start-started, sends, ensure_start-Follows, inside_of, Follows, close_text_block-Follows,
  Unclosed,
}
use foxrouters.Anthropic.Stream.ToolSteps.{found-status}
use foxrouters.Anthropic.Stream.ToolBlocks.{
  create_tool-Holds, store_tool-Holds, HoldsPair, start_tool-Holds, Holds, Streaming,
}
use foxrouters.Anthropic.Stream.Chunks.{ToolDelta, on_tools, on_tool}
use foxrouters.Prelude.{
  Bool-cases, if◌then◌else◌, All, str_eq, Str, ◌≡◌, refl, sym, ap, ◌∙◌, subst, inl, inr, Bool, true,
  false, not, ◌&&◌, some, List, [], ◌∷◌, arith,
}
use foxrouters.Prelude.Int.{ℤ}

pub close_text_block-tool_blocks :
    (w : StreamWriter) → (close_text_block w).tool_blocks ≡ w.tool_blocks
unfolding close_text_block emit_event
close_text_block-tool_blocks w = ground arith

pub close_text_block-started : (w : StreamWriter) → (close_text_block w).started ≡ w.started
unfolding close_text_block emit_event
close_text_block-started w = ground arith

close_text_block-Holds :
    (w : StreamWriter) (tb : StreamToolBlock) → Holds w tb → Holds (close_text_block w) tb
close_text_block-Holds w tb h = record {
  streaming = record {
    follows = close_text_block-Follows w h.streaming.follows h.running;
    unclosed = subst (All Unclosed) (sym (close_text_block-tool_blocks w)) h.streaming.unclosed;
  };
  running = close_text_block-started w ∙ h.running;
  stored = ap (find_tool tb.openai_idx) (close_text_block-tool_blocks w) ∙ h.stored;
  closed = h.closed;
}

named_open :
    (tb : StreamToolBlock) (w : StreamWriter)
    → (not tb.started && not (str_eq tb.name [])) ≡ true
    → open_tool tb w ≡ (
      emit_event
          (content_block_start tb.anthropic_idx (tool_use tb.id tb.name))
          (store_tool (record tb { started = true }) (close_text_block w)),
      record tb { started = true },
    )
unfolding open_tool
named_open tb w h = ground (arith, h)

named_idle :
    (tb : StreamToolBlock) (w : StreamWriter)
    → (not tb.started && not (str_eq tb.name [])) ≡ false
    → open_tool tb w ≡ (store_tool tb w, tb)
unfolding open_tool
named_idle tb w h = ground (arith, h)

open_tool-Holds :
    (id name : Str) (tb : StreamToolBlock) (w : StreamWriter)
    → Holds w tb
    → HoldsPair (open_tool (name_tool id name tb) w)
unfolding name_tool
open_tool-Holds id name tb w h =
    let new = name_tool id name tb in
    elim (Bool-cases (not new.started && not (str_eq new.name []))) [
      | inl y ↦ subst HoldsPair (sym (named_open new w y)) (
          start_tool-Holds (close_text_block w) tb (record new { started = true })
            (close_text_block-Holds w tb h) refl refl h.closed (tool_use new.id new.name)
            (ground (arith, y)) refl)
      | inr n ↦
          subst HoldsPair (sym (named_idle new w n))
            (store_tool-Holds w tb new h refl refl h.closed refl)
    ]

pub ensure_tool_block-Holds :
    (idx : ℤ) (id name : Str) (w : StreamWriter)
    → Streaming w
    → w.started ≡ true
    → HoldsPair (ensure_tool_block idx id name w)
unfolding ensure_tool_block
ensure_tool_block-Holds idx id name w s r =
    let p = create_tool idx (find_tool idx w.tool_blocks) w in
    open_tool-Holds id name p.1 p.0 (create_tool-Holds idx (find_tool idx w.tool_blocks) w refl s r)

-- An event that the protocol accepts without a change.
pub filled-Follows :
    (w : StreamWriter) (e : SseEvent) (f : Follows w)
    → accept e f.protocol ≡ some f.protocol
    → Follows (emit_event e w)
unfolding emit_event
filled-Follows w e f ok = record {
  protocol = f.protocol;
  accepted = sends w.sent e f.protocol f.protocol f.accepted ok;
  phase = f.phase;
  statuses = f.statuses;
  count = f.count;
  unique = f.unique;
  numbered = f.numbered;
  numbering = f.numbering;
  text_order = f.text_order;
}

-- What is not in the protocol.
pub quiet-Follows :
    (w : StreamWriter) (stop : Bool) (finish text_buf : Str) (input output : ℤ)
    → Follows w
    → Follows (record w {
      stopped = stop;
      finish = finish;
      text_buf = text_buf;
      input_toks = input;
      output_toks = output;
    })
quiet-Follows w stop finish text_buf input output f = record {
  protocol = f.protocol;
  accepted = f.accepted;
  phase = f.phase;
  statuses = f.statuses;
  count = f.count;
  unique = f.unique;
  numbered = f.numbered;
  numbering = f.numbering;
  text_order = f.text_order;
}

-- An argument goes to a block that is open.
fill_tool-Follows :
    (w : StreamWriter) (tb : StreamToolBlock) (d : Delta)
    → Holds w tb
    → tb.started ≡ true
    → Follows (emit_event (content_block_delta tb.anthropic_idx d) w)
fill_tool-Follows w tb d h y =
    let f = h.streaming.follows in
    let live : f.protocol.status tb.anthropic_idx ≡ opened =
      found-status w f tb.openai_idx tb h.stored ∙ ground (arith, y, h.closed) in
    filled-Follows w (content_block_delta tb.anthropic_idx d) f (
      ap (λ ph. fill_block ph (f.protocol.status tb.anthropic_idx) f.protocol)
        (inside_of w f h.running)
      ∙ ap (λ st. fill_block inside st f.protocol) live)

-- The writer while it runs.
pub record Running (w : StreamWriter) : Type 0 where
  pub streaming : Streaming w
  pub running : w.started ≡ true

with_arguments :
    (arguments : Str) (p : StreamWriter × StreamToolBlock)
    → HoldsPair p
    → Running (
        if not (str_eq arguments []) && p.1.started
        then emit_event (content_block_delta p.1.anthropic_idx (input_json_delta arguments)) p.0
        else p.0)
unfolding emit_event
with_arguments arguments (w, tb) h =
    let same : Running w = record { streaming = h.streaming; running = h.running } in
    elim (Bool-cases (not (str_eq arguments []) && tb.started)) [
      | inl y ↦
          let filled : Running
              (emit_event (content_block_delta tb.anthropic_idx (input_json_delta arguments)) w) =
            record {
              streaming = record {
                follows = fill_tool-Follows w tb (input_json_delta arguments) h (ground (arith, y));
                unclosed = h.streaming.unclosed;
              };
              running = h.running;
            } in
          rw y filled
      | inr n ↦ rw n same
    ]

ensure_start-tool_blocks : (w : StreamWriter) → (ensure_start w).tool_blocks ≡ w.tool_blocks
unfolding ensure_start emit_event
ensure_start-tool_blocks w = ground arith

pub ensure_start-Running : (w : StreamWriter) → Streaming w → Running (ensure_start w)
ensure_start-Running w s = record {
  streaming = record {
    follows = ensure_start-Follows w s.follows;
    unclosed = subst (All Unclosed) (sym (ensure_start-tool_blocks w)) s.unclosed;
  };
  running = ensure_start-started w;
}

pub on_tool-Running : (tc : ToolDelta) (w : StreamWriter) → Streaming w → Running (on_tool tc w)
unfolding on_tool
on_tool-Running tc w s =
    let r = ensure_start-Running w s in
    with_arguments tc.arguments (ensure_tool_block tc.index tc.id tc.name (ensure_start w))
      (ensure_tool_block-Holds tc.index tc.id tc.name (ensure_start w) r.streaming r.running)

pub on_tools-Streaming :
    (tcs : List ToolDelta) (w : StreamWriter) → Streaming w → Streaming (on_tools tcs w)
unfolding on_tools
on_tools-Streaming [] w s = s
on_tools-Streaming (tc ∷ tcs) w s =
    on_tools-Streaming tcs (on_tool tc w) (on_tool-Running tc w s).streaming
