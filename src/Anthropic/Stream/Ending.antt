-- ===== src/Anthropic/Stream/Ending.antt =====
-- finalize closes what is open, each block once, and ends the message.
use foxrouters.Anthropic.Stream.{
  StreamWriter, set_tool, close_tool_block, emit_event, StreamToolBlock, store_tool,
  content_block_stop,
}
use foxrouters.Anthropic.Stream.Grammar.{inside, opened, stop_block}
use foxrouters.Anthropic.Stream.Blocks.{
  Numbered, tool_status, Unique, middle_idx, open_tools, set_tool-middle, status_at-middle,
  open_tools-replace, is_open,
}
use foxrouters.Anthropic.Stream.Steps.{Follows, text_status, inside_of}
use foxrouters.Anthropic.Stream.ToolSteps.{counted_whole, event-Follows, status_whole}
use foxrouters.Anthropic.Stream.Chunks.{close_tools}
use foxrouters.Anthropic.Stream.Sorting.{snoc-append, absent_before}
use foxrouters.Prelude.{
  Bool-cases, ℕ, ◌-◌, ◌≡◌, refl, sym, ap, ◌∙◌, subst, inl, inr, true, false, not, ◌||◌, List, [],
  ◌∷◌, ◌++◌, arith,
}

abbrev pub text_live : StreamWriter → ℕ
text_live w = is_open (text_status w.text_open w.text_closed)

-- The blocks before `back` are done with.
pub record Closing (front back : List StreamToolBlock) (w : StreamWriter) : Type 0 where
  pub follows : Follows w
  pub running : w.started ≡ true
  pub text_done : text_live w ≡ 0
  pub blocks : w.tool_blocks ≡ front ++ back
  pub front_done : open_tools front ≡ 0

close_skip :
    (tb : StreamToolBlock) (w : StreamWriter)
    → (not tb.started || tb.closed) ≡ true
    → close_tool_block tb w ≡ w
unfolding close_tool_block
close_skip tb w h = ground (arith, h)

close_sent :
    (tb : StreamToolBlock) (w : StreamWriter)
    → (not tb.started || tb.closed) ≡ false
    → close_tool_block tb w
      ≡ emit_event
          (content_block_stop tb.anthropic_idx)
          (store_tool (record tb { closed = true }) w)
unfolding close_tool_block
close_sent tb w h = ground (arith, h)

one_more_done :
    (tb : StreamToolBlock) (front : List StreamToolBlock)
    → open_tools front ≡ 0
    → is_open (tool_status tb) ≡ 0
    → open_tools (front ++ (tb ∷ [])) ≡ 0
one_more_done tb [] h d = omega (arith, d)
one_more_done tb (b ∷ front) h d = omega (arith, h, one_more_done tb front (omega (arith, h)) d)

close_one :
    (tb : StreamToolBlock) (front back : List StreamToolBlock) (w : StreamWriter)
    → Closing front (tb ∷ back) w
    → (not tb.started || tb.closed) ≡ false
    → Closing (front ++ (record tb { closed = true } ∷ [])) back (
        emit_event
          (content_block_stop tb.anthropic_idx)
          (store_tool (record tb { closed = true }) w))
unfolding emit_event store_tool
close_one tb front back w c h =
    let new : StreamToolBlock = record tb { closed = true } in
    let on : tb.started ≡ true = ground (arith, h) in
    let off : tb.closed ≡ false = ground (arith, h) in
    let u = subst Unique c.blocks c.follows.unique in
    let written : set_tool new w.tool_blocks ≡ front ++ (new ∷ back) =
      ap (set_tool new) c.blocks
      ∙ set_tool-middle front tb new back (absent_before tb front back u) refl in
    let live : c.follows.protocol.status tb.anthropic_idx ≡ opened =
      status_whole w c.follows tb new front back c.blocks refl refl tb.anthropic_idx
      ∙ ground (
        arith,
        on,
        off,
        status_at-middle tb front back 1 (subst (Numbered 1) c.blocks c.follows.numbered),
        middle_idx tb tb back refl refl front 1 (subst (Numbered 1) c.blocks c.follows.numbered),
      ) in
    let f = c.follows in
    let sent =
      event-Follows w f tb new front back c.blocks refl refl (content_block_stop tb.anthropic_idx)
        (f.protocol.open_blocks - 1)
        (ap (λ ph. stop_block ph (f.protocol.status tb.anthropic_idx) tb.anthropic_idx f.protocol)
            (inside_of w f c.running)
          ∙ ap (λ st. stop_block inside st tb.anthropic_idx f.protocol) live
          ∙ ground (arith, on, off))
        (ground (
          arith,
          on,
          off,
          counted_whole w f tb new front back c.blocks refl refl,
          open_tools-replace tb new back refl refl front,
        )) in
    record {
      follows =
          subst
            (λ bs.
              Follows
                (emit_event (content_block_stop tb.anthropic_idx) (record w { tool_blocks = bs })))
            (sym written) sent;
      running = c.running;
      text_done = c.text_done;
      blocks = written ∙ sym (snoc-append front new back);
      front_done = one_more_done new front c.front_done (ground (arith, on));
    }

pub close_tools-Closing :
    (back front : List StreamToolBlock) (w : StreamWriter)
    → Closing front back w
    → (all : List StreamToolBlock) × Closing all [] (close_tools back w)
unfolding close_tools
close_tools-Closing [] front w c = (front, c)
close_tools-Closing (tb ∷ back) front w c = elim (Bool-cases (not tb.started || tb.closed)) [
  | inl y ↦ close_tools-Closing back (front ++ (tb ∷ [])) (close_tool_block tb w) (
      subst (Closing (front ++ (tb ∷ [])) back) (sym (close_skip tb w y)) (record {
        follows = c.follows;
        running = c.running;
        text_done = c.text_done;
        blocks = c.blocks ∙ sym (snoc-append front tb back);
        front_done = one_more_done tb front c.front_done (ground (arith, y));
      }))
  | inr n ↦
      close_tools-Closing back (front ++ (record tb { closed = true } ∷ [])) (close_tool_block tb w)
        (subst (Closing (front ++ (record tb { closed = true } ∷ [])) back)
          (sym (close_sent tb w n)) (close_one tb front back w c n))
]
