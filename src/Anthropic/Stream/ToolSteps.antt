-- ===== src/Anthropic/Stream/ToolSteps.antt =====
-- The steps on the tool blocks keep the writer in step with the protocol.
use foxrouters.Anthropic.Stream.{
  StreamWriter, emit_event, SseEvent, StreamToolBlock, store_tool, find_tool, set_tool,
}
use foxrouters.Anthropic.Stream.Grammar.{set_status, accept}
use foxrouters.Anthropic.Stream.Blocks.{
  open_tools-replace, length-replace, status_at-replace, open_tools, replace-Unique, is_open,
  status_at-middle, Unique, status_at, Numbered, tool_status, replace-Numbered, find_tool-Found,
  Found, set_tool-middle, middle_idx,
}
use foxrouters.Anthropic.Stream.Steps.{Follows, sends, text_status}
use foxrouters.Prelude.{
  nat_beq, if◌then◌else◌, length, ℕ, ◌+◌, ◌≡◌, sym, ap, ◌∙◌, subst, some, List, ◌∷◌, ◌++◌, arith,
  refl,
}
use foxrouters.Prelude.Int.{ℤ}

module _ (w : StreamWriter) (f : Follows w) (tb new : StreamToolBlock)
    (front back : List StreamToolBlock) (whole : w.tool_blocks ≡ front ++ (tb ∷ back))
    (key : new.openai_idx ≡ tb.openai_idx) (idx : new.anthropic_idx ≡ tb.anthropic_idx) where
  pub whole_blocks : Numbered 1 (front ++ (tb ∷ back))
  whole_blocks = subst (Numbered 1) whole f.numbered

  pub counted_whole :
      f.protocol.open_blocks
      ≡ is_open (text_status w.text_open w.text_closed) + open_tools (front ++ (tb ∷ back))
  counted_whole =
      f.count ∙ ap (λ bs. is_open (text_status w.text_open w.text_closed) + open_tools bs) whole

  pub status_whole :
      (i : ℕ)
      → f.protocol.status i ≡ (
          if nat_beq i 0
          then text_status w.text_open w.text_closed
          else status_at i (front ++ (tb ∷ back)))
  status_whole i =
      f.statuses i
      ∙ ap (λ bs. if nat_beq i 0 then text_status w.text_open w.text_closed else status_at i bs)
          whole

  -- A write that leaves the status of the block.
  pub same_status-Follows :
      tool_status new ≡ tool_status tb → Follows (record w { tool_blocks = front ++ (new ∷ back) })
  same_status-Follows same = record {
    protocol = f.protocol;
    accepted = f.accepted;
    phase = f.phase;
    statuses = λ i. ground (
      arith,
      status_whole i,
      status_at-replace tb new back key idx front 1 i whole_blocks,
      status_at-middle tb front back 1 whole_blocks,
      same,
    );
    count = ground (arith, counted_whole, open_tools-replace tb new back key idx front, same);
    unique = replace-Unique tb new back key idx front (subst Unique whole f.unique);
    numbered = replace-Numbered tb new back key idx front 1 whole_blocks;
    numbering =
        f.numbering
        ∙ ap (λ bs. 1 + length bs) whole
        ∙ sym (ap (λ n. 1 + n) (length-replace tb new back key idx front));
    text_order = f.text_order;
  }

  -- A write that comes with an event.
  pub event-Follows :
      (e : SseEvent) (n : ℕ)
      → accept e f.protocol
        ≡ some (record f.protocol {
          status = set_status tb.anthropic_idx (tool_status new) f.protocol.status;
          open_blocks = n;
        })
      → n + is_open (tool_status tb) ≡ f.protocol.open_blocks + is_open (tool_status new)
      → Follows (emit_event e (record w { tool_blocks = front ++ (new ∷ back) }))
  unfolding emit_event
  event-Follows e n ok balance = record {
    protocol = record f.protocol {
      status = set_status tb.anthropic_idx (tool_status new) f.protocol.status;
      open_blocks = n;
    };
    accepted = sends w.sent e f.protocol _ f.accepted ok;
    phase = f.phase;
    statuses = λ i. ground (
      arith,
      status_whole i,
      status_at-replace tb new back key idx front 1 i whole_blocks,
      middle_idx tb new back key idx front 1 whole_blocks,
    );
    count = omega (arith, counted_whole, open_tools-replace tb new back key idx front, balance);
    unique = replace-Unique tb new back key idx front (subst Unique whole f.unique);
    numbered = replace-Numbered tb new back key idx front 1 whole_blocks;
    numbering =
        f.numbering
        ∙ ap (λ bs. 1 + length bs) whole
        ∙ sym (ap (λ n. 1 + n) (length-replace tb new back key idx front));
    text_order = f.text_order;
  }

store-whole :
    (new : StreamToolBlock) (w : StreamWriter) (tb : StreamToolBlock)
    (t : Found new.openai_idx tb w.tool_blocks)
    → store_tool new w ≡ record w { tool_blocks = t.front ++ (new ∷ t.back) }
unfolding store_tool
store-whole new w tb t =
    let written : set_tool new w.tool_blocks ≡ t.front ++ (new ∷ t.back) =
      ap (set_tool new) t.whole ∙ set_tool-middle t.front tb new t.back t.first t.key in
    ap (λ bs. record w { tool_blocks = bs }) written

-- A block of the writer is written again with the same status.
pub store_tool-Follows :
    (w : StreamWriter) (tb new : StreamToolBlock)
    → Follows w
    → find_tool new.openai_idx w.tool_blocks ≡ some tb
    → new.anthropic_idx ≡ tb.anthropic_idx
    → tool_status new ≡ tool_status tb
    → Follows (store_tool new w)
store_tool-Follows w tb new f h idx same =
    let t = find_tool-Found new.openai_idx tb w.tool_blocks h in
    subst Follows (sym (store-whole new w tb t))
      (same_status-Follows w f tb new t.front t.back t.whole (sym t.key) idx same)

-- A block of the writer is opened or closed with its event.
pub store_event-Follows :
    (w : StreamWriter) (tb new : StreamToolBlock) (e : SseEvent) (n : ℕ) (f : Follows w)
    → find_tool new.openai_idx w.tool_blocks ≡ some tb
    → new.anthropic_idx ≡ tb.anthropic_idx
    → accept e f.protocol
      ≡ some (record f.protocol {
        status = set_status tb.anthropic_idx (tool_status new) f.protocol.status;
        open_blocks = n;
      })
    → n + is_open (tool_status tb) ≡ f.protocol.open_blocks + is_open (tool_status new)
    → Follows (emit_event e (store_tool new w))
store_event-Follows w tb new e n f h idx ok balance =
    let t = find_tool-Found new.openai_idx tb w.tool_blocks h in
    subst (λ v. Follows (emit_event e v)) (sym (store-whole new w tb t))
      (event-Follows w f tb new t.front t.back t.whole (sym t.key) idx e n ok balance)

-- The status of a block that is found is what the protocol has at its index.
pub found-status :
    (w : StreamWriter) (f : Follows w) (k : ℤ) (tb : StreamToolBlock)
    → find_tool k w.tool_blocks ≡ some tb
    → f.protocol.status tb.anthropic_idx ≡ tool_status tb
found-status w f k tb h =
    let t = find_tool-Found k tb w.tool_blocks h in
    let whole = subst (Numbered 1) t.whole f.numbered in
    ground (
      arith,
      status_whole w f tb tb t.front t.back t.whole refl refl tb.anthropic_idx,
      status_at-middle tb t.front t.back 1 whole,
      middle_idx tb tb t.back refl refl t.front 1 whole,
    )
