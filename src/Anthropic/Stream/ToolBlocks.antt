-- ===== src/Anthropic/Stream/ToolBlocks.antt =====
-- ensureToolBlock keeps the writer in step with the protocol, and hands out a block of the writer.
use foxrouters.Anthropic.Stream.{
  create_tool, find_tool, content_block_start, StreamToolBlock, BlockKind, store_tool, int_beq,
  emit_event, set_tool, StreamWriter,
}
use foxrouters.Anthropic.Stream.Grammar.{opened, fresh, start_block, inside}
use foxrouters.Anthropic.Stream.Blocks.{
  tool_status, find_tool-Found, open_tools-snoc, snoc-Unique, status_at-snoc, snoc-Numbered,
  find_tool-snoc, int_beq_iff,
}
use foxrouters.Anthropic.Stream.Steps.{inside_of, Unclosed, Follows}
use foxrouters.Anthropic.Stream.ToolSteps.{store_tool-Follows, found-status, store_event-Follows}
use foxrouters.Prelude.{
  if_either, Bool-cases, All, length-append, ◌+◌, ◌≡◌, refl, sym, ap, ◌∙◌, subst, inl, inr, true,
  false, Option, none, some, List, [], ◌∷◌, ◌++◌, arith,
}
use foxrouters.Prelude.Int.{ℤ}

-- The writer follows the protocol and has closed no tool block.
pub record Streaming (w : StreamWriter) : Type 0 where
  pub follows : Follows w
  pub unclosed : All Unclosed w.tool_blocks

-- The writer, and a block of it.
pub record Holds (w : StreamWriter) (tb : StreamToolBlock) : Type 0 where
  pub streaming : Streaming w
  pub running : w.started ≡ true
  pub stored : find_tool tb.openai_idx w.tool_blocks ≡ some tb
  pub closed : tb.closed ≡ false

append-Follows :
    (w : StreamWriter) (tb : StreamToolBlock)
    → Follows w
    → tb.started ≡ false
    → tb.anthropic_idx ≡ w.next_block_idx
    → find_tool tb.openai_idx w.tool_blocks ≡ none
    → Follows (record w {
      tool_blocks = w.tool_blocks ++ (tb ∷ []);
      next_block_idx = w.next_block_idx + 1;
    })
append-Follows w tb f unstarted idx free = record {
  protocol = f.protocol;
  accepted = f.accepted;
  phase = f.phase;
  statuses = λ i. ground (arith, f.statuses i, status_at-snoc tb unstarted w.tool_blocks i);
  count = ground (arith, f.count, open_tools-snoc tb unstarted w.tool_blocks);
  unique = snoc-Unique w.tool_blocks tb free f.unique;
  numbered = snoc-Numbered w.tool_blocks tb 1 (idx ∙ f.numbering) f.numbered;
  numbering = omega (arith, f.numbering, length-append w.tool_blocks (tb ∷ []));
  text_order = f.text_order;
}

found-Unclosed :
    (k : ℤ) (tb : StreamToolBlock) (bs : List StreamToolBlock)
    → All Unclosed bs
    → find_tool k bs ≡ some tb
    → tb.closed ≡ false
unfolding find_tool
found-Unclosed k tb [] u h = absurd (ground (arith, h))
found-Unclosed k tb (b ∷ bs) u h = elim (Bool-cases (int_beq b.openai_idx k)) [
  | inl y ↦
      let same : b ≡ tb = ground (arith, y, h) in
      ap (λ (x : StreamToolBlock). x.closed) (sym same) ∙ u.0
  | inr n ↦ found-Unclosed k tb bs u.1 (ground (arith, n, h))
]

snoc-Unclosed :
    (bs : List StreamToolBlock) (tb : StreamToolBlock)
    → All Unclosed bs
    → tb.closed ≡ false
    → All Unclosed (bs ++ (tb ∷ []))
snoc-Unclosed [] tb u h = (h, tt)
snoc-Unclosed (b ∷ bs) tb u h = (u.0, snoc-Unclosed bs tb u.1 h)

set_tool-Unclosed :
    (new : StreamToolBlock) (bs : List StreamToolBlock)
    → All Unclosed bs
    → new.closed ≡ false
    → All Unclosed (set_tool new bs)
unfolding set_tool
set_tool-Unclosed new [] u h = tt
set_tool-Unclosed new (b ∷ bs) u h =
    if_either (All Unclosed) (int_beq b.openai_idx new.openai_idx) (new ∷ bs) (b ∷ set_tool new bs)
      (h, u.1) (u.0, set_tool-Unclosed new bs u.1 h)

find_tool-set_tool :
    (new tb : StreamToolBlock) (bs : List StreamToolBlock)
    → find_tool new.openai_idx bs ≡ some tb
    → find_tool new.openai_idx (set_tool new bs) ≡ some new
unfolding find_tool set_tool
find_tool-set_tool new tb [] h = absurd (ground (arith, h))
find_tool-set_tool new tb (b ∷ bs) h = elim (Bool-cases (int_beq b.openai_idx new.openai_idx)) [
  | inl y ↦ ground (arith, y, (int_beq_iff new.openai_idx new.openai_idx).1 refl)
  | inr n ↦ ground (arith, n, find_tool-set_tool new tb bs (ground (arith, n, h)))
]

-- The pair of the writer and a block of it.
abbrev pub HoldsPair : StreamWriter × StreamToolBlock → Type 0
HoldsPair p = Holds p.0 p.1

pub create_tool-Holds :
    (idx : ℤ) (o : Option StreamToolBlock) (w : StreamWriter)
    → find_tool idx w.tool_blocks ≡ o
    → Streaming w
    → w.started ≡ true
    → HoldsPair (create_tool idx o w)
unfolding create_tool
create_tool-Holds idx (some tb) w h s r = record {
  streaming = s;
  running = r;
  stored =
      subst (λ k. find_tool k w.tool_blocks ≡ some tb)
        (sym (find_tool-Found idx tb w.tool_blocks h).key) h;
  closed = found-Unclosed idx tb w.tool_blocks s.unclosed h;
}
create_tool-Holds idx none w h s r =
    let tb : StreamToolBlock = record {
      openai_idx = idx;
      anthropic_idx = w.next_block_idx;
      id = [];
      name = [];
      started = false;
      closed = false;
    } in
    record {
      streaming = record {
        follows = append-Follows w tb s.follows refl refl h;
        unclosed = snoc-Unclosed w.tool_blocks tb s.unclosed refl;
      };
      running = r;
      stored = ground (arith, find_tool-snoc w.tool_blocks tb idx h, (int_beq_iff idx idx).1 refl);
      closed = refl;
    }

-- A block that is written in place of one with the same key.
module _ (w : StreamWriter) (tb new : StreamToolBlock) (h : Holds w tb)
    (key : new.openai_idx ≡ tb.openai_idx) (idx : new.anthropic_idx ≡ tb.anthropic_idx)
    (open_still : new.closed ≡ false) where
  stored_key : find_tool new.openai_idx w.tool_blocks ≡ some tb
  stored_key = subst (λ k. find_tool k w.tool_blocks ≡ some tb) (sym key) h.stored

  pub store_tool-Holds : tool_status new ≡ tool_status tb → Holds (store_tool new w) new
  unfolding store_tool
  store_tool-Holds same = record {
    streaming = record {
      follows = store_tool-Follows w tb new h.streaming.follows stored_key idx same;
      unclosed = set_tool-Unclosed new w.tool_blocks h.streaming.unclosed open_still;
    };
    running = h.running;
    stored = find_tool-set_tool new tb w.tool_blocks stored_key;
    closed = open_still;
  }

  -- A block that was not started is opened.
  pub start_tool-Holds :
      (kind : BlockKind)
      → tb.started ≡ false
      → new.started ≡ true
      → Holds (emit_event (content_block_start new.anthropic_idx kind) (store_tool new w)) new
  unfolding store_tool emit_event
  start_tool-Holds kind off on =
      let f = h.streaming.follows in
      let free : f.protocol.status new.anthropic_idx ≡ fresh =
        ap f.protocol.status idx
        ∙ found-status w f tb.openai_idx tb h.stored
        ∙ ground (arith, off) in
      let live : tool_status new ≡ opened = ground (arith, on, open_still) in
      record {
        streaming = record {
          follows =
              store_event-Follows w tb new (content_block_start new.anthropic_idx kind)
                (f.protocol.open_blocks + 1) f stored_key idx
                (ap
                    (λ ph.
                      start_block ph (f.protocol.status new.anthropic_idx) new.anthropic_idx
                        f.protocol)
                    (inside_of w f h.running)
                  ∙ ap (λ st. start_block inside st new.anthropic_idx f.protocol) free
                  ∙ ground (arith, live, idx))
                (ground (arith, off, live));
          unclosed = set_tool-Unclosed new w.tool_blocks h.streaming.unclosed open_still;
        };
        running = h.running;
        stored = find_tool-set_tool new tb w.tool_blocks stored_key;
        closed = open_still;
      }
