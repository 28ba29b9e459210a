-- ===== src/Anthropic/Stream/Writes.antt =====
-- It does not matter how the bytes of the upstream are cut into writes.
use foxrouters.Anthropic.Stream.Bytes.{
  split_lines, extend_first, process_lines, trim_right_cr, process_line, line_data, on_data, write,
  on_parsed, Pipe,
}
use foxrouters.Prelude.{
  Bool-cases, nat_beq, Str, ℕ, ◌≡◌, refl, sym, inl, inr, false, List, [], ◌∷◌, ◌++◌, Option,
  if◌then◌else◌, leb, if_either, is_empty, str_eq, codes, ap, ◌∙◌, Bool, true, not, ◌&&◌, none,
  some, arith,
}
use foxrouters.Anthropic.Stream.{
  StreamWriter, emit_event, ensure_start, ensure_text_block, message_delta, message_stop,
}
use foxrouters.Anthropic.Stream.Chunks.{Chunk, map_stop_reason, close_tools, finalize, sort_blocks}
use foxrouters.Anthropic.Stream.Steps.{ensure_start-started}
use foxrouters.Anthropic.Stream.Complete.{ending_of}
use foxrouters.Anthropic.Stream.Texts.{
  close_text_block-Onward, str_append_assoc, ensure_text_block-Onward, emit_event-Onward,
}
use foxrouters.Anthropic.Stream.Delivery.{close_tools-Onward, on_chunk-Onward}

-- The lines of two pieces are those of the first, and those of its rest with the second.
joined : List Str × Str → Str → List Str × Str
joined p t = (p.0 ++ (split_lines (p.1 ++ t)).0, (split_lines (p.1 ++ t)).1)

joined-extend_first :
    (b : ℕ) (ls : List Str) (last t : Str)
    → nat_beq b 10 ≡ false
    → joined (extend_first b ls last) t
      ≡ extend_first b (joined (ls, last) t).0 (joined (ls, last) t).1
unfolding joined extend_first split_lines
joined-extend_first b [] last t h = rw h refl
joined-extend_first b (l ∷ ls) last t h = refl

split_lines-append : (s t : Str) → split_lines (s ++ t) ≡ joined (split_lines s) t
unfolding joined split_lines
split_lines-append [] t = refl
split_lines-append (b ∷ s) t =
    let rest = split_lines-append s t in
    elim (Bool-cases (nat_beq b 10)) [
      | inl y ↦ rw (y, rest) refl
      | inr n ↦ rw (n, rest) (sym (joined-extend_first b (split_lines s).0 (split_lines s).1 t n))
    ]

pub process_lines-append :
    (parse : Str → Option Chunk) (ls ms : List Str) (w : StreamWriter)
    → process_lines parse (ls ++ ms) w ≡ process_lines parse ms (process_lines parse ls w)
unfolding process_lines
process_lines-append parse [] ms w = refl
process_lines-append parse (l ∷ ls) ms w =
    process_lines-append parse ls ms (process_line parse (trim_right_cr l) w)

ending_of-started : (w : StreamWriter) → (ending_of w).started ≡ true
unfolding ending_of
ending_of-started w =
    let w1 = ensure_start w in
    let w2 = if not w1.text_open && is_empty w1.tool_blocks then ensure_text_block w1 else w1 in
    let w3 : StreamWriter = record w2 { stopped = true } in
    let y : w2.started ≡ true =
      if_either (λ (v : StreamWriter). v.started ≡ true)
        (not w1.text_open && is_empty w1.tool_blocks) (ensure_text_block w1) w1
        ((ensure_text_block-Onward w1).started (ensure_start-started w)) (ensure_start-started w) in
    (close_text_block-Onward w3).started y

ending_of-stopped : (w : StreamWriter) → (ending_of w).stopped ≡ true
unfolding ending_of
ending_of-stopped w =
    let w1 = ensure_start w in
    let w2 = if not w1.text_open && is_empty w1.tool_blocks then ensure_text_block w1 else w1 in
    (close_text_block-Onward (record w2 { stopped = true })).stopped

either_stopped :
    (b : Bool) (x y : StreamWriter)
    → ((b ≡ true) → x.stopped ≡ true)
    → y.stopped ≡ true
    → (if b then x else y).stopped ≡ true
either_stopped true x y p q = p refl
either_stopped false x y p q = q

pub finalize-stopped : (w : StreamWriter) → (finalize w).stopped ≡ true
unfolding finalize ending_of
finalize-stopped w =
    let w3 = ending_of w in
    let w4 = close_tools (sort_blocks [] w3.tool_blocks) w3 in
    let e = message_delta (map_stop_reason w4.finish) w4.output_toks in
    either_stopped w.stopped w (emit_event message_stop (emit_event e w4)) (λ y. y)
      ((emit_event-Onward message_stop (emit_event e w4) refl).stopped
        ∙ (emit_event-Onward e w4 refl).stopped
        ∙ (close_tools-Onward (sort_blocks [] w3.tool_blocks) w3).stopped
        ∙ ending_of-stopped w)

pub finalize_again : (w : StreamWriter) → w.stopped ≡ true → finalize w ≡ w
unfolding finalize
finalize_again w y = ground (arith, y)

pub finalize-starts : (w : StreamWriter) → w.stopped ≡ false → (finalize w).started ≡ true
unfolding finalize ending_of
finalize-starts w n =
    let w3 = ending_of w in
    let w4 = close_tools (sort_blocks [] w3.tool_blocks) w3 in
    let e = message_delta (map_stop_reason w4.finish) w4.output_toks in
    ap (λ b. (if b then w else emit_event message_stop (emit_event e w4)).started) n
    ∙ (emit_event-Onward message_stop (emit_event e w4) refl).started (
        (emit_event-Onward e w4 refl).started
          ((close_tools-Onward (sort_blocks [] w3.tool_blocks) w3).started (ending_of-started w)))

pub finalize-started : (w : StreamWriter) → w.started ≡ true → (finalize w).started ≡ true
finalize-started w y = elim (Bool-cases w.stopped) [
  | inl s ↦ ap (λ (v : StreamWriter). v.started) (finalize_again w s) ∙ y
  | inr n ↦ finalize-starts w n
]

on_parsed-started :
    (o : Option Chunk) (w : StreamWriter) → w.started ≡ true → (on_parsed o w).started ≡ true
unfolding on_parsed
on_parsed-started none w y = y
on_parsed-started (some c) w y = (on_chunk-Onward c w).started y

on_data-started :
    (parse : Str → Option Chunk) (o : Option Str) (w : StreamWriter)
    → w.started ≡ true
    → (on_data parse o w).started ≡ true
unfolding on_data
on_data-started parse none w y = y
on_data-started parse (some s) w y =
    let P : StreamWriter → Type 0 = λ v. v.started ≡ true in
    let rest = if str_eq s (codes "[DONE]") then finalize w else on_parsed (parse s) w in
    if_either P (str_eq s []) w rest y (
      if_either P (str_eq s (codes "[DONE]")) (finalize w) (on_parsed (parse s) w)
        (finalize-started w y) (on_parsed-started (parse s) w y))

pub process_lines-started :
    (parse : Str → Option Chunk) (ls : List Str) (w : StreamWriter)
    → w.started ≡ true
    → (process_lines parse ls w).started ≡ true
unfolding process_lines process_line
process_lines-started parse [] w y = y
process_lines-started parse (l ∷ ls) w y =
    process_lines-started parse ls (process_line parse (trim_right_cr l) w)
      (on_data-started parse (line_data (trim_right_cr l)) w y)

-- Whether a write is kept as the body of an error.
abbrev pub buffers : Pipe → Bool
buffers p = not p.writer.started && leb 400 p.status_code

pub write_buffered :
    (parse : Str → Option Chunk) (s : Str) (p : Pipe)
    → buffers p ≡ true
    → write parse s p ≡ record p { err_buf = p.err_buf ++ s }
unfolding write
write_buffered parse s p y = rw y refl

pub write_streamed :
    (parse : Str → Option Chunk) (s : Str) (p : Pipe)
    → buffers p ≡ false
    → write parse s p ≡ record p {
      carry = (split_lines (p.carry ++ s)).1;
      writer = process_lines parse (split_lines (p.carry ++ s)).0 p.writer;
    }
unfolding write
write_streamed parse s p n = rw n refl

still_streams :
    (parse : Str → Option Chunk) (ls : List Str) (p : Pipe)
    → buffers p ≡ false
    → (not (process_lines parse ls p.writer).started && leb 400 p.status_code) ≡ false
still_streams parse ls p n = elim (Bool-cases p.writer.started) [
  | inl y ↦ ground (arith, process_lines-started parse ls p.writer y)
  | inr y ↦ ground (arith, n, y)
]

-- Two writes do what one write of all their bytes does: the writer, the line that is not complete
-- and the body of an error are the same, wherever the bytes are cut.
pub write-append :
    (parse : Str → Option Chunk) (s t : Str) (p : Pipe)
    → write parse (s ++ t) p ≡ write parse t (write parse s p)
unfolding joined
write-append parse s t p = elim (Bool-cases (buffers p)) [
  | inl y ↦
      write_buffered parse (s ++ t) p y
      ∙ ap (λ e. record p { err_buf = e }) (sym (str_append_assoc p.err_buf s t))
      ∙ sym (write_buffered parse t (record p { err_buf = p.err_buf ++ s }) y)
      ∙ sym (ap (write parse t) (write_buffered parse s p y))
  | inr n ↦
      let q = split_lines (p.carry ++ s) in
      let p1 : Pipe = record p { carry = q.1; writer = process_lines parse q.0 p.writer } in
      let cut : split_lines (p.carry ++ (s ++ t)) ≡ joined q t =
        ap split_lines (sym (str_append_assoc p.carry s t)) ∙ split_lines-append (p.carry ++ s) t in
      let again = still_streams parse q.0 p n in
      write_streamed parse (s ++ t) p n
      ∙ ap
          (λ (r : List Str × Str). record p {
            carry = r.1;
            writer = process_lines parse r.0 p.writer;
          })
          cut
      ∙ ap (λ w. record p { carry = (split_lines (q.1 ++ t)).1; writer = w })
          (process_lines-append parse q.0 (split_lines (q.1 ++ t)).0 p.writer)
      ∙ sym (write_streamed parse t p1 again)
      ∙ sym (ap (write parse t) (write_streamed parse s p n))
]
