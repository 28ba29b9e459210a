-- ===== src/Anthropic/Captured/Reassembly.antt =====
-- What a captured stream is put together to: the text is the one that the streaming path sends, and
-- the arguments of a tool call are all its deltas.
use foxrouters.Anthropic.Captured.{
  find_acc, scan_message, add_delta, scan_delta, put_acc, scan_choice, CapturedMessage,
  CapturedChoice, scan_deltas, Scan, new_scan, ToolAcc,
}
use foxrouters.Anthropic.Stream.{int_beq, new_stream_writer}
use foxrouters.Anthropic.Stream.Chunks.{ToolDelta, finalize, Chunk}
use foxrouters.Anthropic.Stream.Texts.{contents, text_of, str_append_assoc, str_append-nil}
use foxrouters.Anthropic.Stream.Delivery.{streamed_text}
use foxrouters.Anthropic.Stream.Contents.{on_chunks}
use foxrouters.Anthropic.Stream.Blocks.{int_beq_iff}
use foxrouters.Prelude.{
  if◌then◌else◌, Bool-cases, All, str_eq, Str, str_iff, ◌≡◌, refl, sym, ap, ◌∙◌, inl, inr, Bool,
  true, false, Option, none, some, List, [], ◌∷◌, ◌++◌, map, arith,
}
use foxrouters.Prelude.Int.{ℤ}

abbrev pub scan_choices : List CapturedChoice → Scan → Scan
scan_choices [] s = s
scan_choices (ch ∷ chs) s = scan_choices chs (scan_choice ch s)

-- The same choice for the streaming path, which reads no message.
abbrev pub as_chunk : CapturedChoice → Chunk
as_chunk ch = record {
  choice = some (record {
    content = ch.content;
    tool_calls = ch.tool_calls;
    finish_reason = ch.finish_reason;
  });
  usage = none;
}

abbrev pub Streamed : CapturedChoice → Type 0
Streamed ch = ch.message ≡ none

scan_delta-text :
    (tc : ToolDelta) (o : Option ToolAcc) (s : Scan) → (scan_delta tc o s).text ≡ s.text
unfolding scan_delta
scan_delta-text tc none s = refl
scan_delta-text tc (some acc) s = refl

scan_deltas-text : (tcs : List ToolDelta) (s : Scan) → (scan_deltas tcs s).text ≡ s.text
unfolding scan_deltas
scan_deltas-text [] s = refl
scan_deltas-text (tc ∷ tcs) s =
    scan_deltas-text tcs (scan_delta tc (find_acc tc.index s.tc_map) s)
    ∙ scan_delta-text tc (find_acc tc.index s.tc_map) s

no_message : (m : Option CapturedMessage) (s : Scan) → m ≡ none → scan_message m s ≡ s
unfolding scan_message
no_message none s h = refl
no_message (some m) s h = absurd (cc)

scan_choice-text :
    (ch : CapturedChoice) (s : Scan) → Streamed ch → (scan_choice ch s).text ≡ s.text ++ ch.content
unfolding scan_choice
scan_choice-text ch s h =
    scan_deltas-text ch.tool_calls (
      if str_eq ch.content []
      then scan_message ch.message s
      else record s { text = s.text ++ ch.content })
    ∙ elim (Bool-cases (str_eq ch.content [])) [
      | inl y ↦
          ap
            (λ b.
              (if b
                then scan_message ch.message s
                else record s { text = s.text ++ ch.content }).text)
            y
          ∙ ap (λ (t : Scan). t.text) (no_message ch.message s h)
          ∙ sym (str_append-nil s.text)
          ∙ sym (ap (λ c. s.text ++ c) ((str_iff ch.content []).0 y))
      | inr n ↦
          ap
            (λ b.
              (if b
                then scan_message ch.message s
                else record s { text = s.text ++ ch.content }).text)
            n
    ]

scan_choices-text :
    (chs : List CapturedChoice) (s : Scan)
    → All Streamed chs
    → (scan_choices chs s).text ≡ s.text ++ contents (map as_chunk chs)
scan_choices-text [] s h = sym (str_append-nil s.text)
scan_choices-text (ch ∷ chs) s h =
    scan_choices-text chs (scan_choice ch s) h.1
    ∙ ap (λ t. t ++ contents (map as_chunk chs)) (scan_choice-text ch s h.0)
    ∙ str_append_assoc s.text ch.content (contents (map as_chunk chs))

-- The text that extractFromCapturedBody puts together from the chunks of a stream, none of which has
-- a whole message, is the text that the streaming path sends for the same chunks.
pub captured_text :
    (chs : List CapturedChoice)
    → All Streamed chs
    → (scan_choices chs new_scan).text
      ≡ text_of (finalize (on_chunks (map as_chunk chs) new_stream_writer)).sent
captured_text chs h = scan_choices-text chs new_scan h ∙ sym (streamed_text (map as_chunk chs)).0

-- The arguments that are kept for an index, and those that the deltas of it bring.
abbrev pub acc_args : Option ToolAcc → Str
acc_args none = []
acc_args (some acc) = acc.args

abbrev pub args_at : ℤ → List (ℤ × ToolAcc) → Str
args_at k m = acc_args (find_acc k m)

abbrev pub args_sent : ℤ → List ToolDelta → Str
args_sent k [] = []
args_sent k (tc ∷ tcs) =
    let rest = args_sent k tcs in if int_beq tc.index k then tc.arguments ++ rest else rest

find_acc-put_acc :
    (k k' : ℤ) (new : ToolAcc) (m : List (ℤ × ToolAcc))
    → find_acc k (put_acc k' new m) ≡ (if int_beq k' k then some new else find_acc k m)
unfolding find_acc put_acc
find_acc-put_acc k k' new [] = refl
find_acc-put_acc k k' new ((j, acc) ∷ m) =
    ground (arith, find_acc-put_acc k k' new m, int_beq_iff j k', int_beq_iff j k, int_beq_iff k' k)

either_args :
    (b : Bool) (acc : ToolAcc) (o : Option ToolAcc)
    → acc_args (if b then some acc else o) ≡ (if b then acc.args else acc_args o)
either_args true acc o = refl
either_args false acc o = refl

scan_delta-args :
    (k : ℤ) (tc : ToolDelta) (s : Scan) (o : Option ToolAcc)
    → find_acc tc.index s.tc_map ≡ o
    → args_at k (scan_delta tc o s).tc_map
      ≡ (if int_beq tc.index k then acc_args o ++ tc.arguments else args_at k s.tc_map)
unfolding scan_delta add_delta
scan_delta-args k tc s none h =
    ap acc_args (find_acc-put_acc k tc.index _ s.tc_map)
    ∙ either_args (int_beq tc.index k) _ (find_acc k s.tc_map)
scan_delta-args k tc s (some acc) h =
    ap acc_args (find_acc-put_acc k tc.index _ s.tc_map)
    ∙ either_args (int_beq tc.index k) _ (find_acc k s.tc_map)

-- However the arguments of a tool call are cut into deltas, and whatever deltas of other calls come
-- between them, what is kept for its index is what was kept before and then all of them in order.
pub scan_deltas_args :
    (k : ℤ) (tcs : List ToolDelta) (s : Scan)
    → args_at k (scan_deltas tcs s).tc_map ≡ args_at k s.tc_map ++ args_sent k tcs
unfolding scan_deltas
scan_deltas_args k [] s = sym (str_append-nil (args_at k s.tc_map))
scan_deltas_args k (tc ∷ tcs) s =
    let s' = scan_delta tc (find_acc tc.index s.tc_map) s in
    scan_deltas_args k tcs s'
    ∙ ap (λ t. t ++ args_sent k tcs) (scan_delta-args k tc s (find_acc tc.index s.tc_map) refl)
    ∙ elim (Bool-cases (int_beq tc.index k)) [
      | inl y ↦
          let same : tc.index ≡ k = (int_beq_iff tc.index k).0 y in
          rw y (
            str_append_assoc (args_at tc.index s.tc_map) tc.arguments (args_sent k tcs)
            ∙ ap (λ j. args_at j s.tc_map ++ (tc.arguments ++ args_sent k tcs)) same)
      | inr n ↦ rw n refl
    ]
