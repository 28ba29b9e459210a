-- ===== src/Anthropic/Stream/Blocks.antt =====
-- The list of the tool blocks: their keys, their indices, and which of them are open.
use foxrouters.Anthropic.Stream.{find_tool, set_tool, int_beq, StreamToolBlock}
use foxrouters.Anthropic.Stream.Grammar.{fresh, Status, finished, opened}
use foxrouters.Prelude.{
  Bool-cases, if◌then◌else◌, nat_beq, length, ℕ, suc, ◌+◌, ◌≤◌, ◌≡◌, refl, sym, ap, ◌∙◌, subst, ◌↔◌,
  inl, inr, true, none, some, List, [], ◌∷◌, ◌++◌, arith, false,
}
use foxrouters.Prelude.Int.{ℤ, negsuc, pos}

abbrev pub tool_status : StreamToolBlock → Status
tool_status tb = if tb.started then (if tb.closed then finished else opened) else fresh

abbrev pub status_at : ℕ → List StreamToolBlock → Status
status_at i [] = fresh
status_at i (tb ∷ bs) =
    let rest = status_at i bs in if nat_beq tb.anthropic_idx i then tool_status tb else rest

abbrev pub is_open : Status → ℕ
is_open fresh = 0
is_open opened = 1
is_open finished = 0

abbrev pub open_tools : List StreamToolBlock → ℕ
open_tools [] = 0
open_tools (tb ∷ bs) = is_open (tool_status tb) + open_tools bs

-- The indices count up from `n`.
abbrev pub Numbered : ℕ → List StreamToolBlock → Type 0
Numbered n [] = Unit
Numbered n (tb ∷ bs) = (tb.anthropic_idx ≡ n) × Numbered (n + 1) bs

-- No key twice.
abbrev pub Unique : List StreamToolBlock → Type 0
Unique [] = Unit
Unique (tb ∷ bs) = (find_tool tb.openai_idx bs ≡ none) × Unique bs

pub int_beq_iff : (a b : ℤ) → (int_beq a b ≡ true) ↔ (a ≡ b)
unfolding int_beq
int_beq_iff (pos a) (pos b) = ground arith
int_beq_iff (pos a) (negsuc b) = ground arith
int_beq_iff (negsuc a) (pos b) = ground arith
int_beq_iff (negsuc a) (negsuc b) = ground arith

-- A block that is found, with what stands before and after it.
pub record Found (k : ℤ) (tb : StreamToolBlock) (bs : List StreamToolBlock) : Type 0 where
  pub front : List StreamToolBlock
  pub back : List StreamToolBlock
  pub whole : bs ≡ front ++ (tb ∷ back)
  pub first : find_tool k front ≡ none
  pub key : tb.openai_idx ≡ k

pub find_tool-Found :
    (k : ℤ) (tb : StreamToolBlock) (bs : List StreamToolBlock)
    → find_tool k bs ≡ some tb
    → Found k tb bs
unfolding find_tool
find_tool-Found k tb [] h = absurd (ground arith)
find_tool-Found k tb (b ∷ bs) h = elim (Bool-cases (int_beq b.openai_idx k)) [
  | inl y ↦
      let same : b ≡ tb = ground (arith, y, h) in
      record {
        front = [];
        back = bs;
        whole = ap (λ x. x ∷ bs) same;
        first = refl;
        key =
            ap (λ (x : StreamToolBlock). x.openai_idx) (sym same)
            ∙ (int_beq_iff b.openai_idx k).0 y;
      }
  | inr n ↦
      let f = find_tool-Found k tb bs (ground (arith, n, h)) in
      record {
        front = b ∷ f.front;
        back = f.back;
        whole = ap (λ xs. b ∷ xs) f.whole;
        first = ground (arith, n, f.first);
        key = f.key;
      }
]

pub set_tool-middle :
    (front : List StreamToolBlock) (tb new : StreamToolBlock) (back : List StreamToolBlock)
    → find_tool new.openai_idx front ≡ none
    → tb.openai_idx ≡ new.openai_idx
    → set_tool new (front ++ (tb ∷ back)) ≡ front ++ (new ∷ back)
unfolding set_tool find_tool
set_tool-middle [] tb new back a k = ground (arith, (int_beq_iff tb.openai_idx new.openai_idx).1 k)
set_tool-middle (b ∷ front) tb new back a k =
    elim (Bool-cases (int_beq b.openai_idx new.openai_idx)) [
      | inl y ↦ absurd (ground (arith, y, a))
      | inr n ↦ ground (arith, n, set_tool-middle front tb new back (ground (arith, n, a)) k)
    ]

module _ (tb new : StreamToolBlock) (back : List StreamToolBlock)
    (key : new.openai_idx ≡ tb.openai_idx) (idx : new.anthropic_idx ≡ tb.anthropic_idx) where
  pub find_tool-replace :
      (front : List StreamToolBlock) (k : ℤ)
      → find_tool k (front ++ (tb ∷ back)) ≡ none
      → find_tool k (front ++ (new ∷ back)) ≡ none
  unfolding find_tool
  find_tool-replace [] k h = ground (arith, key)
  find_tool-replace (b ∷ front) k h = ground (arith, find_tool-replace front k)

  pub replace-Unique :
      (front : List StreamToolBlock)
      → Unique (front ++ (tb ∷ back))
      → Unique (front ++ (new ∷ back))
  replace-Unique [] u = (subst (λ k. find_tool k back ≡ none) (sym key) u.0, u.1)
  replace-Unique (b ∷ front) u =
      (find_tool-replace front b.openai_idx u.0, replace-Unique front u.1)

  pub replace-Numbered :
      (front : List StreamToolBlock) (n : ℕ)
      → Numbered n (front ++ (tb ∷ back))
      → Numbered n (front ++ (new ∷ back))
  replace-Numbered [] n h = (idx ∙ h.0, h.1)
  replace-Numbered (b ∷ front) n h = (h.0, replace-Numbered front (n + 1) h.1)

  pub open_tools-replace :
      (front : List StreamToolBlock)
      → open_tools (front ++ (new ∷ back)) + is_open (tool_status tb)
        ≡ open_tools (front ++ (tb ∷ back)) + is_open (tool_status new)
  open_tools-replace [] = omega arith
  open_tools-replace (b ∷ front) = omega (arith, open_tools-replace front)

  pub length-replace :
      (front : List StreamToolBlock)
      → length (front ++ (new ∷ back)) ≡ length (front ++ (tb ∷ back))
  length-replace [] = refl
  length-replace (b ∷ front) = ap suc (length-replace front)

  -- The middle block stands behind `front`, so its index is not one of those.
  pub middle_idx :
      (front : List StreamToolBlock) (n : ℕ)
      → Numbered n (front ++ (tb ∷ back))
      → n ≤ tb.anthropic_idx
  middle_idx [] n h = omega (arith, h.0)
  middle_idx (b ∷ front) n h = omega (arith, middle_idx front (n + 1) h.1)

  pub status_at-replace :
      (front : List StreamToolBlock) (n i : ℕ)
      → Numbered n (front ++ (tb ∷ back))
      → status_at i (front ++ (new ∷ back)) ≡ (
          if nat_beq tb.anthropic_idx i
          then tool_status new
          else status_at i (front ++ (tb ∷ back)))
  status_at-replace [] n i h =
      rw idx
        (elim (Bool-cases (nat_beq tb.anthropic_idx i)) [ inl y ↦ rw y refl | inr y ↦ rw y refl ])
  status_at-replace (b ∷ front) n i h =
      let later = middle_idx front (n + 1) h.1 in
      let rest = status_at-replace front (n + 1) i h.1 in
      elim (Bool-cases (nat_beq b.anthropic_idx i)) [
        | inl y ↦
            let other : nat_beq tb.anthropic_idx i ≡ false = ground (arith, h.0, y) in
            rw (y, other) refl
        | inr y ↦ rw y rest
      ]

pub find_tool-snoc :
    (bs : List StreamToolBlock) (tb : StreamToolBlock) (k : ℤ)
    → find_tool k bs ≡ none
    → find_tool k (bs ++ (tb ∷ [])) ≡ (if int_beq tb.openai_idx k then some tb else none)
unfolding find_tool
find_tool-snoc [] tb k h = refl
find_tool-snoc (b ∷ bs) tb k h = ground (arith, find_tool-snoc bs tb k)

pub snoc-Unique :
    (bs : List StreamToolBlock) (tb : StreamToolBlock)
    → find_tool tb.openai_idx bs ≡ none
    → Unique bs
    → Unique (bs ++ (tb ∷ []))
unfolding find_tool
snoc-Unique [] tb h u = (refl, tt)
snoc-Unique (b ∷ bs) tb h u = (
  ground (
    arith,
    find_tool-snoc bs tb b.openai_idx u.0,
    h,
    int_beq_iff b.openai_idx tb.openai_idx,
    int_beq_iff tb.openai_idx b.openai_idx,
  ),
  snoc-Unique bs tb (ground (arith, h)) u.1,
)

pub snoc-Numbered :
    (bs : List StreamToolBlock) (tb : StreamToolBlock) (n : ℕ)
    → tb.anthropic_idx ≡ n + length bs
    → Numbered n bs
    → Numbered n (bs ++ (tb ∷ []))
snoc-Numbered [] tb n e h = (omega (arith, e), tt)
snoc-Numbered (b ∷ bs) tb n e h = (h.0, snoc-Numbered bs tb (n + 1) (omega (arith, e)) h.1)

-- A block that has not started changes no status and no count.
module _ (tb : StreamToolBlock) (unstarted : tb.started ≡ false) where
  pub status_at-snoc :
      (bs : List StreamToolBlock) (i : ℕ) → status_at i (bs ++ (tb ∷ [])) ≡ status_at i bs
  status_at-snoc [] i = ground (arith, unstarted)
  status_at-snoc (b ∷ bs) i = ground (arith, status_at-snoc bs i)

  pub open_tools-snoc : (bs : List StreamToolBlock) → open_tools (bs ++ (tb ∷ [])) ≡ open_tools bs
  open_tools-snoc [] = ground (arith, unstarted)
  open_tools-snoc (b ∷ bs) = omega (arith, open_tools-snoc bs)

-- The status at the index of a block is that of the block.
pub status_at-middle :
    (tb : StreamToolBlock) (front back : List StreamToolBlock) (n : ℕ)
    → Numbered n (front ++ (tb ∷ back))
    → status_at tb.anthropic_idx (front ++ (tb ∷ back)) ≡ tool_status tb
status_at-middle tb front back n h =
    let again = status_at-replace tb tb back refl refl front n tb.anthropic_idx h in
    ground (arith, again)
