-- ===== src/Anthropic/Stream/Sorting.antt =====
-- The sort of finalize leaves the blocks where they are, since they are made in the order of their
-- indices; and each block stands first under its key.
use foxrouters.Anthropic.Stream.{find_tool, int_beq, StreamToolBlock}
use foxrouters.Anthropic.Stream.Blocks.{middle_idx, int_beq_iff, Numbered, Unique}
use foxrouters.Anthropic.Stream.Chunks.{sort_blocks, insert_block}
use foxrouters.Prelude.{
  ℕ, ◌+◌, ◌≡◌, refl, sym, ap, ◌∙◌, subst, false, none, List, [], ◌∷◌, ◌++◌, arith,
}
use foxrouters.Prelude.Int.{ℤ}

pub snoc-append :
    (xs : List StreamToolBlock) (x : StreamToolBlock) (ys : List StreamToolBlock)
    → (xs ++ (x ∷ [])) ++ ys ≡ xs ++ (x ∷ ys)
snoc-append [] x ys = refl
snoc-append (y ∷ xs) x ys = ap (λ zs. y ∷ zs) (snoc-append xs x ys)

append-nil : (xs : List StreamToolBlock) → xs ++ [] ≡ xs
append-nil [] = refl
append-nil (x ∷ xs) = ap (λ zs. x ∷ zs) (append-nil xs)

insert_last :
    (tb : StreamToolBlock) (bs done : List StreamToolBlock) (n : ℕ)
    → Numbered n (done ++ (tb ∷ bs))
    → insert_block tb done ≡ done ++ (tb ∷ [])
unfolding insert_block
insert_last tb bs [] n h = refl
insert_last tb bs (b ∷ done) n h =
    let later = middle_idx tb tb bs refl refl done (n + 1) h.1 in
    ground (arith, h.0, insert_last tb bs done (n + 1) h.1)

sort_onto :
    (bs done : List StreamToolBlock) (n : ℕ)
    → Numbered n (done ++ bs)
    → sort_blocks done bs ≡ done ++ bs
unfolding sort_blocks
sort_onto [] done n h = sym (append-nil done)
sort_onto (tb ∷ bs) done n h =
    ap (λ d. sort_blocks d bs) (insert_last tb bs done n h)
    ∙ sort_onto bs (done ++ (tb ∷ [])) n (subst (Numbered n) (sym (snoc-append done tb bs)) h)
    ∙ snoc-append done tb bs

pub sort_blocks-same : (bs : List StreamToolBlock) (n : ℕ) → Numbered n bs → sort_blocks [] bs ≡ bs
sort_blocks-same bs n h = sort_onto bs [] n h

other_key :
    (k : ℤ) (tb : StreamToolBlock) (front back : List StreamToolBlock)
    → find_tool k (front ++ (tb ∷ back)) ≡ none
    → int_beq tb.openai_idx k ≡ false
unfolding find_tool
other_key k tb [] back h = ground (arith, h)
other_key k tb (b ∷ front) back h = other_key k tb front back (ground (arith, h))

pub absent_before :
    (tb : StreamToolBlock) (front back : List StreamToolBlock)
    → Unique (front ++ (tb ∷ back))
    → find_tool tb.openai_idx front ≡ none
unfolding find_tool
absent_before tb [] back u = refl
absent_before tb (b ∷ front) back u = ground (
  arith,
  absent_before tb front back u.1,
  other_key b.openai_idx tb front back u.0,
  int_beq_iff b.openai_idx tb.openai_idx,
  int_beq_iff tb.openai_idx b.openai_idx,
)
