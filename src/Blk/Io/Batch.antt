-- ===== src/Blk/Io/Batch.antt =====
-- `bsys_io_write_flush`: where it puts the entries of a batch, and where it writes them.
use ix.Base.{
  ℕ, ◌+◌, ◌*◌, ◌^◌, ◌≤◌, ◌<◌, ◌≡◌, ◌≢◌, refl, false, none, some, List, [], ◌∷◌, ◌++◌, arith, ◌==◌,
  length, length-append, concat, add32, Option-cases, some_inj, not_some, inl, inr, ap, ◌∙◌,
}
use mathlib.Core.List.{append_assoc}
use mathlib.Core.Path.{subst}
use ix.Blk.{lba_size, storage_size, max_key_len}
use ix.Blk.Device.{poke, dummy_dev_writev}
use ix.Blk.Device.Copy.{dummy_dev_writev-too_long, dummy_dev_writev-eq_some}
use ix.Blk.Io.{
  Write, Io, sg_of, sg_list, write_blks, at_lba, assign, assign_rest, take_blks,
  bsys_io_write_flush,
}
use ix.Blk.Io.Sizes.{extra_block, length-sg_of}

-- A batch is placed from block `lba` on: each entry right behind the blocks of the one before.
abbrev IsPlacedFrom : ℕ → List Write → Type 0
IsPlacedFrom lba [] = Unit
IsPlacedFrom lba (w ∷ ws) = (w.ent.lba ≡ lba) × IsPlacedFrom (lba + write_blks w) ws

abbrev blks_of : List Write → ℕ
blks_of [] = 0
blks_of (w ∷ ws) = write_blks w + blks_of ws

abbrev last_lba : List Write → ℕ
last_lba [] = 0
last_lba (w ∷ []) = w.ent.lba
last_lba (w ∷ w' ∷ ws) = last_lba (w' ∷ ws)

assign_rest-IsPlacedFrom :
    (lba : ℕ) (prev : Write) (ws : List Write)
    → lba + write_blks prev + blks_of ws < 2 ^ 32
    → IsPlacedFrom (lba + write_blks prev) (assign_rest lba prev ws).0
unfolding assign_rest
assign_rest-IsPlacedFrom lba prev [] small = tt
assign_rest-IsPlacedFrom lba prev (w ∷ ws) small =
    let next : add32 lba (write_blks prev) ≡ lba + write_blks prev = omega arith in
    rw next (refl, assign_rest-IsPlacedFrom (lba + write_blks prev) w ws (omega arith))

-- The entries of a batch lie one behind the other from the first block that was taken.
assign-IsPlacedFrom :
    (lba : ℕ) (ws : List Write) → lba + blks_of ws < 2 ^ 32 → IsPlacedFrom lba (assign lba ws).0
unfolding assign
assign-IsPlacedFrom lba [] small = tt
assign-IsPlacedFrom lba (w ∷ ws) small = (refl, assign_rest-IsPlacedFrom lba w ws (omega arith))

assign_rest-last_lba :
    (lba : ℕ) (prev : Write) (ws : List Write)
    → (assign_rest lba prev ws).1 ≡ last_lba (at_lba prev lba ∷ (assign_rest lba prev ws).0)
unfolding assign_rest
assign_rest-last_lba lba prev [] = refl
assign_rest-last_lba lba prev (w ∷ ws) = assign_rest-last_lba (add32 lba (write_blks prev)) w ws

-- The loop leaves `startlba` at the block of the last entry.
assign-last_lba :
    (lba : ℕ) (ws : List Write) → ws ≢ [] → (assign lba ws).1 ≡ last_lba (assign lba ws).0
unfolding assign
assign-last_lba lba [] full = absurd (full refl)
assign-last_lba lba (w ∷ ws) full = assign_rest-last_lba lba w ws

-- What `bsys_io_write` puts into a batch.
abbrev AllMade : List Write → Type 0
AllMade [] = Unit
AllMade (w ∷ ws) =
    (length w.ent.key ≤ max_key_len)
    × (w.ent.val_len ≡ length w.val)
    × (length w.val ≤ storage_size)
    × AllMade ws

-- the writes whose padding is a block too long
abbrev extras : List Write → ℕ
extras [] = 0
extras (w ∷ ws) = extra_block (length w.val) + extras ws

concat-append : (xss yss : List (List ℕ)) → concat (xss ++ yss) ≡ concat xss ++ concat yss
concat-append [] yss = refl
concat-append (xs ∷ xss) yss = simp (concat-append xss yss, append_assoc)

length-sg_list :
    (ws : List Write)
    → AllMade ws
    → length (concat (sg_list ws)) ≡ (blks_of ws + extras ws) * lba_size
unfolding sg_list
length-sg_list [] made = refl
length-sg_list (w ∷ ws) (fits, same, small, made) = omega (
  arith,
  ap length (concat-append (sg_of w) (sg_list ws)),
  length-append (concat (sg_of w)) (concat (sg_list ws)),
  length-sg_of w fits same small,
  length-sg_list ws made,
)

-- Placing a batch changes no size.
record SameSizes (ws ws' : List Write) : Type 0 where
  made : AllMade ws'
  blks : blks_of ws' ≡ blks_of ws
  more : extras ws' ≡ extras ws

assign_rest-SameSizes :
    (lba : ℕ) (prev : Write) (ws : List Write)
    → AllMade ws
    → SameSizes ws (assign_rest lba prev ws).0
unfolding assign_rest
assign_rest-SameSizes lba prev [] made = record { made = tt; blks = refl; more = refl }
assign_rest-SameSizes lba prev (w ∷ ws) (a, b, c, made) =
    let rest = assign_rest-SameSizes (add32 lba (write_blks prev)) w ws made in
    record {
      made = (a, b, c, rest.made);
      blks = omega (arith, rest.blks);
      more = omega (arith, rest.more);
    }

assign-SameSizes : (lba : ℕ) (ws : List Write) → AllMade ws → SameSizes ws (assign lba ws).0
unfolding assign
assign-SameSizes lba [] made = record { made = tt; blks = refl; more = refl }
assign-SameSizes lba (w ∷ ws) (a, b, c, made) =
    let rest = assign_rest-SameSizes lba w ws made in
    record {
      made = (a, b, c, rest.made);
      blks = omega (arith, rest.blks);
      more = omega (arith, rest.more);
    }

-- A flush of a batch in which some value ends with a block behind its first one always fails: the
-- padding of that value is a whole block too long, and the assertion of `dummy_dev_writev` fails.
pub bsys_io_write_flush-too_long :
    (io : Io)
    → AllMade io.batch
    → io.numblks ≡ blks_of io.batch
    → io.numblks ≢ 0
    → 0 < extras io.batch
    → bsys_io_write_flush io ≡ none
unfolding bsys_io_write_flush
bsys_io_write_flush-too_long io made count busy bad =
    let (lba, l) = take_blks io.numblks io.store.freelist in
    let placed = assign lba io.batch in
    let sizes = assign-SameSizes lba io.batch made in
    let test : (io.numblks == 0) ≡ false = ground arith in
    rw (
      test,
      dummy_dev_writev-too_long placed.1 io.numblks (sg_list placed.0) io.dev
          (omega (arith, length-sg_list placed.0 sizes.made, sizes.blks, sizes.more)),
    )

abbrev pub AtLast : Io → ℕ → Io → Type 0
AtLast io lba io' =
    IsPlacedFrom lba io'.batch
    × (io'.dev ≡ poke io.dev (last_lba io'.batch * lba_size) (concat (sg_list io'.batch)))

-- A flush that ends has placed the entries one behind the other from the first block it took, and
-- has copied the bytes of all of them, in order, to where the LAST entry was placed.
pub bsys_io_write_flush-AtLast :
    (io io' : Io)
    → io.numblks ≢ 0
    → io.batch ≢ []
    → (take_blks io.numblks io.store.freelist).0 + blks_of io.batch < 2 ^ 32
    → bsys_io_write_flush io ≡ some io'
    → AtLast io (take_blks io.numblks io.store.freelist).0 io'
unfolding bsys_io_write_flush
bsys_io_write_flush-AtLast io io' busy full small done =
    let (lba, l) = take_blks io.numblks io.store.freelist in
    let placed = assign lba io.batch in
    let test : (io.numblks == 0) ≡ false = ground arith in
    elim (Option-cases (dummy_dev_writev (sg_list placed.0) placed.1 io.numblks io.dev)) [
      | inl fault ↦ not_some (rw (test, fault) at done)
      | inr (dev, wrote) ↦ subst (AtLast io lba) (some_inj (rw (test, wrote) at done)) (
        assign-IsPlacedFrom lba io.batch small,
        dummy_dev_writev-eq_some placed.1 io.numblks (sg_list placed.0) io.dev dev wrote
            ∙ ap (λ at. poke io.dev (at * lba_size) (concat (sg_list placed.0)))
                (assign-last_lba lba io.batch full),
      )
    ]
