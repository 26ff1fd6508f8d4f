-- ===== src/Ixev/Loop.antt =====
-- libix/ixev.c: the loop of `ixev_recv`.
use ix.Base.{
  ℕ, zero, suc, ◌+◌, ◌-◌, ◌%◌, ◌^◌, ◌≤◌, ◌<◌, ◌≡◌, ◌⊎◌, inl, inr, refl, sym, ap, ◌∙◌, true, false,
  some, List, [], ◌++◌, arith, leb, ◌==◌, if◌then◌else◌, length, length-append, Bool-cases,
}
use mathlib.Core.List.{append_assoc}
use ix.Ixev.{IxevCtx, SgEntry, put, bytes, recv_loop}
use ix.Ixev.Ring.{unread, IsRing, length-bytes, bytes_split, unread_cong, unread-put, put_self}

-- What the loop of `ixev_recv` comes to, from a ring of `n` entries.
pub record IsRead (mem : ℕ → ℕ) (left n : ℕ) (ctx : IxevCtx) (r : List ℕ × IxevCtx) : Type 0 where
  pub count : ℕ
  pub ring : IsRing count r.1
  pub fewer : count ≤ n
  pub same : r.1 ≡ record ctx { recv = r.1.recv; recv_head = r.1.recv_head }
  pub stream : r.0 ++ unread mem r.1.recv r.1.recv_head count ≡ unread mem ctx.recv ctx.recv_head n
  pub full : length r.0 ≡ (
      if leb left (length (unread mem ctx.recv ctx.recv_head n))
      then left
      else length (unread mem ctx.recv ctx.recv_head n))

not_empty : (n h : ℕ) → n < 128 → h < 2 ^ 16 → (h == (h + suc n) % 2 ^ 16) ≡ false
not_empty n h small small' = ground arith

abbrev pub head_ent : IxevCtx → SgEntry
head_ent ctx = ctx.recv (ctx.recv_head % 128)

abbrev pub next_ctx : IxevCtx → IxevCtx
next_ctx ctx = record ctx { recv_head = (ctx.recv_head + 1) % 2 ^ 16 }

abbrev pub part_ctx : ℕ → IxevCtx → IxevCtx
part_ctx left ctx = record ctx {
  recv =
      put ctx.recv (ctx.recv_head % 128)
        (record { base = (head_ent ctx).base + left; len = (head_ent ctx).len - left });
}

pub unread-next :
    (mem : ℕ → ℕ) (n : ℕ) (ctx : IxevCtx)
    → unread mem ctx.recv ctx.recv_head (suc n)
      ≡ bytes mem (head_ent ctx).base (head_ent ctx).len
        ++ unread mem ctx.recv ((ctx.recv_head + 1) % 2 ^ 16) n
unread-next mem n ctx =
    rw (unread_cong mem ctx.recv ((ctx.recv_head + 1) % 2 ^ 16) (ctx.recv_head + 1) n (omega arith))
      refl

pub next-IsRing : (n : ℕ) (ctx : IxevCtx) → IsRing (suc n) ctx → IsRing n (next_ctx ctx)
next-IsRing n ctx ring = record {
  few = omega (arith, ring.few);
  small = omega arith;
  tail = ring.tail ∙ (omega arith);
}

-- an entry that there is room for
whole-IsRead :
    (mem : ℕ → ℕ) (left n : ℕ) (ctx : IxevCtx) (r : List ℕ × IxevCtx)
    → (head_ent ctx).len ≤ left
    → IsRead mem (left - (head_ent ctx).len) n (next_ctx ctx) r
    → IsRead mem left (suc n) ctx (bytes mem (head_ent ctx).base (head_ent ctx).len ++ r.0, r.1)
whole-IsRead mem left n ctx r room later = record {
  count = later.count;
  ring = later.ring;
  fewer = omega (arith, later.fewer);
  same = later.same;
  stream =
      (append_assoc (bytes mem (head_ent ctx).base (head_ent ctx).len) r.0
        (unread mem r.1.recv r.1.recv_head later.count))
      ∙ ap (λ l. bytes mem (head_ent ctx).base (head_ent ctx).len ++ l) later.stream
      ∙ sym (unread-next mem n ctx);
  full = rw (unread-next mem n ctx) (
      ground (
        arith,
        later.full,
        length-append (bytes mem (head_ent ctx).base (head_ent ctx).len) r.0,
        length-append (bytes mem (head_ent ctx).base (head_ent ctx).len)
            (unread mem ctx.recv ((ctx.recv_head + 1) % 2 ^ 16) n),
        length-bytes mem (head_ent ctx).base (head_ent ctx).len,
      ));
}

pub part-stream :
    (mem : ℕ → ℕ) (left n : ℕ) (ctx : IxevCtx)
    → left ≤ (head_ent ctx).len
    → IsRing (suc n) ctx
    → bytes mem (head_ent ctx).base left
        ++ unread mem (part_ctx left ctx).recv ctx.recv_head (suc n)
      ≡ unread mem ctx.recv ctx.recv_head (suc n)
part-stream mem left n ctx less ring =
    let ent = head_ent ctx in
    let ent' : SgEntry = record { base = ent.base + left; len = ent.len - left } in
    let first : put ctx.recv (ctx.recv_head % 128) ent' (ctx.recv_head % 128) ≡ ent' =
      put_self ctx.recv (ctx.recv_head % 128) ent' in
    let rest : unread mem (put ctx.recv (ctx.recv_head % 128) ent') (ctx.recv_head + 1) n
        ≡ unread mem ctx.recv (ctx.recv_head + 1) n =
      unread-put mem ctx.recv (ctx.recv_head + 1) n (ctx.recv_head % 128) ent'
        (λ k small e. omega (arith, ring.few, e)) in
    let whole : left + (ent.len - left) ≡ ent.len = omega arith in
    rw (first, rest)
      (sym (append_assoc (bytes mem ent.base left) _ _)
        ∙ ap (λ l. l ++ unread mem ctx.recv (ctx.recv_head + 1) n)
            (sym (bytes_split mem ent.base left (ent.len - left)) ∙ ap (bytes mem ent.base) whole))

-- an entry that is read in part
part-IsRead :
    (mem : ℕ → ℕ) (left n : ℕ) (ctx : IxevCtx)
    → left < (head_ent ctx).len
    → IsRing (suc n) ctx
    → IsRead mem left (suc n) ctx (bytes mem (head_ent ctx).base left, part_ctx left ctx)
part-IsRead mem left n ctx less ring = record {
  count = suc n;
  ring = record { few = ring.few; small = ring.small; tail = ring.tail };
  fewer = omega arith;
  same = refl;
  stream = part-stream mem left n ctx (omega arith) ring;
  full = ground (
    arith,
    length-append (bytes mem (head_ent ctx).base (head_ent ctx).len)
        (unread mem ctx.recv (ctx.recv_head + 1) n),
    length-bytes mem (head_ent ctx).base (head_ent ctx).len,
    length-bytes mem (head_ent ctx).base left,
  );
}

none-IsRead :
    (mem : ℕ → ℕ) (left n : ℕ) (ctx : IxevCtx)
    → (left ≡ 0) ⊎ (n ≡ 0)
    → IsRing n ctx
    → IsRead mem left n ctx ([], ctx)
none-IsRead mem left n ctx nothing ring = record {
  count = n;
  ring = ring;
  fewer = omega arith;
  same = refl;
  stream = refl;
  full = elim nothing [ inl e ↦ rw e (ground arith) | inr e ↦ rw e (ground arith) ];
}

pub loop_lem :
    (mem : ℕ → ℕ) (f left n : ℕ) (ctx : IxevCtx)
    → n < f
    → IsRing n ctx
    → (r : List ℕ × IxevCtx) × (recv_loop mem f left ctx ≡ some r) × IsRead mem left n ctx r
unfolding recv_loop
loop_lem mem zero left n ctx fuel ring = absurd (omega arith)
loop_lem mem (suc f) left zero ctx fuel ring =
    let e : (ctx.recv_head == ctx.recv_tail) ≡ true = ground (arith, ring.tail, ring.small) in
    (([], ctx), rw e refl, none-IsRead mem left 0 ctx (inr refl) ring)
loop_lem mem (suc f) zero (suc n) ctx fuel ring =
    let e : (ctx.recv_head == ctx.recv_tail) ≡ false =
      rw ring.tail (not_empty n ctx.recv_head (omega (arith, ring.few)) ring.small) in
    (([], ctx), rw e refl, none-IsRead mem 0 (suc n) ctx (inl refl) ring)
loop_lem mem (suc f) (suc l) (suc n) ctx fuel ring =
    let e : (ctx.recv_head == ctx.recv_tail) ≡ false =
      rw ring.tail (not_empty n ctx.recv_head (omega (arith, ring.few)) ring.small) in
    let some_left : (suc l == 0) ≡ false = ground arith in
    elim (Bool-cases (leb (head_ent ctx).len (suc l))) [
      | inl room ↦
          let (r, done, is) =
            loop_lem mem f (suc l - (head_ent ctx).len) n (next_ctx ctx) (omega arith)
              (next-IsRing n ctx ring) in
          (
            (bytes mem (head_ent ctx).base (head_ent ctx).len ++ r.0, r.1),
            rw (e, some_left, room, done) refl,
            whole-IsRead mem (suc l) n ctx r (ground arith) is,
          )
      | inr less ↦ (
        (bytes mem (head_ent ctx).base (suc l), part_ctx (suc l) ctx),
        rw (e, some_left, less) refl,
        part-IsRead mem (suc l) n ctx (ground arith) ring,
      )
    ]
