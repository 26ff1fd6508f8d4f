-- ===== src/Ixev/ZeroCopy.antt =====
-- libix/ixev.c: `ixev_recv_zc`.
use ix.Base.{
  ℕ, suc, ◌+◌, ◌-◌, ◌%◌, ◌^◌, ◌≤◌, ◌≡◌, inl, inr, refl, sym, ap, ◌∙◌, true, false, some, ◌++◌,
  arith, ltb, ◌==◌, Bool-cases, eq_of_==, if_false,
}
use ix.Ixev.{IxevCtx, State, bytes, ixev_recv_done, ixev_recv_zc, take_zc, unread_count}
use ix.Ixev.Ring.{IsRing, length-bytes, put_self}
use ix.Ixev.Credit.{HasDesc, HasRoom, ixev_recv_done-IsDone}
use ix.Ixev.Loop.{head_ent, part_ctx, unread-next, part-stream}
use ix.Ixev.Recv.{Reads, IsRing-same, stream, same_stream}

whole-IsRing :
    (len n : ℕ) (ctx : IxevCtx)
    → IsRing (suc n) ctx
    → ((head_ent ctx).len == len) ≡ true
    → IsRing n (take_zc len (head_ent ctx) ctx)
unfolding take_zc
whole-IsRing len n ctx ring whole = rw whole (record {
  few = omega (arith, ring.few);
  small = omega arith;
  tail = ring.tail ∙ (omega arith);
})

part-IsRing :
    (len n : ℕ) (ctx : IxevCtx)
    → IsRing (suc n) ctx
    → ((head_ent ctx).len == len) ≡ false
    → IsRing (suc n) (take_zc len (head_ent ctx) ctx)
unfolding take_zc
part-IsRing len n ctx ring part =
    rw part (record { few = ring.few; small = ring.small; tail = ring.tail })

rest-stream :
    (mem : ℕ → ℕ) (len n : ℕ) (ctx : IxevCtx)
    → len ≤ (head_ent ctx).len
    → IsRing (suc n) ctx
    → ((head_ent ctx).len == len) ≡ false
    → bytes mem (head_ent ctx).base len ++ stream mem (suc n) (take_zc len (head_ent ctx) ctx)
      ≡ stream mem (suc n) ctx
unfolding take_zc
rest-stream mem len n ctx fits ring part = rw part (part-stream mem len n ctx fits ring)

whole-stream :
    (mem : ℕ → ℕ) (len n : ℕ) (ctx : IxevCtx)
    → IsRing (suc n) ctx
    → ((head_ent ctx).len == len) ≡ true
    → bytes mem (head_ent ctx).base len ++ stream mem n (take_zc len (head_ent ctx) ctx)
      ≡ stream mem (suc n) ctx
unfolding take_zc bytes
whole-stream mem len n ctx ring whole =
    let same : (head_ent ctx).len ≡ len = eq_of_== (head_ent ctx).len len whole in
    let none_left : len - len ≡ 0 = omega arith in
    let head : head_ent (part_ctx len ctx)
        ≡ record { base = (head_ent ctx).base + len; len = (head_ent ctx).len - len } =
      put_self ctx.recv (ctx.recv_head % 128) _ in
    let skip : stream mem n (take_zc len (head_ent ctx) ctx)
        ≡ stream mem (suc n) (part_ctx len ctx) =
      rw whole (sym (unread-next mem n (part_ctx len ctx) ∙ (rw (head, same, none_left) refl))) in
    ap (λ l. bytes mem (head_ent ctx).base len ++ l) skip
    ∙ part-stream mem len n ctx (omega (arith, same)) ring

zc_done :
    (mem : ℕ → ℕ) (len n n' : ℕ) (s : State)
    → n' ≤ n
    → IsRing n' (take_zc len (head_ent s.0) s.0)
    → bytes mem (head_ent s.0).base len ++ stream mem n' (take_zc len (head_ent s.0) s.0)
      ≡ stream mem n s.0
    → HasDesc s
    → HasRoom s
    → (t : State) × (ixev_recv_done len (take_zc len (head_ent s.0) s.0, s.1) ≡ some t)
      × Reads mem n s (bytes mem (head_ent s.0).base len) t
unfolding take_zc
zc_done mem len n n' s fewer ring e has room =
    let ctx = take_zc len (head_ent s.0) s.0 in
    let (t, done, is) = ixev_recv_done-IsDone len (ctx, s.1) has room in
    (
      t,
      done,
      record {
        count = n';
        ring = IsRing-same n' ctx t.0 is.same_head is.same_tail ring;
        fewer = fewer;
        bytes_left =
            ap (λ l. bytes mem (head_ent s.0).base len ++ l)
              (same_stream mem n' ctx t.0 is.same_recv is.same_head)
            ∙ e;
        given = rw (length-bytes mem (head_ent s.0).base len) is.given;
        desc = is.desc;
        same_handle = is.same_handle;
        alive = is.alive;
        one_more = is.one_more;
        same_max = is.same_max;
      },
    )

-- Where a packet is unread and the oldest has `len` bytes left or more, `ixev_recv_zc` on a live
-- connection, with room for one more system call in the batch, returns the address of the next
-- `len` bytes that wait, takes them off those that wait, and gives them back to the kernel.
pub ixev_recv_zc_lem :
    (mem : ℕ → ℕ) (len n : ℕ) (s : State)
    → s.0.is_dead ≡ false
    → IsRing (suc n) s.0
    → len ≤ (s.0.recv (s.0.recv_head % 128)).len
    → HasDesc s
    → HasRoom s
    → (t : State) × (ixev_recv_zc len s ≡ some (some (s.0.recv (s.0.recv_head % 128)).base, t))
      × Reads mem (suc n) s (bytes mem (s.0.recv (s.0.recv_head % 128)).base len) t
unfolding ixev_recv_zc take_zc
ixev_recv_zc_lem mem len n s live ring fits has room =
    let ok : ltb (head_ent s.0).len len ≡ false = ground arith in
    elim (Bool-cases ((head_ent s.0).len == len)) [
      | inl whole ↦
          let (t, done, reads) =
            zc_done mem len (suc n) n s (omega arith) (whole-IsRing len n s.0 ring whole)
              (whole-stream mem len n s.0 ring whole) has room in
          (t, if_false _ _ live ∙ if_false _ _ ok ∙ rw done refl, reads)
      | inr part ↦
          let (t, done, reads) =
            zc_done mem len (suc n) (suc n) s (omega arith) (part-IsRing len n s.0 ring part)
              (rest-stream mem len n s.0 fits ring part) has room in
          (t, if_false _ _ live ∙ if_false _ _ ok ∙ rw done refl, reads)
    ]

-- On a live connection with no packet unread, `ixev_recv_zc` for as many bytes as the slot at the
-- head still records returns the address in that slot, as if its packet were unread, and moves the
-- head past the tail: 65535 packets then count as unread. There is room for the system call.
pub ixev_recv_zc-stale :
    (len : ℕ) (s : State)
    → s.0.is_dead ≡ false
    → IsRing 0 s.0
    → (s.0.recv (s.0.recv_head % 128)).len ≡ len
    → HasDesc s
    → HasRoom s
    → (t : State) × (ixev_recv_zc len s ≡ some (some (s.0.recv (s.0.recv_head % 128)).base, t))
      × (unread_count t.0 ≡ 65535)
unfolding ixev_recv_zc take_zc
ixev_recv_zc-stale len s live ring stale has room =
    let ok : ltb (head_ent s.0).len len ≡ false = ground arith in
    let whole : ((head_ent s.0).len == len) ≡ true = ground arith in
    let (t, done, is) = ixev_recv_done-IsDone len (take_zc len (head_ent s.0) s.0, s.1) has room in
    let moved : t.0.recv_head ≡ (s.0.recv_head + 1) % 2 ^ 16 = is.same_head ∙ (rw whole refl) in
    (
      t,
      if_false _ _ live ∙ if_false _ _ ok ∙ rw done refl,
      rw (is.same_tail, moved, ring.tail) (omega (arith, ring.small)),
    )
