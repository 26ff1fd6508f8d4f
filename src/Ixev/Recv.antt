-- ===== src/Ixev/Recv.antt =====
-- libix/ixev.c: `ixev_tcp_recv`, `ixev_recv` and `ixev_recv_zc` over the stream of unread bytes.
use ix.Base.{
  ℕ, suc, ◌+◌, ◌%◌, ◌^◌, ◌≤◌, ◌<◌, ◌≡◌, inl, inr, refl, sym, ap, ◌∙◌, false, none, some, List, [],
  ◌∷◌, ◌++◌, arith, leb, if◌then◌else◌, length, Bool-cases, add64, if_false,
}
use mathlib.Core.Path.{subst}
use ix.Ixev.{
  IxevCtx, SgEntry, State, put, bytes, raise, ixevin, ixev_tcp_recv, has_event, ixev_recv,
  recv_finish, RecvResult, failed, received, eagain, unread_count,
}
use ix.Ixev.Ring.{unread, IsRing, unread-put, put_self, unread-last}
use ix.Ixev.Loop.{loop_lem}
use ix.Ixev.Credit.{credit, credit_small, HasDesc, HasRoom, ixev_recv_done-IsDone}

-- the bytes that wait for the application
abbrev pub stream : (ℕ → ℕ) → ℕ → IxevCtx → List ℕ
stream mem n ctx = unread mem ctx.recv ctx.recv_head n

pub same_stream :
    (mem : ℕ → ℕ) (n : ℕ) (a b : IxevCtx)
    → b.recv ≡ a.recv
    → b.recv_head ≡ a.recv_head
    → stream mem n b ≡ stream mem n a
same_stream mem n a b r h = rw (r, h) refl

raise-same :
    (event : ℕ) (ctx : IxevCtx)
    → raise event ctx
      ≡ record ctx { handled = (raise event ctx).handled; trig_mask = (raise event ctx).trig_mask }
unfolding raise
raise-same event ctx = elim (Bool-cases (has_event ctx.en_mask event)) [
  | inl e ↦ rw e refl
  | inr e ↦ rw e refl
]

abbrev with_ent : ℕ → ℕ → IxevCtx → IxevCtx
with_ent addr len ctx = record ctx {
  recv = put ctx.recv (ctx.recv_tail % 128) (record { base = addr; len = len });
  recv_tail = (ctx.recv_tail + 1) % 2 ^ 16;
}

unread-push :
    (mem : ℕ → ℕ) (ctx : IxevCtx) (n addr len : ℕ)
    → n ≤ 127
    → IsRing n ctx
    → unread mem (with_ent addr len ctx).recv ctx.recv_head (suc n)
      ≡ unread mem ctx.recv ctx.recv_head n ++ bytes mem addr len
unread-push mem ctx n addr len small ring =
    let ent : SgEntry = record { base = addr; len = len } in
    let at : (ctx.recv_head + n) % 128 ≡ ctx.recv_tail % 128 = rw ring.tail (omega arith) in
    let old : unread mem (put ctx.recv (ctx.recv_tail % 128) ent) ctx.recv_head n
        ≡ unread mem ctx.recv ctx.recv_head n =
      unread-put mem ctx.recv ctx.recv_head n (ctx.recv_tail % 128) ent
        (λ k below e. omega (arith, e, at)) in
    unread-last mem (put ctx.recv (ctx.recv_tail % 128) ent) ctx.recv_head n
    ∙ (rw (at, old, put_self ctx.recv (ctx.recv_tail % 128) ent) refl)

-- What a packet of `len` bytes at `addr` does to a ring of `n` entries.
pub record Arrives (mem : ℕ → ℕ) (addr len n : ℕ) (a b : IxevCtx) : Type 0 where
  pub ring : IsRing (suc n) b
  pub appended : stream mem (suc n) b ≡ stream mem n a ++ bytes mem addr len
  pub same : b ≡ record a {
    recv = b.recv;
    recv_tail = b.recv_tail;
    handled = b.handled;
    trig_mask = b.trig_mask;
  }

pub ixev_tcp_recv-Arrives :
    (mem : ℕ → ℕ) (addr len n : ℕ) (ctx : IxevCtx)
    → IsRing n ctx
    → n < 127
    → (ctx' : IxevCtx) × (ixev_tcp_recv addr len ctx ≡ some ctx') × Arrives mem addr len n ctx ctx'
unfolding ixev_tcp_recv
ixev_tcp_recv-Arrives mem addr len n ctx ring room =
    let free : leb (ctx.recv_head + 128) (ctx.recv_tail + 1) ≡ false = ground (arith, ring.tail) in
    let same = raise-same ixevin (with_ent addr len ctx) in
    let h = ap (λ c. c.recv_head) same in
    let t = ap (λ c. c.recv_tail) same in
    let r = ap (λ c. c.recv) same in
    (
      raise ixevin (with_ent addr len ctx),
      rw free refl,
      record {
        ring = record {
          few = omega arith;
          small = rw h ring.small;
          tail = t ∙ (rw (h, ring.tail) (omega arith));
        };
        appended =
            same_stream mem (suc n) (with_ent addr len ctx) (raise ixevin (with_ent addr len ctx)) r
              h
            ∙ unread-push mem ctx n addr len (omega arith) ring;
        same =
            same
            ∙ sym (
                ap
                  (λ c. record ctx {
                    recv = c.recv;
                    recv_tail = c.recv_tail;
                    handled = c.handled;
                    trig_mask = c.trig_mask;
                  })
                  same);
      },
    )

-- If 127 packets or more are unread, and the index of the tail has not passed its last value while
-- that of the head has not, the program exits when a packet arrives.
pub ixev_tcp_recv-full :
    (addr len n : ℕ) (ctx : IxevCtx)
    → IsRing n ctx
    → 127 ≤ n
    → ctx.recv_head + n < 2 ^ 16
    → ixev_tcp_recv addr len ctx ≡ none
unfolding ixev_tcp_recv
ixev_tcp_recv-full addr len n ctx ring many below = rw ring.tail (ground arith)

abbrev pub result_of : List ℕ → RecvResult
result_of [] = failed eagain
result_of (b ∷ bs) = received (b ∷ bs)

-- `left` bytes, or all of them where there are fewer
abbrev pub at_most : ℕ → List ℕ → ℕ
at_most left bs = if leb left (length bs) then left else length bs

-- What a read of `got` out of `n` entries leaves.
pub record Reads (mem : ℕ → ℕ) (n : ℕ) (s : State) (got : List ℕ) (t : State) : Type 0 where
  pub count : ℕ
  pub ring : IsRing count t.0
  pub fewer : count ≤ n
  pub bytes_left : got ++ stream mem count t.0 ≡ stream mem n s.0
  pub given : credit s.0.handle t.1.descs ≡ add64 (credit s.0.handle s.1.descs) (length got)
  pub desc : HasDesc t
  pub same_handle : t.0.handle ≡ s.0.handle
  pub alive : t.0.is_dead ≡ s.0.is_dead
  pub one_more : length t.1.descs ≤ length s.1.descs + 1
  pub same_max : t.1.max_len ≡ s.1.max_len

pub IsRing-same :
    (n : ℕ) (a b : IxevCtx)
    → b.recv_head ≡ a.recv_head
    → b.recv_tail ≡ a.recv_tail
    → IsRing n a
    → IsRing n b
IsRing-same n a b h t ring = record {
  few = ring.few;
  small = rw h ring.small;
  tail = rw (h, t) ring.tail;
}

finish_lem :
    (mem : ℕ → ℕ) (n n' : ℕ) (s : State) (ctx : IxevCtx) (got : List ℕ)
    → ctx ≡ record s.0 { recv = ctx.recv; recv_head = ctx.recv_head }
    → IsRing n' ctx
    → n' ≤ n
    → got ++ stream mem n' ctx ≡ stream mem n s.0
    → HasDesc s
    → HasRoom s
    → (t : State) × (recv_finish got (ctx, s.1) ≡ some (result_of got, t)) × Reads mem n s got t
unfolding recv_finish
finish_lem mem n n' s ctx [] same ring fewer e has room =
    let has' : HasDesc (ctx, s.1) = rw same has in
    let given : credit s.0.handle s.1.descs ≡ add64 (credit s.0.handle s.1.descs) 0 =
      sym (credit_small s.0.handle s.1.descs) in
    (
      (ctx, s.1),
      refl,
      record {
        count = n';
        ring = ring;
        fewer = fewer;
        bytes_left = e;
        given = given;
        desc = has';
        same_handle = rw same refl;
        alive = rw same refl;
        one_more = omega arith;
        same_max = refl;
      },
    )
finish_lem mem n n' s ctx (b ∷ bs) same ring fewer e has room =
    let has' : HasDesc (ctx, s.1) = rw same has in
    let (t, done, is) = ixev_recv_done-IsDone (length (b ∷ bs)) (ctx, s.1) has' room in
    (
      t,
      rw done refl,
      record {
        count = n';
        ring = IsRing-same n' ctx t.0 is.same_head is.same_tail ring;
        fewer = fewer;
        bytes_left = rw (is.same_head, is.same_recv) e;
        given =
            subst (λ h. credit h t.1.descs ≡ add64 (credit h s.1.descs) (length (b ∷ bs)))
              (ap (λ c. c.handle) same) is.given;
        desc = is.desc;
        same_handle = is.same_handle ∙ (rw same refl);
        alive = is.alive ∙ (rw same refl);
        one_more = is.one_more;
        same_max = is.same_max;
      },
    )

unread_count_of : (n : ℕ) (ctx : IxevCtx) → IsRing n ctx → unread_count ctx ≡ n
unread_count_of n ctx ring = rw ring.tail (omega (arith, ring.few, ring.small))

-- `ixev_recv` on a live connection, with room for one more system call in the batch, copies the
-- bytes that wait, in their order: as many as there is room for in the buffer, or all. It reports
-- them, or that there were none, leaves the rest waiting, and gives as many bytes back to the
-- kernel as it copied.
pub ixev_recv_lem :
    (mem : ℕ → ℕ) (len n : ℕ) (s : State)
    → s.0.is_dead ≡ false
    → IsRing n s.0
    → HasDesc s
    → HasRoom s
    → (got : List ℕ) × (t : State) × (ixev_recv mem len s ≡ some (result_of got, t))
      × Reads mem n s got t
      × (length got ≡ at_most len (stream mem n s.0))
unfolding ixev_recv
ixev_recv_lem mem len n s live ring has room =
    let enough : n < suc (unread_count s.0) = omega (arith, unread_count_of n s.0 ring) in
    let (r, done, is) = loop_lem mem (suc (unread_count s.0)) len n s.0 enough ring in
    let (t, finished, reads) =
      finish_lem mem n is.count s r.1 r.0 is.same is.ring is.fewer is.stream has room in
    (r.0, t, if_false _ _ live ∙ rw done finished, reads, is.full)

-- Where the index of the tail has passed its last value and that of the head has not, the guard of
-- `ixev_tcp_recv` never fires: with 128 packets unread, the new packet takes the place of the
-- oldest, which is lost.
pub ixev_tcp_recv-overwrites :
    (addr len : ℕ) (ctx : IxevCtx)
    → IsRing 128 ctx
    → 2 ^ 16 ≤ ctx.recv_head + 128
    → (ctx' : IxevCtx) × (ixev_tcp_recv addr len ctx ≡ some ctx')
      × (ctx'.recv (ctx.recv_head % 128) ≡ record { base = addr; len = len })
      × (ctx'.recv_head ≡ ctx.recv_head)
unfolding ixev_tcp_recv
ixev_tcp_recv-overwrites addr len ctx ring wrapped =
    let free : leb (ctx.recv_head + 128) (ctx.recv_tail + 1) ≡ false =
      rw ring.tail (ground (arith, ring.small)) in
    let at : ctx.recv_tail % 128 ≡ ctx.recv_head % 128 = rw ring.tail (omega arith) in
    let same = raise-same ixevin (with_ent addr len ctx) in
    (
      raise ixevin (with_ent addr len ctx),
      rw free refl,
      ap (λ c. c.recv (ctx.recv_head % 128)) same
          ∙ (rw at (put_self ctx.recv (ctx.recv_head % 128) (record { base = addr; len = len }))),
      ap (λ c. c.recv_head) same,
    )
