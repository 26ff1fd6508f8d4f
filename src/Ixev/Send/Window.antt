-- ===== src/Ixev/Send/Window.antt =====
-- libix/ixev.c: the send window, over all that can happen to the send side of a connection.
use ix.Base.{
  ℕ, ◌+◌, ◌-◌, ◌%◌, ◌^◌, ◌≤◌, ◌≡◌, ◌⊎◌, inl, inr, refl, sym, ap, ◌∙◌, false, some, List, [], arith,
  ◌==◌, if◌then◌else◌, length, Bool-cases, add64, if_true, if_false,
}
use mathlib.Core.Path.{subst}
use ix.Ixev.{IxevCtx, IxevBuf, State, eagain}
use ix.Ixev.Send.{
  Sending, Copy, min, ixev_send_depth, ixev_send_win_size, ixev_window_len, SendResult, refused,
  sent, send_hot, send_finish, ixev_send,
}
use ix.Ixev.Send.Pending.{pending_len}
use ix.Ixev.Send.Desc.{IsReady}
use ix.Ixev.Send.Fill.{
  Fills-trans, length-send_hot, send_hot-Fills, send_cold-Fills, copied, ReadsFrom,
}

-- Of the bytes that the application sent and the peer has not acknowledged, `k` are with the
-- kernel and the others in the entries. They fit the window, and the entries fit the array.
pub record IsSend (k : ℕ) (ctx : IxevCtx) : Type 0 where
  pub few : length ctx.send ≤ ixev_send_depth
  pub window : pending_len ctx.send + k ≤ ixev_send_win_size
  pub total : ctx.send_total ≡ add64 ctx.sent_total (pending_len ctx.send + k)

pub window_lem :
    (len k : ℕ) (ctx : IxevCtx)
    → IsSend k ctx
    → ixev_window_len len ctx ≡ min (ixev_send_win_size - (pending_len ctx.send + k)) len
unfolding ixev_window_len
window_lem len k ctx is =
    let left : (ixev_send_win_size + 2 ^ 64 - ctx.send_total + ctx.sent_total) % 2 ^ 64
        ≡ ixev_send_win_size - (pending_len ctx.send + k) =
      omega (arith, is.total, is.window) in
    rw left refl

abbrev pub sent_result : ℕ → SendResult
sent_result n = if n == 0 then refused eagain else sent n

finish_lem :
    (l : Sending) (s : State)
    → send_finish (l, s) ≡ (
      (sent_result l.so_far, l.copies),
      (
        record (s.0) {
          send_total = if l.so_far == 0 then s.0.send_total else add64 s.0.send_total l.so_far;
        },
        s.1,
      ),
    )
unfolding send_finish
finish_lem l s = elim (Bool-cases (l.so_far == 0)) [ inl e ↦ rw e refl | inr e ↦ rw e refl ]

pub IsSend-more :
    (k n : ℕ) (a b : IxevCtx)
    → IsSend k a
    → length b.send ≤ ixev_send_depth
    → pending_len b.send ≡ pending_len a.send + n
    → n ≤ ixev_send_win_size - (pending_len a.send + k)
    → b.send_total ≡ a.send_total
    → b.sent_total ≡ a.sent_total
    → IsSend k (record b { send_total = if n == 0 then b.send_total else add64 b.send_total n })
IsSend-more k n a b is few queued fits total sent_total = record {
  few = few;
  window = omega (arith, is.window);
  total = rw total (ground (arith, is.total));
}

-- What `ixev_send` of `len` bytes comes to, if it takes `n` of them and copies `cs`.
pub record Takes (bufs : List IxevBuf) (addr len k : ℕ) (s : State) (n : ℕ) (cs : List Copy)
    (t : State) : Type 0 where
  pub kept : IsSend k t.0
  pub queued : pending_len t.0.send ≡ pending_len s.0.send + n
  pub copied_all : copied cs ≡ n
  pub in_order : ReadsFrom addr cs
  pub fits : n ≤ min (ixev_send_win_size - (pending_len s.0.send + k)) len
  pub ended :
      (n ≡ min (ixev_send_win_size - (pending_len s.0.send + k)) len)
      ⊎ ((length t.0.send ≡ ixev_send_depth) ⊎ (length t.0.send ≡ length s.0.send + length bufs))
  pub ready : IsReady t

-- `ixev_send` on a live connection takes as many of the `len` bytes as the window has room for: all
-- of those, unless the entries are used up or the pool gives no further buffer. It copies what it
-- takes, from `addr` on, each piece from where the one before it ended, adds it to the bytes to be
-- sent, and reports how many they are, or that it took none. The window and the entries stay in
-- order. There is room for the system call.
pub ixev_send_lem :
    (bufs : List IxevBuf) (addr len k : ℕ) (s : State)
    → s.0.is_dead ≡ false
    → IsSend k s.0
    → IsReady s
    → (n : ℕ) × (cs : List Copy) × (t : State) × (ixev_send bufs addr len s
        ≡ some ((sent_result n, cs), t))
      × Takes bufs addr len k s n cs t
unfolding ixev_send
ixev_send_lem bufs addr len k s live is ready = elim (Bool-cases (ixev_window_len len s.0 == 0)) [
  | inl none_left ↦
      let zero_left : min (ixev_send_win_size - (pending_len s.0.send + k)) len ≡ 0 =
        sym (window_lem len k s.0 is) ∙ (ground arith) in
      (
        0,
        [],
        s,
        if_false _ _ live ∙ if_true _ _ none_left,
        record {
          kept = is;
          queued = omega arith;
          copied_all = refl;
          in_order = tt;
          fits = omega arith;
          ended = inl (sym zero_left);
          ready = ready;
        },
      )
  | inr some_left ↦
      let start : Sending = record {
        left = ixev_window_len len s.0;
        caddr = addr;
        so_far = 0;
        copies = [];
      } in
      let hot = send_hot-Fills s.0.cur_buf start s.0 s.1 in
      let mid = send_hot s.0.cur_buf start s.0 in
      let (r, done, cold, ended) = send_cold-Fills bufs mid.0 (mid.1, s.1) (hot.ready ready) in
      let fills = Fills-trans start mid.0 r.0 s (mid.1, s.1) r.1 hot cold in
      let window = window_lem len k s.0 is in
      let most : r.0.so_far ≤ ixev_window_len len s.0 = omega (arith, fills.moved) in
      let fits : r.0.so_far ≤ ixev_send_win_size - (pending_len s.0.send + k) =
        ground (arith, most, window) in
      let same_length = length-send_hot s.0.cur_buf start s.0 in
      (
        r.0.so_far,
        r.0.copies,
        (
          record (r.1.0) {
            send_total =
                if r.0.so_far == 0 then r.1.0.send_total else add64 r.1.0.send_total r.0.so_far;
          },
          r.1.1,
        ),
        if_false _ _ live ∙ if_false _ _ some_left ∙ rw done (ap some (finish_lem r.0 r.1)),
        record {
          kept =
              IsSend-more k r.0.so_far s.0 r.1.0 is (fills.few is.few) (omega (arith, fills.queued))
                fits fills.same_total fills.same_sent;
          queued = omega (arith, fills.queued);
          copied_all = omega (arith, fills.copied_all);
          in_order = (fills.reading addr (tt, omega arith)).0;
          fits = subst (λ w. r.0.so_far ≤ w) window most;
          ended = elim ended [
            | inl all ↦ inl (omega (arith, fills.moved, all) ∙ window)
            | inr (inl full) ↦ inr (inl (omega (arith, fills.few is.few, full)))
            | inr (inr out) ↦ inr (inr (omega (arith, out, same_length)))
          ];
          ready = fills.ready ready;
        },
      )
]
