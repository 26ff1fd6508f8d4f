-- ===== src/Ixev/Send/Flow.antt =====
-- libix/ixev.c: the send side of a connection over any sequence of calls, acknowledgements and
-- batches of system calls.
use ix.Base.{
  ℕ, ◌+◌, ◌-◌, ◌≤◌, ◌≡◌, inl, inr, refl, sym, ap, ◌∙◌, none, some, List, [], ◌∷◌, ◌++◌, arith, leb,
  ltb, ◌==◌, if◌then◌else◌, length, length-append, Bool-cases, add64, if_true, if_false, some_inj,
}
use mathlib.Core.Path.{subst}
use ix.Ixev.{IxevCtx, IxevBuf, SgEntry, State, raise, has_event, ixevout}
use ix.Ixev.Send.{
  Copy, acknowledged, ixev_wait_end, shift_sends, ixev_send_depth, ixev_window_len, SendResult,
  sent, ixev_send, ixev_send_zc, ixev_next_entry, ixev_tcp_sent, sent_finish, ixev_handle_sendv_ret,
}
use ix.Ixev.Send.Pending.{pending_len, pending_len-shift_sends, length-shift_sends}
use ix.Ixev.Send.Desc.{IsReady, SameConn, ixev_sendv-SameConn}
use ix.Ixev.Send.Fill.{pending_len-append}
use ix.Ixev.Send.Window.{IsSend, sent_result, IsSend-more, window_lem, ixev_send_lem}

-- `ixev_send_zc` takes what the window has room for, in one entry, if there is one left.
ixev_send_zc-IsSend :
    (addr len k : ℕ) (s : State)
    → IsSend k s.0
    → IsReady s
    → (r : SendResult × State) × (ixev_send_zc addr len s ≡ some r) × IsSend k r.1.0
unfolding ixev_send_zc ixev_next_entry
ixev_send_zc-IsSend addr len k s is ready = elim (Bool-cases s.0.is_dead) [
  | inl dead ↦ (_, if_true _ _ dead, is)
  | inr live ↦ elim (Bool-cases (ixev_window_len len s.0 == 0)) [
    | inl none_left ↦ (_, if_false _ _ live ∙ if_true _ _ none_left, is)
    | inr some_left ↦ elim (Bool-cases (leb ixev_send_depth (length s.0.send))) [
      | inl full ↦ (_, if_false _ _ live ∙ if_false _ _ some_left ∙ if_true _ _ full, is)
      | inr free ↦
          let n = ixev_window_len len s.0 in
          let ent : SgEntry = record { base = addr; len = n } in
          let queue : IxevCtx = record (s.0) { cur_buf = none; send = s.0.send ++ (ent ∷ []) } in
          let (t, done, same) = ixev_sendv-SameConn (queue, s.1) ready in
          let send : t.0.send ≡ s.0.send ++ (ent ∷ []) = ap (λ c. c.send) same.same in
          let more : IsSend k (record (t.0) {
            send_total = if n == 0 then t.0.send_total else add64 t.0.send_total n;
          }) =
            IsSend-more k n s.0 t.0 is (rw send (ground (arith, length-append s.0.send (ent ∷ []))))
              (rw send (omega (arith, pending_len-append s.0.send (ent ∷ []))))
              (ground (arith, window_lem len k s.0 is)) (ap (λ c. c.send_total) same.same)
              (ap (λ c. c.sent_total) same.same) in
          (
            (sent n, (record (t.0) { send_total = add64 t.0.send_total n }, t.1)),
            if_false _ _ live ∙ if_false _ _ some_left ∙ if_false _ _ free ∙ rw done refl,
            subst
                (λ b. IsSend k (record (t.0) {
                  send_total = if b then t.0.send_total else add64 t.0.send_total n;
                }))
                some_left more,
          )
    ]
  ]
]

raise-send :
    (event : ℕ) (ctx : IxevCtx)
    → ((raise event ctx).send ≡ ctx.send)
      × ((raise event ctx).send_total ≡ ctx.send_total)
      × ((raise event ctx).sent_total ≡ ctx.sent_total)
unfolding raise
raise-send event ctx = elim (Bool-cases (has_event ctx.en_mask event)) [
  | inl e ↦ rw e (refl, refl, refl)
  | inr e ↦ rw e (refl, refl, refl)
]

finish-IsSend :
    (k : ℕ) (s : State) → IsSend k s.0 → (t : State) × (sent_finish s ≡ some t) × IsSend k t.0
unfolding sent_finish
finish-IsSend k s is =
    let (send, total, acked) = raise-send ixevout s.0 in
    (
      (raise ixevout s.0, s.1),
      refl,
      record {
        few = rw send is.few;
        window = rw send is.window;
        total = rw (send, total, acked) is.total;
      },
    )

acknowledged-IsSend :
    (len k : ℕ) (ctx : IxevCtx) → len ≤ k → IsSend k ctx → IsSend (k - len) (acknowledged len ctx)
unfolding acknowledged
acknowledged-IsSend len k ctx fewer is = record {
  few = is.few;
  window = omega (arith, is.window);
  total = is.total ∙ (omega arith);
}

acknowledged-IsReady : (len : ℕ) (s : State) → IsReady s → IsReady (acknowledged len s.0, s.1)
unfolding acknowledged
acknowledged-IsReady len s ready = ready

SameConn-IsSend : (k : ℕ) (s t : State) → SameConn s t → IsSend k s.0 → IsSend k t.0
SameConn-IsSend k s t same is =
    rw same.same (record { few = is.few; window = is.window; total = is.total })

tcp_sent-IsSend :
    (len k : ℕ) (s : State)
    → len ≤ k
    → IsSend k s.0
    → IsReady s
    → (t : State) × (ixev_tcp_sent len s ≡ some t) × IsSend (k - len) t.0
unfolding ixev_tcp_sent
tcp_sent-IsSend len k s fewer is ready =
    let ctx = acknowledged len s.0 in
    let acked : IsSend (k - len) ctx = acknowledged-IsSend len k s.0 fewer is in
    elim (Bool-cases (ltb 0 (length ctx.send))) [
      | inr empty ↦
          let (t, done, kept) = finish-IsSend (k - len) (ctx, s.1) acked in
          (t, if_false _ _ empty ∙ done, kept)
      | inl more ↦
          let (u, sent_again, same) =
            ixev_sendv-SameConn (ctx, s.1) (acknowledged-IsReady len s ready) in
          let again = SameConn-IsSend (k - len) (ctx, s.1) u same acked in
          let (t, done, kept) = finish-IsSend (k - len) u again in
          (t, if_true _ _ more ∙ rw sent_again done, kept)
    ]

-- One step of a connection, with the bytes that the kernel has and that are not acknowledged: a
-- call of the application, an acknowledgement of bytes that the kernel has, bytes that the kernel
-- takes from the entries, or the next batch of system calls. There is room for a call in the batch.
pub data Step : ℕ × State → ℕ × State → Type 0 where
  send :
      {k : ℕ} {s : State} (bufs : List IxevBuf) (addr len : ℕ)
      → {r : SendResult × List Copy} {t : State} → IsReady s
      → ixev_send bufs addr len s ≡ some (r, t)
      → Step (k, s) (k, t)
  send_zc :
      {k : ℕ} {s : State} (addr len : ℕ)
      → {r : SendResult} {t : State} → IsReady s
      → ixev_send_zc addr len s ≡ some (r, t)
      → Step (k, s) (k, t)
  ack :
      {k : ℕ} {s : State} (len : ℕ)
      → {t : State} → IsReady s
      → len ≤ k
      → ixev_tcp_sent len s ≡ some t
      → Step (k, s) (k - len, t)
  taken :
      {k : ℕ} {s : State} (ret : ℕ)
      → ret ≤ pending_len s.0.send
      → Step (k, s) (k + ret, (ixev_handle_sendv_ret (some ret) s.0, s.1))
  next_batch : {k : ℕ} {s : State} → Step (k, s) (k, ixev_wait_end s)

pub data Reach (a : ℕ × State) : ℕ × State → Type 0 where
  here : Reach a a
  next : {b c : ℕ × State} → Reach a b → Step b c → Reach a c

abbrev pub IsFlow : ℕ × State → Type 0
IsFlow a = IsSend a.0 a.1.0

ixev_send-IsSend :
    (bufs : List IxevBuf) (addr len k : ℕ) (s : State)
    → IsSend k s.0
    → IsReady s
    → (r : (SendResult × List Copy) × State) × (ixev_send bufs addr len s ≡ some r) × IsSend k r.1.0
unfolding ixev_send
ixev_send-IsSend bufs addr len k s is ready = elim (Bool-cases s.0.is_dead) [
  | inl dead ↦ (_, if_true _ _ dead, is)
  | inr live ↦
      let (n, cs, t, done, takes) = ixev_send_lem bufs addr len k s live is ready in
      (((sent_result n, cs), t), done, takes.kept)
]

taken-IsSend :
    (ret k : ℕ) (ctx : IxevCtx)
    → ret ≤ pending_len ctx.send
    → IsSend k ctx
    → IsSend (k + ret) (ixev_handle_sendv_ret (some ret) ctx)
unfolding ixev_handle_sendv_ret
taken-IsSend ret k ctx fewer is =
    let left = pending_len-shift_sends ret ctx.send in
    let same : pending_len (shift_sends ret ctx.send) + (k + ret) ≡ pending_len ctx.send + k =
      omega (arith, left) in
    record {
      few = omega (arith, is.few, length-shift_sends ret ctx.send);
      window = rw same is.window;
      total = rw same is.total;
    }

Step-IsFlow : {a b : ℕ × State} → Step a b → IsFlow a → IsFlow b
unfolding ixev_wait_end
Step-IsFlow (send {k} {s} bufs addr len ready e) is =
    let (r, done, kept) = ixev_send-IsSend bufs addr len k s is ready in
    subst (λ r. IsSend k r.1.0) (some_inj (sym done ∙ e)) kept
Step-IsFlow (send_zc {k} {s} addr len ready e) is =
    let (r, done, kept) = ixev_send_zc-IsSend addr len k s is ready in
    subst (λ r. IsSend k r.1.0) (some_inj (sym done ∙ e)) kept
Step-IsFlow (ack {k} {s} len ready fewer e) is =
    let (t, done, kept) = tcp_sent-IsSend len k s fewer is ready in
    subst (λ t. IsSend (k - len) t.0) (some_inj (sym done ∙ e)) kept
Step-IsFlow (taken {k} {s} ret fewer) is = taken-IsSend ret k s.0 fewer is
Step-IsFlow next_batch is = is

-- From a state in which it is so, and by any steps of the connection: the entries are no more than
-- 16, the bytes in the entries and those that the kernel has are together no more than 65536, and
-- they are the difference of the two totals that the context keeps.
pub Reach-IsFlow : {a b : ℕ × State} → Reach a b → IsFlow a → IsFlow b
Reach-IsFlow here is = is
Reach-IsFlow (next r s) is = Step-IsFlow s (Reach-IsFlow r is)
