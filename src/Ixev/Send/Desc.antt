-- ===== src/Ixev/Send/Desc.antt =====
-- libix/ixev.c: the system call that sends, of which a connection has at most one in a batch.
use ix.Base.{
  ℕ, ◌+◌, ◌≡◌, ◌⊎◌, inl, inr, refl, sym, ◌∙◌, false, Option, none, some, [], ◌∷◌, ◌++◌, arith, leb,
  ◌==◌, length, Bool-cases, not_some,
}
use ix.Ixev.{IxevCtx, Thread, State, tcp_sendv, next_desc, ixev_check_generation}
use ix.Ixev.Credit.{HasRoom}
use ix.Ixev.Send.{set_nrents, sendv_with, ixev_sendv}

-- The context has its call in this batch, or there is room for one.
abbrev pub IsReady : State → Type 0
IsReady s = HasRoom s ⊎ ((s.0.generation ≡ s.1.generation) × ((i : ℕ) × (s.0.sendv_desc ≡ some i)))

-- What `__ixev_sendv` leaves as it is.
pub record SameConn (s t : State) : Type 0 where
  pub ready : IsReady t
  pub same : t.0 ≡ record (s.0) {
    generation = t.0.generation;
    recv_done_desc = t.0.recv_done_desc;
    sendv_desc = t.0.sendv_desc;
  }

sendv_with-SameConn :
    (d : Option ℕ) (ctx : IxevCtx) (t : Thread)
    → ctx.sendv_desc ≡ d
    → ctx.generation ≡ t.generation
    → IsReady (ctx, t)
    → (s : State) × (sendv_with d (ctx, t) ≡ some s) × SameConn (ctx, t) s
unfolding sendv_with next_desc
sendv_with-SameConn (some i) ctx t e same ready = (
  (ctx, record t { descs = set_nrents i (length ctx.send) t.descs }),
  refl,
  record { ready = inr (same, (i, e)); same = refl },
)
sendv_with-SameConn none ctx t e same (inr r) = not_some (sym e ∙ r.1.1)
sendv_with-SameConn none ctx t e same (inl room) =
    let free : leb t.max_len (length t.descs + 1) ≡ false = ground arith in
    (
      (
        record ctx { sendv_desc = some (length t.descs) },
        record t { descs = t.descs ++ (tcp_sendv ctx.handle (length ctx.send) ∷ []) },
      ),
      rw free refl,
      record { ready = inr (same, (length t.descs, refl)); same = refl },
    )

pub ixev_sendv-SameConn :
    (s : State) → IsReady s → (t : State) × (ixev_sendv s ≡ some t) × SameConn s t
unfolding ixev_sendv ixev_check_generation
ixev_sendv-SameConn (ctx, t) ready = elim (Bool-cases (t.generation == ctx.generation)) [
  | inl same ↦
      let e : ctx.generation ≡ t.generation = ground arith in
      rw same (sendv_with-SameConn ctx.sendv_desc ctx t refl e ready)
  | inr other ↦
      let ctx' : IxevCtx = record ctx {
        generation = t.generation;
        recv_done_desc = none;
        sendv_desc = none;
      } in
      let room : HasRoom (ctx, t) = elim ready [
        | inl r ↦ r
        | inr g ↦ absurd (ground (arith, g.0))
      ] in
      let (s', done, is) = sendv_with-SameConn none ctx' t refl refl (inl room) in
      (s', rw other done, record { ready = is.ready; same = is.same })
]
