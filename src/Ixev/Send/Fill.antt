-- ===== src/Ixev/Send/Fill.antt =====
-- libix/ixev.c: what the two paths of `ixev_send` put into entries and buffers.
use ix.Base.{
  ℕ, suc, ◌+◌, ◌-◌, ◌≤◌, ◌<◌, ◌≡◌, ◌⊎◌, inl, inr, refl, ap, ◌∙◌, Option, none, some, List, [], ◌∷◌,
  ◌++◌, arith, leb, ltb, ◌==◌, length, length-append, Bool-cases, add64, if_true,
}
use ix.Ixev.{IxevCtx, IxevBuf, IxevRef, Thread, SgEntry, State}
use ix.Ixev.Send.{
  Sending, Copy, stored, min, ixev_buf_store, buf_size, grow_last, send_hot, add_ref, send_into,
  send_cold, ixev_next_entry, ixev_send_depth,
}
use ix.Ixev.Send.Pending.{pending_len}
use ix.Ixev.Send.Desc.{IsReady, ixev_sendv-SameConn}

-- the bytes that the calls of `memcpy` copied
abbrev pub copied : List Copy → ℕ
copied [] = 0
copied (c ∷ cs) = c.len + copied cs

copied-append : (xs ys : List Copy) → copied (xs ++ ys) ≡ copied xs + copied ys
copied-append [] ys = omega arith
copied-append (c ∷ cs) ys = omega (arith, copied-append cs ys)

-- The calls of `memcpy` read the memory from `a` on, each where the one before it ended.
abbrev pub ReadsFrom : ℕ → List Copy → Type 0
ReadsFrom a [] = Unit
ReadsFrom a (c ∷ cs) = (c.src ≡ a) × ReadsFrom (a + c.len) cs

ReadsFrom-append :
    (a b : ℕ) (cs : List Copy) (c : Copy)
    → ReadsFrom a cs
    → b ≡ a + copied cs
    → c.src ≡ b
    → ReadsFrom a (cs ++ (c ∷ []))
ReadsFrom-append a b [] c h e s = (s ∙ omega arith, tt)
ReadsFrom-append a b (d ∷ cs) c h e s =
    (h.0, ReadsFrom-append (a + d.len) b cs c h.1 (omega arith) s)

-- the locals of `ixev_send` in order: what was copied was read from `a` on, up to `caddr`
abbrev pub IsReading : ℕ → Sending → Type 0
IsReading a l = ReadsFrom a l.copies × (l.caddr ≡ a + copied l.copies)

stored-IsReading : (a dst ret : ℕ) (l : Sending) → IsReading a l → IsReading a (stored dst ret l)
unfolding stored
stored-IsReading a dst ret l h =
    let c : Copy = record { dst = dst; src = l.caddr; len = ret } in
    (
      ReadsFrom-append a l.caddr l.copies c h.0 h.1 refl,
      omega (arith, h.1, copied-append l.copies (c ∷ [])),
    )

pub pending_len-append :
    (xs ys : List SgEntry) → pending_len (xs ++ ys) ≡ pending_len xs + pending_len ys
pending_len-append [] ys = omega arith
pending_len-append (e ∷ es) ys = omega (arith, pending_len-append es ys)

pending_len-grow_last :
    (n : ℕ) (es : List SgEntry) → 0 < length es → pending_len (grow_last n es) ≡ pending_len es + n
unfolding grow_last
pending_len-grow_last n [] h = absurd (omega arith)
pending_len-grow_last n (e ∷ []) h = omega arith
pending_len-grow_last n (e ∷ f ∷ es) h =
    omega (arith, pending_len-grow_last n (f ∷ es) (omega arith))

length-grow_last : (n : ℕ) (es : List SgEntry) → length (grow_last n es) ≡ length es
unfolding grow_last
length-grow_last n [] = refl
length-grow_last n (e ∷ []) = refl
length-grow_last n (e ∷ f ∷ es) = ap suc (length-grow_last n (f ∷ es))

-- From the locals `l` and the state `s` the bytes that `l'` counts beyond `l` were put into the
-- buffers and the entries.
pub record Fills (l : Sending) (s : State) (l' : Sending) (t : State) : Type 0 where
  pub moved : l'.left + l'.so_far ≡ l.left + l.so_far
  pub queued : pending_len t.0.send + l.so_far ≡ pending_len s.0.send + l'.so_far
  pub copied_all : copied l'.copies + l.so_far ≡ copied l.copies + l'.so_far
  pub few : length s.0.send ≤ ixev_send_depth → length t.0.send ≤ ixev_send_depth
  pub ready : IsReady s → IsReady t
  pub reading : (a : ℕ) → IsReading a l → IsReading a l'
  pub same_total : t.0.send_total ≡ s.0.send_total
  pub same_sent : t.0.sent_total ≡ s.0.sent_total

pub Fills-refl : (l : Sending) (s : State) → Fills l s l s
Fills-refl l s = record {
  moved = refl;
  queued = refl;
  copied_all = refl;
  few = λ h. h;
  ready = λ h. h;
  reading = λ a h. h;
  same_total = refl;
  same_sent = refl;
}

pub Fills-trans : (l m n : Sending) (s t u : State) → Fills l s m t → Fills m t n u → Fills l s n u
Fills-trans l m n s t u a b = record {
  moved = b.moved ∙ a.moved;
  queued = omega (arith, a.queued, b.queued);
  copied_all = omega (arith, a.copied_all, b.copied_all);
  few = λ h. b.few (a.few h);
  ready = λ h. b.ready (a.ready h);
  reading = λ c h. b.reading c (a.reading c h);
  same_total = b.same_total ∙ a.same_total;
  same_sent = b.same_sent ∙ a.same_sent;
}

pub send_hot-Fills :
    (b : Option IxevBuf) (l : Sending) (ctx : IxevCtx) (t : Thread)
    → Fills l (ctx, t) (send_hot b l ctx).0 ((send_hot b l ctx).1, t)
unfolding send_hot stored ixev_buf_store
send_hot-Fills none l ctx t = Fills-refl l (ctx, t)
send_hot-Fills (some buf) l ctx t = elim (Bool-cases (ltb 0 (length ctx.send))) [
  | inr empty ↦ rw empty (Fills-refl l (ctx, t))
  | inl some_sent ↦
      let ret = min l.left (buf_size - buf.len) in
      rw some_sent (record {
        moved = ground arith;
        queued = omega (arith, pending_len-grow_last ret ctx.send (ground arith));
        copied_all = omega (
          arith,
          copied-append l.copies
              (record { dst = buf.payload + buf.len; src = l.caddr; len = ret } ∷ []),
        );
        few = λ h. rw (length-grow_last ret ctx.send) h;
        ready = λ h. h;
        reading = λ a h. stored-IsReading a (buf.payload + buf.len) ret l h;
        same_total = refl;
        same_sent = refl;
      })
]

pub length-send_hot :
    (b : Option IxevBuf) (l : Sending) (ctx : IxevCtx)
    → length (send_hot b l ctx).1.send ≡ length ctx.send
unfolding send_hot ixev_buf_store
length-send_hot none l ctx = refl
length-send_hot (some buf) l ctx = elim (Bool-cases (ltb 0 (length ctx.send))) [
  | inr empty ↦ rw empty refl
  | inl some_sent ↦ rw some_sent (length-grow_last (min l.left (buf_size - buf.len)) ctx.send)
]

send_into-Fills :
    (buf : IxevBuf) (l : Sending) (s : State)
    → length s.0.send < ixev_send_depth
    → IsReady s
    → (r : Sending × State) × (send_into buf l s ≡ some r)
      × Fills l s r.0 r.1
      × (length r.1.0.send ≡ suc (length s.0.send))
unfolding send_into stored ixev_buf_store ixev_next_entry
send_into-Fills buf l s room ready =
    let ret = min l.left (buf_size - buf.len) in
    let ent : SgEntry = record { base = buf.payload; len = ret } in
    let queue : IxevCtx = record (s.0) {
      cur_buf = some (record buf { len = buf.len + ret });
      send = s.0.send ++ (ent ∷ []);
    } in
    let (t, done, is) = ixev_sendv-SameConn (queue, s.1) ready in
    let send : t.0.send ≡ s.0.send ++ (ent ∷ []) = ap (λ c. c.send) is.same in
    let longer : length t.0.send ≡ suc (length s.0.send) =
      rw send (omega (arith, length-append s.0.send (ent ∷ []))) in
    let l' = stored buf.payload ret l in
    let ref : IxevRef = record { id = buf.ref; send_pos = add64 s.0.send_total l'.so_far } in
    (
      (l', (add_ref ref t.0, t.1)),
      rw done refl,
      record {
        moved = ground arith;
        queued = rw send (omega (arith, pending_len-append s.0.send (ent ∷ [])));
        copied_all = omega (
          arith,
          copied-append l.copies (record { dst = buf.payload; src = l.caddr; len = ret } ∷ []),
        );
        few = λ h. omega (arith, longer);
        ready = λ h. is.ready;
        reading = λ a h. stored-IsReading a buf.payload ret l h;
        same_total = ap (λ c. c.send_total) is.same;
        same_sent = ap (λ c. c.sent_total) is.same;
      },
      longer,
    )

-- Why the cold path ends: all is sent, the entries are used, or the pool has no buffer.
abbrev pub HasEnded : List IxevBuf → State → Sending → State → Type 0
HasEnded bufs s l t =
    (l.left ≡ 0)
    ⊎ ((ixev_send_depth ≤ length t.0.send) ⊎ (length t.0.send ≡ length s.0.send + length bufs))

pub send_cold-Fills :
    (bufs : List IxevBuf) (l : Sending) (s : State)
    → IsReady s
    → (r : Sending × State) × (send_cold bufs l s ≡ some r)
      × Fills l s r.0 r.1
      × HasEnded bufs s r.0 r.1
unfolding send_cold
send_cold-Fills [] l s ready = elim (Bool-cases (l.left == 0)) [
  | inl none_left ↦ ((l, s), if_true _ _ none_left, Fills-refl l s, inl (ground arith))
  | inr more ↦ elim (Bool-cases (leb ixev_send_depth (length s.0.send))) [
    | inl full ↦ ((l, s), rw (more, full) refl, Fills-refl l s, inr (inl (ground arith)))
    | inr free ↦ (
      (l, (record (s.0) { cur_buf = none }, s.1)),
      rw (more, free) refl,
      record {
        moved = refl;
        queued = refl;
        copied_all = refl;
        few = λ h. h;
        ready = λ h. h;
        reading = λ a h. h;
        same_total = refl;
        same_sent = refl;
      },
      inr (inr (omega arith)),
    )
  ]
]
send_cold-Fills (buf ∷ bufs) l s ready = elim (Bool-cases (l.left == 0)) [
  | inl none_left ↦ ((l, s), if_true _ _ none_left, Fills-refl l s, inl (ground arith))
  | inr more ↦ elim (Bool-cases (leb ixev_send_depth (length s.0.send))) [
    | inl full ↦ ((l, s), rw (more, full) refl, Fills-refl l s, inr (inl (ground arith)))
    | inr free ↦
        let (r, one, fills, longer) = send_into-Fills buf l s (ground arith) ready in
        let (r', rest, fills', ended) = send_cold-Fills bufs r.0 r.1 (fills.ready ready) in
        (
          r',
          rw (more, free, one) rest,
          Fills-trans l r.0 r'.0 s r.1 r'.1 fills fills',
          elim ended [
            | inl e ↦ inl e
            | inr (inl e) ↦ inr (inl e)
            | inr (inr e) ↦ inr (inr (omega (arith, e, longer)))
          ],
        )
  ]
]
