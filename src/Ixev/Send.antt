-- ===== src/Ixev/Send.antt =====
-- libix/ixev.c and libix/buf.h: the send side. `ixev_buf_alloc` takes buffers from the pool of the
-- thread; the buffers that it gives are an argument, a list, and the end of the list is that there
-- is none. `copies` lists the calls of `memcpy` into buffers.
pub mod Desc
pub mod Fill
pub mod Window
pub mod Flow
pub mod Pending
use ix.Base.{
  ℕ, zero, suc, ◌+◌, ◌-◌, ◌%◌, ◌^◌, ◌++◌, Bool, true, false, Option, none, some, List, [], ◌∷◌, ltb,
  leb, ◌==◌, if◌then◌else◌, ◌>>=◌, length, add64, drop,
}
use ix.Ixev.{
  IxevCtx, IxevRef, IxevBuf, SgEntry, State, BsysDesc, tcp_recv_done, tcp_sendv, tcp_close,
  next_desc, ixev_check_generation, raise, ixevout, ixevhup, ixevin, has_event, with_event, eagain,
  eio,
}

abbrev pub ixev_send_depth : ℕ
ixev_send_depth = 16

abbrev pub ixev_send_win_size : ℕ
ixev_send_win_size = 65536

abbrev pub buf_size : ℕ
buf_size = 5840

abbrev pub min : ℕ → ℕ → ℕ
min a b = if ltb a b then a else b

-- `desc->argc = nrents`
pub set_nrents : ℕ → ℕ → List BsysDesc → List BsysDesc
set_nrents i nrents [] = []
set_nrents zero nrents (tcp_sendv h n ∷ ds) = tcp_sendv h nrents ∷ ds
set_nrents zero nrents (d ∷ ds) = d ∷ ds
set_nrents (suc i) nrents (d ∷ ds) = d ∷ set_nrents i nrents ds

-- `__ixev_sendv` of the array `send` after the check of the generation, by `sendv_desc`
pub sendv_with : Option ℕ → State → Option State
sendv_with none (ctx, t) = next_desc (tcp_sendv ctx.handle (length ctx.send)) t >>= λ r.
    some (record ctx { sendv_desc = some r.0 }, r.1)
sendv_with (some i) (ctx, t) =
    some (ctx, record t { descs = set_nrents i (length ctx.send) t.descs })

pub ixev_sendv : State → Option State
ixev_sendv s = let ctx = ixev_check_generation s.1 s.0 in sendv_with ctx.sendv_desc (ctx, s.1)

-- `__ixev_add_sent_cb`
abbrev pub add_ref : IxevRef → IxevCtx → IxevCtx
add_ref ref ctx = record ctx { refs = ctx.refs ++ (ref ∷ []) }

-- `ixev_next_entry`, with the entry that its caller writes
pub ixev_next_entry : SgEntry → State → Option State
ixev_next_entry ent s = ixev_sendv (record (s.0) { send = s.0.send ++ (ent ∷ []) }, s.1)

pub ixev_window_len : ℕ → IxevCtx → ℕ
ixev_window_len len ctx =
    min ((ixev_send_win_size + 2 ^ 64 - ctx.send_total + ctx.sent_total) % 2 ^ 64) len

-- `ixev_buf_store`, without the copying: the bytes that fit, and the buffer
pub ixev_buf_store : ℕ → IxevBuf → ℕ × IxevBuf
ixev_buf_store len buf =
    let avail = min len (buf_size - buf.len) in (avail, record buf { len = buf.len + avail })

-- `ref.send_pos = pos`, for a reference in the list
pub set_send_pos : ℕ → ℕ → List IxevRef → List IxevRef
set_send_pos id pos [] = []
set_send_pos id pos (r ∷ rs) =
    let rest = set_send_pos id pos rs in
    if r.id == id then record r { send_pos = pos } ∷ rest else r ∷ rest

-- `ent->len += n` for the last entry of `send`
pub grow_last : ℕ → List SgEntry → List SgEntry
grow_last n [] = []
grow_last n (e ∷ []) = record e { len = e.len + n } ∷ []
grow_last n (e ∷ es) = e ∷ grow_last n es

-- a call of `memcpy`
pub record Copy : Type 0 where
  pub dst : ℕ
  pub src : ℕ
  pub len : ℕ

-- the locals of `ixev_send`
pub record Sending : Type 0 where
  pub left : ℕ
  pub caddr : ℕ
  pub so_far : ℕ
  pub copies : List Copy

-- `ret` bytes were stored at `dst`.
pub stored : ℕ → ℕ → Sending → Sending
stored dst ret l = record {
  left = l.left - ret;
  caddr = l.caddr + ret;
  so_far = l.so_far + ret;
  copies = l.copies ++ (record { dst = dst; src = l.caddr; len = ret } ∷ []);
}

-- The hot path of `ixev_send`, by the current buffer.
pub send_hot : Option IxevBuf → Sending → IxevCtx → Sending × IxevCtx
send_hot none l ctx = (l, ctx)
send_hot (some buf) l ctx =
    let (ret, buf') = ixev_buf_store l.left buf in
    let l' = stored (buf.payload + buf.len) ret l in
    if ltb 0 (length ctx.send)
    then (
      l',
      record ctx {
        send = grow_last ret ctx.send;
        cur_buf = some buf';
        refs = set_send_pos buf.ref (add64 ctx.send_total l'.so_far) ctx.refs;
      },
    )
    else (l, ctx)

-- One round of the cold path with the buffer `buf`, fresh from the pool.
pub send_into : IxevBuf → Sending → State → Option (Sending × State)
send_into buf l s =
    let (ret, buf') = ixev_buf_store l.left buf in
    let l' = stored buf.payload ret l in
    ixev_next_entry (record { base = buf.payload; len = ret })
      (record (s.0) { cur_buf = some buf' }, s.1)
    >>= λ s'. some (
      l',
      (add_ref (record { id = buf.ref; send_pos = add64 s.0.send_total l'.so_far }) s'.0, s'.1),
    )

-- the cold path, by the buffers that the pool gives
pub send_cold : List IxevBuf → Sending → State → Option (Sending × State)
send_cold [] l s =
    if l.left == 0
    then some (l, s)
    else if leb ixev_send_depth (length s.0.send)
    then some (l, s)
    else some (l, (record (s.0) { cur_buf = none }, s.1))
send_cold (buf ∷ bufs) l s =
    let more = send_into buf l s >>= λ r. send_cold bufs r.0 r.1 in
    if l.left == 0
    then some (l, s)
    else if leb ixev_send_depth (length s.0.send)
    then some (l, s)
    else more

-- A result: an error number, or the count of bytes.
pub data SendResult : Type 0 where
  refused : ℕ → SendResult
  sent : ℕ → SendResult

-- what follows `out` in `ixev_send`
pub send_finish : Sending × State → (SendResult × List Copy) × State
send_finish (l, s) = if l.so_far == 0 then ((refused eagain, l.copies), s) else (
  (sent l.so_far, l.copies),
  (record (s.0) { send_total = add64 s.0.send_total l.so_far }, s.1),
)

pub ixev_send : List IxevBuf → ℕ → ℕ → State → Option ((SendResult × List Copy) × State)
ixev_send bufs addr len s =
    let start : Sending = record {
      left = ixev_window_len len s.0;
      caddr = addr;
      so_far = 0;
      copies = [];
    } in
    let (l, ctx) = send_hot s.0.cur_buf start s.0 in
    if s.0.is_dead
    then some ((refused eio, []), s)
    else if ixev_window_len len s.0 == 0
    then some ((refused eagain, []), s)
    else (send_cold bufs l (ctx, s.1) >>= λ r. some (send_finish r))

pub ixev_send_zc : ℕ → ℕ → State → Option (SendResult × State)
ixev_send_zc addr len s =
    let actual_len = ixev_window_len len s.0 in
    let queued =
      ixev_next_entry (record { base = addr; len = actual_len })
        (record (s.0) { cur_buf = none }, s.1) in
    if s.0.is_dead
    then some (refused eio, s)
    else if actual_len == 0
    then some (refused eagain, s)
    else if leb ixev_send_depth (length s.0.send)
    then some (refused eagain, s)
    else (queued >>= λ s'.
        some (
          sent actual_len,
          (record (s'.0) { send_total = add64 s'.0.send_total actual_len }, s'.1),
        ))

-- `ixev_add_sent_cb`, for a reference of the application
unfoldable ixev_add_sent_cb : ℕ → IxevCtx → IxevCtx
ixev_add_sent_cb id ctx = add_ref (record { id = id; send_pos = ctx.send_total }) ctx

-- the loop over the references in `ixev_tcp_sent`: those that are left, and those that were run
pub run_refs : ℕ → List IxevRef → List IxevRef × List ℕ
run_refs sent_total [] = ([], [])
run_refs sent_total (r ∷ rs) =
    let later = run_refs sent_total rs in
    if leb r.send_pos sent_total then (later.0, r.id ∷ later.1) else (r ∷ rs, [])

-- the end of `ixev_tcp_sent`
pub sent_finish : State → Option State
sent_finish s = some (raise ixevout s.0, s.1)

-- the context in `ixev_tcp_sent` after the callbacks
pub acknowledged : ℕ → IxevCtx → IxevCtx
acknowledged len ctx =
    let sent_total = add64 ctx.sent_total len in
    let (refs, freed) = run_refs sent_total ctx.refs in
    record ctx {
      sent_total = sent_total;
      refs = refs;
      freed = ctx.freed ++ freed;
      cur_buf = if length refs == 0 then none else ctx.cur_buf;
    }

-- `ixev_tcp_sent`
pub ixev_tcp_sent : ℕ → State → Option State
ixev_tcp_sent len s =
    let ctx = acknowledged len s.0 in
    let again = ixev_sendv (ctx, s.1) >>= sent_finish in
    if ltb 0 (length ctx.send) then again else sent_finish (ctx, s.1)

-- The loop of `ixev_handle_sendv_ret` with `ixev_shift_sends`: the entries that are left when the
-- kernel has taken `ret` bytes.
pub shift_sends : ℕ → List SgEntry → List SgEntry
shift_sends ret [] = []
shift_sends ret (e ∷ es) =
    let rest = shift_sends (ret - e.len) es in
    if ltb ret e.len then record { base = e.base + ret; len = e.len - ret } ∷ es else rest

-- `ixev_handle_sendv_ret`; `none` stands for a result below zero.
pub ixev_handle_sendv_ret : Option ℕ → IxevCtx → IxevCtx
ixev_handle_sendv_ret none ctx = record ctx { is_dead = true }
ixev_handle_sendv_ret (some ret) ctx = record ctx { send = shift_sends ret ctx.send }

-- `ixev_tcp_dead`
unfoldable ixev_tcp_dead : IxevCtx → IxevCtx
ixev_tcp_dead ctx =
    let dead = record ctx { is_dead = true } in
    let told =
      if has_event ctx.en_mask ixevhup
      then record dead { handled = ctx.handled ++ (ixevhup ∷ []) }
      else if has_event ctx.en_mask ixevin
      then record dead { handled = ctx.handled ++ ((ixevin + ixevhup) ∷ []) }
      else record dead { trig_mask = with_event ctx.trig_mask ixevhup } in
    record told { en_mask = 0 }

-- `ixev_close`
unfoldable ixev_close : State → Option State
ixev_close s =
    next_desc (tcp_close s.0.handle) s.1 >>= λ r. some (record (s.0) { en_mask = 0 }, r.1)

-- `ixev_handle_close_ret`, up to the call of `release`
unfoldable ixev_handle_close_ret : Option ℕ → IxevCtx → IxevCtx
ixev_handle_close_ret none ctx = ctx
ixev_handle_close_ret (some ret) ctx = record ctx { freed = ctx.freed ++ (ids ctx.refs) }
  where
    ids : List IxevRef → List ℕ
    ids [] = []
    ids (r ∷ rs) = r.id ∷ ids rs

-- The end of `ixev_wait`, when the results of the batch were handled: a new generation, of 64 bits,
-- and an empty batch.
pub ixev_wait_end : State → State
ixev_wait_end (ctx, t) = (ctx, record t { generation = add64 t.generation 1; descs = [] })
