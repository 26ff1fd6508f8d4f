-- ===== src/Ixev.antt =====
-- libix/ixev.c, libix/ixev.h and libix/buf.h: a TCP connection as the application's library keeps
-- it. An address is a number. The handlers of the application are run after the step that calls
-- them: `handled` lists the reasons they were called with. `none` is `exit(-1)`.
pub mod Ring
pub mod Loop
pub mod Credit
pub mod Recv
pub mod Stream
pub mod ZeroCopy
pub mod Send
mod Tests
use ix.Base.{
  ℕ, zero, suc, ◌+◌, ◌-◌, ◌/◌, ◌%◌, ◌^◌, ◌++◌, Bool, true, false, not, Option, none, some, List, [],
  ◌∷◌, ltb, leb, ◌==◌, if◌then◌else◌, ◌>>=◌, length, set, add64,
}

abbrev pub ixev_recv_depth : ℕ
ixev_recv_depth = 128

abbrev pub ixevhup : ℕ
ixevhup = 1

abbrev pub ixevin : ℕ
ixevin = 2

abbrev pub ixevout : ℕ
ixevout = 4

-- `mask & event`, for an event of one bit
abbrev pub has_event : ℕ → ℕ → Bool
has_event mask event = (mask / event) % 2 == 1

-- `mask |= event`, for an event of one bit
abbrev pub with_event : ℕ → ℕ → ℕ
with_event mask event = if has_event mask event then mask else mask + event

-- `struct sg_entry`
pub record SgEntry : Type 0 where
  pub base : ℕ
  pub len : ℕ

-- `struct bsys_desc`, of the system calls that the library makes for a connection
pub data BsysDesc : Type 0 where
  tcp_recv_done : ℕ → ℕ → BsysDesc
  tcp_sendv : ℕ → ℕ → BsysDesc
  tcp_close : ℕ → BsysDesc

-- `struct ixev_ref`: its number, which says what it is to free
pub record IxevRef : Type 0 where
  pub id : ℕ
  pub send_pos : ℕ

-- `struct ixev_buf`: the number of its reference, the address of `payload`, and the bytes in use
pub record IxevBuf : Type 0 where
  pub ref : ℕ
  pub payload : ℕ
  pub len : ℕ

-- `struct ixev_ctx`. The array `recv` is a function on its indices; `send` lists its first
-- `send_count` entries, and `refs` the references from `ref_head` on. A descriptor is its place in
-- the array of the thread. `freed` lists the references whose callback was run.
pub record IxevCtx : Type 0 where
  pub handle : ℕ
  pub generation : ℕ
  pub en_mask : ℕ
  pub trig_mask : ℕ
  pub recv_head : ℕ
  pub recv_tail : ℕ
  pub is_dead : Bool
  pub send_total : ℕ
  pub sent_total : ℕ
  pub refs : List IxevRef
  pub cur_buf : Option IxevBuf
  pub recv_done_desc : Option ℕ
  pub sendv_desc : Option ℕ
  pub recv : ℕ → SgEntry
  pub send : List SgEntry
  pub handled : List ℕ
  pub freed : List ℕ

-- the state of the thread: `ixev_generation`, and `karr`, the batch of system calls
pub record Thread : Type 0 where
  pub generation : ℕ
  pub descs : List BsysDesc
  pub max_len : ℕ

abbrev pub State : Type 0
State = IxevCtx × Thread

-- `ixev_ctx_init` of a context whose memory is `ctx`: the array `recv` is left as it is.
unfoldable pub ixev_ctx_init : IxevCtx → IxevCtx
ixev_ctx_init ctx = record ctx {
  en_mask = 0;
  trig_mask = 0;
  recv_head = 0;
  recv_tail = 0;
  send = [];
  recv_done_desc = none;
  sendv_desc = none;
  generation = 0;
  is_dead = false;
  send_total = 0;
  sent_total = 0;
  refs = [];
  cur_buf = none;
}

-- the call of the handler in the functions that take an event
pub raise : ℕ → IxevCtx → IxevCtx
raise event ctx =
    if has_event ctx.en_mask event
    then record ctx { handled = ctx.handled ++ (event ∷ []) }
    else record ctx { trig_mask = with_event ctx.trig_mask event }

-- `__bsys_arr_next` with `ixev_check_hacks`: the place of the new descriptor
pub next_desc : BsysDesc → Thread → Option (ℕ × Thread)
next_desc d t =
    if leb t.max_len (length t.descs + 1)
    then none
    else some (length t.descs, record t { descs = t.descs ++ (d ∷ []) })

pub ixev_check_generation : Thread → IxevCtx → IxevCtx
ixev_check_generation t ctx =
    if t.generation == ctx.generation
    then ctx
    else record ctx { generation = t.generation; recv_done_desc = none; sendv_desc = none }

-- `desc->argb += len`
pub add_len : ℕ → ℕ → List BsysDesc → List BsysDesc
add_len i len [] = []
add_len zero len (tcp_recv_done h n ∷ ds) = tcp_recv_done h (add64 n len) ∷ ds
add_len zero len (d ∷ ds) = d ∷ ds
add_len (suc i) len (d ∷ ds) = d ∷ add_len i len ds

-- `__ixev_recv_done` after the check of the generation
pub recv_done_with : ℕ → IxevCtx → Thread → Option State
recv_done_with len ctx t = elim ctx.recv_done_desc [
  | none ↦ next_desc (tcp_recv_done ctx.handle len) t >>= λ r.
      some (record ctx { recv_done_desc = some r.0 }, r.1)
  | some i ↦ some (ctx, record t { descs = add_len i len t.descs })
]

pub ixev_recv_done : ℕ → State → Option State
ixev_recv_done len s = recv_done_with len (ixev_check_generation s.1 s.0) s.1

pub put : (ℕ → SgEntry) → ℕ → SgEntry → ℕ → SgEntry
put recv pos ent i = if i == pos then ent else recv i

-- `ixev_tcp_recv`. The indices are of type `uint16_t`, and the guard computes in `int`.
pub ixev_tcp_recv : ℕ → ℕ → IxevCtx → Option IxevCtx
ixev_tcp_recv addr len ctx =
    if leb (ctx.recv_head + ixev_recv_depth) (ctx.recv_tail + 1)
    then none
    else some (
        raise ixevin (record ctx {
          recv = put ctx.recv (ctx.recv_tail % ixev_recv_depth) (record { base = addr; len = len });
          recv_tail = (ctx.recv_tail + 1) % 2 ^ 16;
        }))

-- the `n` bytes from `base` on, as the memory is
pub bytes : (ℕ → ℕ) → ℕ → ℕ → List ℕ
bytes mem base zero = []
bytes mem base (suc n) = mem base ∷ bytes mem (base + 1) n

-- The loop of `ixev_recv`, on fuel, with `left` bytes of room: the bytes copied.
pub recv_loop : (ℕ → ℕ) → ℕ → ℕ → IxevCtx → Option (List ℕ × IxevCtx)
recv_loop mem zero left ctx = none
recv_loop mem (suc n) left ctx =
    let ent = ctx.recv (ctx.recv_head % ixev_recv_depth) in
    let rest =
      recv_loop mem n (left - ent.len) (record ctx { recv_head = (ctx.recv_head + 1) % 2 ^ 16 }) in
    if ctx.recv_head == ctx.recv_tail
    then some ([], ctx)
    else if left == 0
    then some ([], ctx)
    else if leb ent.len left
    then (rest >>= λ r. some (bytes mem ent.base ent.len ++ r.0, r.1))
    else some (
      bytes mem ent.base left,
      record ctx {
        recv =
            put ctx.recv (ctx.recv_head % ixev_recv_depth)
              (record { base = ent.base + left; len = ent.len - left });
      },
    )

-- the entries from `recv_head` up to `recv_tail`
abbrev pub unread_count : IxevCtx → ℕ
unread_count ctx = (ctx.recv_tail + 2 ^ 16 - ctx.recv_head) % 2 ^ 16

abbrev pub eio : ℕ
eio = 5

abbrev pub eagain : ℕ
eagain = 11

-- a result: an error number, or the bytes read
pub data RecvResult : Type 0 where
  failed : ℕ → RecvResult
  received : List ℕ → RecvResult

-- what follows the loop in `ixev_recv`
pub recv_finish : List ℕ → State → Option (RecvResult × State)
recv_finish [] s = some (failed eagain, s)
recv_finish (b ∷ bs) s = ixev_recv_done (length (b ∷ bs)) s >>= λ s'. some (received (b ∷ bs), s')

-- `ixev_recv`; the loop ends when no entry is left, so that many steps are enough.
pub ixev_recv : (ℕ → ℕ) → ℕ → State → Option (RecvResult × State)
ixev_recv mem len s =
    if s.0.is_dead
    then some (failed eio, s)
    else (recv_loop mem (suc (unread_count s.0)) len s.0 >>= λ r. recv_finish r.0 (r.1, s.1))

-- the context that `ixev_recv_zc` leaves, of which `ent` is the entry at the head
pub take_zc : ℕ → SgEntry → IxevCtx → IxevCtx
take_zc len ent ctx = record ctx {
  recv =
      put ctx.recv (ctx.recv_head % ixev_recv_depth)
        (record { base = ent.base + len; len = ent.len - len });
  recv_head = if ent.len == len then (ctx.recv_head + 1) % 2 ^ 16 else ctx.recv_head;
}

-- `ixev_recv_zc`: the address, or `none` for a null pointer
pub ixev_recv_zc : ℕ → State → Option (Option ℕ × State)
ixev_recv_zc len s =
    let ent = s.0.recv (s.0.recv_head % ixev_recv_depth) in
    let done = ixev_recv_done len (take_zc len ent s.0, s.1) >>= λ s'. some (some ent.base, s') in
    if s.0.is_dead then some (none, s) else if ltb ent.len len then some (none, s) else done
