-- ===== src/Ixev/Tests.antt =====
-- The connection: tests, and the theorems at small connections.
use ix.Base.{
  ℕ, ◌%◌, ◌≡◌, ◌≤◌, inl, refl, true, false, none, some, List, [], ◌∷◌, arith, add64, length, drop,
}
use ix.Ixev.{
  IxevCtx, IxevBuf, Thread, State, bytes, ixev_ctx_init, ixev_tcp_recv, ixev_recv, ixev_recv_zc,
  unread_count,
}
use ix.Ixev.Credit.{credit}
use ix.Ixev.Recv.{stream, at_most, result_of, Reads, ixev_recv_lem, ixev_tcp_recv-overwrites}
use ix.Ixev.ZeroCopy.{ixev_recv_zc_lem, ixev_recv_zc-stale}
use ix.Ixev.Stream.{arrive, read, run, replay, run_refines}
use ix.Ixev.Send.{Copy, ixev_send, ixev_handle_sendv_ret}
use ix.Ixev.Send.Pending.{pending, ixev_handle_sendv_ret_lem}
use ix.Ixev.Send.Window.{Takes, sent_result, ixev_send_lem}
use ix.Ixev.Send.Flow.{here, next, taken, IsFlow, Reach-IsFlow}

-- the `a`-th byte of the memory is `a`
abbrev mem : ℕ → ℕ
mem a = a % 256

abbrev blank : IxevCtx
blank = record {
  handle = 9;
  generation = 0;
  en_mask = 0;
  trig_mask = 0;
  recv_head = 0;
  recv_tail = 0;
  is_dead = false;
  send_total = 0;
  sent_total = 0;
  refs = [];
  cur_buf = none;
  recv_done_desc = none;
  sendv_desc = none;
  recv = λ i. record { base = 40; len = 3 };
  send = [];
  handled = [];
  freed = [];
}

abbrev thread : Thread
thread = record { generation = 1; descs = []; max_len = 10000 }

-- a new connection is one with nothing to read or to send
init_test : ixev_ctx_init (record blank { recv_tail = 7; is_dead = true }) ≡ blank
unfolding ixev_ctx_init
init_test = refl

abbrev one_packet : State
one_packet = (record blank { recv_tail = 1 }, thread)

run_refines_example :
    (t : State) × (n : ℕ) × (run mem (arrive 20 2 ∷ read 4 ∷ []) one_packet
      ≡ some ((replay mem (arrive 20 2 ∷ read 4 ∷ []) (stream mem 1 one_packet.0)).0, t))
    × (stream mem n t.0 ≡ (replay mem (arrive 20 2 ∷ read 4 ∷ []) (stream mem 1 one_packet.0)).1)
    × (credit 9 t.1.descs
        ≡ add64 0 (length (replay mem (arrive 20 2 ∷ read 4 ∷ []) (stream mem 1 one_packet.0)).0))
run_refines_example =
    run_refines mem (arrive 20 2 ∷ read 4 ∷ []) 1 one_packet refl
      (record { few = omega arith; small = omega arith; tail = refl }) (λ g. tt) (omega arith)
      (omega arith)

-- what the queue of bytes gives
replay_test :
    replay mem (arrive 20 2 ∷ read 4 ∷ []) (40 ∷ 41 ∷ 42 ∷ []) ≡ (40 ∷ 41 ∷ 42 ∷ 20 ∷ [], 21 ∷ [])
unfolding replay bytes
replay_test = refl

ixev_recv_lem_example :
    (got : List ℕ) × (t : State) × (ixev_recv mem 2 one_packet ≡ some (result_of got, t))
    × Reads mem 1 one_packet got t
    × (length got ≡ at_most 2 (stream mem 1 one_packet.0))
ixev_recv_lem_example =
    ixev_recv_lem mem 2 1 one_packet refl
      (record { few = omega arith; small = omega arith; tail = refl }) (λ g. tt) (omega arith)

abbrev wrapped : IxevCtx
wrapped = record blank { recv_head = 65500; recv_tail = 92 }

ixev_tcp_recv-overwrites_example :
    (ctx : IxevCtx) × (ixev_tcp_recv 500 60 wrapped ≡ some ctx)
    × (ctx.recv 92 ≡ record { base = 500; len = 60 })
    × (ctx.recv_head ≡ 65500)
ixev_tcp_recv-overwrites_example =
    ixev_tcp_recv-overwrites 500 60 wrapped
      (record { few = omega arith; small = omega arith; tail = refl }) (omega arith)

ixev_recv_zc_lem_example :
    (t : State) × (ixev_recv_zc 3 one_packet ≡ some (some 40, t))
    × Reads mem 1 one_packet (bytes mem 40 3) t
ixev_recv_zc_lem_example =
    ixev_recv_zc_lem mem 3 0 one_packet refl
      (record { few = omega arith; small = omega arith; tail = refl }) (omega arith) (λ g. tt)
      (omega arith)

ixev_recv_zc-stale_example :
    (t : State) × (ixev_recv_zc 3 (blank, thread) ≡ some (some 40, t)) × (unread_count t.0 ≡ 65535)
ixev_recv_zc-stale_example =
    ixev_recv_zc-stale 3 (blank, thread) refl
      (record { few = omega arith; small = omega arith; tail = refl }) refl (λ g. tt) (omega arith)

abbrev buf : IxevBuf
buf = record { ref = 1; payload = 4096; len = 0 }

ixev_send_lem_example :
    (n : ℕ) × (cs : List Copy) × (t : State) × (ixev_send (buf ∷ []) 300 10 (blank, thread)
      ≡ some ((sent_result n, cs), t))
    × Takes (buf ∷ []) 300 10 0 (blank, thread) n cs t
ixev_send_lem_example =
    ixev_send_lem (buf ∷ []) 300 10 0 (blank, thread) refl
      (record { few = omega arith; window = omega arith; total = refl }) (inl (omega arith))

abbrev sending : IxevCtx
sending = record blank {
  send = record { base = 300; len = 10 } ∷ record { base = 600; len = 5 } ∷ [];
  send_total = 15;
}

ixev_handle_sendv_ret_lem_example :
    (pending mem (ixev_handle_sendv_ret (some 12) sending).send
      ≡ drop 12 (pending mem sending.send))
    × (length (ixev_handle_sendv_ret (some 12) sending).send ≤ 2)
ixev_handle_sendv_ret_lem_example = ixev_handle_sendv_ret_lem mem 12 sending

Reach-IsFlow_example : IsFlow (12, (ixev_handle_sendv_ret (some 12) sending, thread))
Reach-IsFlow_example =
    Reach-IsFlow (next here (taken {k = 0} {s = (sending, thread)} 12 (omega arith)))
      (record { few = omega arith; window = omega arith; total = refl })
