-- ===== src/Net/Udp/Held.antt =====
-- dp/net/udp.c: the buffers that the user holds and gives back.
use ix.Base.{
  ℕ, ◌+◌, ◌-◌, ◌*◌, ◌≤◌, ◌<◌, not, ◌∷◌, ◌≡◌, ◌≢◌, ap, ◌∙◌, ==-refl, if◌then◌else◌, if_true,
  if_false, ◌==◌, arith,
}
use ix.Net.{udp_held}
use ix.Net.Udp.{Receiver, bsys_udp_recv_done, mbuf_at, ret_inval, recv_done_at}

-- Every pointer into an mbuf of a page finds it: `MBUF_LEN` bytes that do not cross the end of the page.
mbuf_at_lem :
    (page i x : ℕ)
    → x < 2112
    → i * 2112 + 2112 ≤ 2097152
    → mbuf_at (page * 2097152 + i * 2112 + x) ≡ page * 2097152 + i * 2112
mbuf_at_lem page i x hx hi = omega arith

-- Giving back a buffer that the user holds, by any pointer into it: exactly its mbuf is freed, the marks
-- of the others stay, and giving it back a second time, by any pointer into it, is refused.
pub bsys_udp_recv_done_lem :
    (off page i x y : ℕ) (s : Receiver)
    → x < 2112
    → y < 2112
    → i * 2112 + 2112 ≤ 2097152
    → s.marks (page * 2097152 + i * 2112) ≡ udp_held
    → let m = page * 2097152 + i * 2112 in
      let r = bsys_udp_recv_done off (off + (m + x)) s in
      (r.0 ≡ 0)
      × (r.1.free ≡ m ∷ s.free)
      × ((n : ℕ) → n ≢ m → r.1.marks n ≡ s.marks n)
      × (bsys_udp_recv_done off (off + (m + y)) r.1 ≡ (ret_inval, r.1))
unfolding bsys_udp_recv_done
bsys_udp_recv_done_lem off page i x y s hx hy hi h =
    let m = page * 2097152 + i * 2112 in
    let at_x = found off page i x hx hi in
    let at_y = found off page i y hy hi in
    let t : ℕ × Receiver =
      (0, record s { marks = λ n. if n == m then 0 else s.marks n; free = m ∷ s.free }) in
    let e : bsys_udp_recv_done off (off + (m + x)) s ≡ t =
      ap (λ k. recv_done_at k s) at_x ∙ if_false _ _ (ap (λ n. not (n == udp_held)) h) in
    (
      ap (λ r. r.0) e,
      ap (λ r. r.1.free) e,
      λ n ne. ap (λ r. r.1.marks n) e ∙ if_false {b = n == m} _ _ (ground arith),
      ap (λ k. recv_done_at k (bsys_udp_recv_done off (off + (m + x)) s).1) at_y
          ∙ if_true _ _ (
              ap (λ r. not (r.1.marks m == udp_held)) e
              ∙ ap (λ n. not (n == udp_held)) (if_true _ _ (==-refl m))),
    )
  where
    found :
        (off page i x : ℕ)
        → x < 2112
        → i * 2112 + 2112 ≤ 2097152
        → mbuf_at (off + (page * 2097152 + i * 2112 + x) - off) ≡ page * 2097152 + i * 2112
    found off page i x hx hi =
        ap mbuf_at (back off (page * 2097152 + i * 2112 + x)) ∙ mbuf_at_lem page i x hx hi
      where
        back : (a b : ℕ) → a + b - a ≡ b
        back a b = omega arith
