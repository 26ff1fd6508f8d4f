-- ===== src/Ixev/Stream.antt =====
-- libix/ixev.c: packets and reads in any order, against a queue of bytes.
use ix.Base.{
  ℕ, zero, suc, ◌+◌, ◌≤◌, ◌<◌, ◌≡◌, refl, sym, ap, ◌∙◌, false, Option, some, List, [], ◌∷◌, ◌++◌,
  arith, ◌>>=◌, length, length-append, take, drop, add64,
}
use mathlib.Core.Path.{subst}
use ix.Ixev.{IxevCtx, Thread, State, bytes, ixev_tcp_recv, ixev_recv, RecvResult, failed, received}
use ix.Ixev.Ring.{IsRing}
use ix.Ixev.Credit.{credit, credit_small, HasDesc}
use ix.Ixev.Recv.{stream, at_most, result_of, Arrives, ixev_tcp_recv-Arrives, ixev_recv_lem}

-- What happens to a connection: a packet comes, or the application reads into a buffer.
pub data Op : Type 0 where
  arrive : ℕ → ℕ → Op
  read : ℕ → Op

abbrev data_of : RecvResult → List ℕ
data_of (failed e) = []
data_of (received bs) = bs

-- the calls of the library, with all that the application was given
unfoldable pub run : (ℕ → ℕ) → List Op → State → Option (List ℕ × State)
run mem [] s = some ([], s)
run mem (arrive addr len ∷ ops) s = ixev_tcp_recv addr len s.0 >>= λ ctx. run mem ops (ctx, s.1)
run mem (read len ∷ ops) s =
    ixev_recv mem len s >>= λ r. run mem ops r.1 >>= λ later. some (data_of r.0 ++ later.0, later.1)

-- the same on a queue of bytes: what is taken out of it, and what is left
unfoldable pub replay : (ℕ → ℕ) → List Op → List ℕ → List ℕ × List ℕ
replay mem [] queue = ([], queue)
replay mem (arrive addr len ∷ ops) queue = replay mem ops (queue ++ bytes mem addr len)
replay mem (read len ∷ ops) queue =
    let later = replay mem ops (drop len queue) in (take len queue ++ later.0, later.1)

abbrev pub arrivals : List Op → ℕ
arrivals [] = 0
arrivals (arrive addr len ∷ ops) = suc (arrivals ops)
arrivals (read len ∷ ops) = arrivals ops

abbrev pub reads : List Op → ℕ
reads [] = 0
reads (arrive addr len ∷ ops) = reads ops
reads (read len ∷ ops) = suc (reads ops)

cut :
    (xs ys : List ℕ) (k : ℕ)
    → length xs ≡ at_most k (xs ++ ys)
    → (take k (xs ++ ys) ≡ xs) × (drop k (xs ++ ys) ≡ ys)
cut [] ys zero h = (refl, refl)
cut [] [] (suc k) h = (refl, refl)
cut [] (y ∷ ys) (suc k) h = absurd (ground arith)
cut (x ∷ xs) ys zero h = absurd (ground arith)
cut (x ∷ xs) ys (suc k) h = let (t, d) = cut xs ys k (ground arith) in (ap (λ l. x ∷ l) t, d)

cut_of :
    (xs ys zs : List ℕ) (k : ℕ)
    → xs ++ ys ≡ zs
    → length xs ≡ at_most k zs
    → (take k zs ≡ xs) × (drop k zs ≡ ys)
cut_of xs ys zs k e h = rw (← e) (cut xs ys k (rw e h))

data-result_of : (bs : List ℕ) → data_of (result_of bs) ≡ bs
data-result_of [] = refl
data-result_of (b ∷ bs) = refl

module _ {mem : ℕ → ℕ} {addr len n : ℕ} {a b : IxevCtx} (is : Arrives mem addr len n a b) where
  Arrives-handle : b.handle ≡ a.handle
  Arrives-handle = rw is.same refl

  Arrives-alive : b.is_dead ≡ a.is_dead
  Arrives-alive = rw is.same refl

  Arrives-HasDesc : (t : Thread) → HasDesc (a, t) → HasDesc (b, t)
  Arrives-HasDesc t has = rw is.same has

run_lem :
    (mem : ℕ → ℕ) (ops : List Op) (n : ℕ) (s : State) (q : List ℕ)
    → stream mem n s.0 ≡ q
    → s.0.is_dead ≡ false
    → IsRing n s.0
    → HasDesc s
    → n + arrivals ops ≤ 127
    → length s.1.descs + reads ops < s.1.max_len
    → (t : State) × (n' : ℕ) × (run mem ops s ≡ some ((replay mem ops q).0, t))
      × (stream mem n' t.0 ≡ (replay mem ops q).1)
      × (credit s.0.handle t.1.descs
          ≡ add64 (credit s.0.handle s.1.descs) (length (replay mem ops q).0))
unfolding run replay
run_lem mem [] n s q e live ring has fits room =
    (s, n, refl, e, sym (credit_small s.0.handle s.1.descs))
run_lem mem (arrive addr len ∷ ops) n s q e live ring has fits room =
    let (ctx, done, is) = ixev_tcp_recv-Arrives mem addr len n s.0 ring (omega arith) in
    let (t, n', ran, left, given) =
      run_lem mem ops (suc n) (ctx, s.1) (q ++ bytes mem addr len)
        (is.appended ∙ ap (λ l. l ++ bytes mem addr len) e) (Arrives-alive is ∙ live) is.ring
        (Arrives-HasDesc is s.1 has) (omega arith) room in
    let queue = (replay mem ops (q ++ bytes mem addr len)).0 in
    (
      t,
      n',
      rw done ran,
      left,
      subst (λ h. credit h t.1.descs ≡ add64 (credit h s.1.descs) (length queue))
          (Arrives-handle is) given,
    )
run_lem mem (read len ∷ ops) n s q e live ring has fits room =
    let (got, t, done, reads, full) = ixev_recv_lem mem len n s live ring has (omega arith) in
    let (front, rest) =
      cut_of got (stream mem reads.count t.0) q len (reads.bytes_left ∙ e)
        (full ∙ ap (at_most len) e) in
    let (t', n', ran, left, given) =
      run_lem mem ops reads.count t (drop len q) (sym rest) (reads.alive ∙ live) reads.ring
        reads.desc (omega (arith, reads.fewer)) (omega (arith, reads.one_more, reads.same_max)) in
    let later = (replay mem ops (drop len q)).0 in
    let total : credit s.0.handle t'.1.descs ≡ add64 (credit s.0.handle t.1.descs) (length later) =
      subst (λ h. credit h t'.1.descs ≡ add64 (credit h t.1.descs) (length later)) reads.same_handle
        given in
    (
      t',
      n',
      rw (done, ran, front, data-result_of got) refl,
      left,
      rw front (omega (arith, total, reads.given, length-append got later)),
    )

-- From a live connection with `n` packets unread, any packets and reads in any order, no more than
-- fit the ring and the batch of system calls, give the application what the same operations take
-- out of a queue of the bytes that wait, leave waiting what they leave in the queue, and give back
-- to the kernel as many bytes as the application got. The memory of the packets does not change.
pub run_refines :
    (mem : ℕ → ℕ) (ops : List Op) (n : ℕ) (s : State)
    → s.0.is_dead ≡ false
    → IsRing n s.0
    → HasDesc s
    → n + arrivals ops ≤ 127
    → length s.1.descs + reads ops < s.1.max_len
    → (t : State) × (n' : ℕ) × (run mem ops s ≡ some ((replay mem ops (stream mem n s.0)).0, t))
      × (stream mem n' t.0 ≡ (replay mem ops (stream mem n s.0)).1)
      × (credit s.0.handle t.1.descs
          ≡ add64 (credit s.0.handle s.1.descs) (length (replay mem ops (stream mem n s.0)).0))
run_refines mem ops n s = run_lem mem ops n s (stream mem n s.0) refl
