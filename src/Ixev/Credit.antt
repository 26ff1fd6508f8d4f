-- ===== src/Ixev/Credit.antt =====
-- libix/ixev.c: `__ixev_recv_done`, the bytes given back to the kernel.
use ix.Base.{
  ℕ, zero, suc, ◌+◌, ◌≤◌, ◌<◌, ◌≡◌, inl, inr, refl, ap, false, Option, none, some, List, [], ◌∷◌,
  ◌++◌, arith, leb, ◌==◌, if◌then◌else◌, length, length-append, Bool-cases, ==-refl, add64, AllSome,
}
use mathlib.Core.Path.{subst}
use ix.Ixev.{
  IxevCtx, Thread, State, BsysDesc, tcp_recv_done, tcp_sendv, tcp_close, ixev_recv_done,
  recv_done_with, ixev_check_generation, next_desc, add_len,
}

-- The bytes that the calls of `descs` give back to the kernel for a connection.
abbrev pub credit : ℕ → List BsysDesc → ℕ
credit handle [] = 0
credit handle (tcp_recv_done h n ∷ ds) =
    if h == handle then add64 n (credit handle ds) else credit handle ds
credit handle (_ ∷ ds) = credit handle ds

-- The `i`-th call gives back bytes for the connection.
abbrev pub IsDoneAt : ℕ → ℕ → List BsysDesc → Type 0
IsDoneAt handle zero (tcp_recv_done h n ∷ ds) = h ≡ handle
IsDoneAt handle (suc i) (d ∷ ds) = IsDoneAt handle i ds
IsDoneAt _ _ _ = ⊥

-- The descriptor that the context keeps, if it is of this generation, is one of its own.
abbrev pub HasDesc : State → Type 0
HasDesc s =
    s.0.generation ≡ s.1.generation
    → AllSome (λ i. IsDoneAt s.0.handle i s.1.descs) s.0.recv_done_desc

abbrev pub HasRoom : State → Type 0
HasRoom s = length s.1.descs + 1 < s.1.max_len

-- What `__ixev_recv_done` comes to.
pub record IsDone (len : ℕ) (s t : State) : Type 0 where
  pub same_head : t.0.recv_head ≡ s.0.recv_head
  pub same_tail : t.0.recv_tail ≡ s.0.recv_tail
  pub same_recv : t.0.recv ≡ s.0.recv
  pub same_handle : t.0.handle ≡ s.0.handle
  pub alive : t.0.is_dead ≡ s.0.is_dead
  pub one_more : length t.1.descs ≤ length s.1.descs + 1
  pub same_max : t.1.max_len ≡ s.1.max_len
  pub desc : HasDesc t
  pub given : credit s.0.handle t.1.descs ≡ add64 (credit s.0.handle s.1.descs) len

pub credit_small : (handle : ℕ) (ds : List BsysDesc) → add64 (credit handle ds) 0 ≡ credit handle ds
credit_small handle [] = refl
credit_small handle (tcp_recv_done h n ∷ ds) = ground (arith, credit_small handle ds)
credit_small handle (d ∷ ds) = credit_small handle ds

credit-last :
    (handle len : ℕ) (ds : List BsysDesc)
    → credit handle (ds ++ (tcp_recv_done handle len ∷ [])) ≡ add64 (credit handle ds) len
credit-last handle len [] = rw (==-refl handle) (omega arith)
credit-last handle len (tcp_recv_done h n ∷ ds) = ground (arith, credit-last handle len ds)
credit-last handle len (d ∷ ds) = credit-last handle len ds

credit-add_len :
    (handle len i : ℕ) (ds : List BsysDesc)
    → IsDoneAt handle i ds
    → credit handle (add_len i len ds) ≡ add64 (credit handle ds) len
unfolding add_len
credit-add_len handle len zero (tcp_recv_done h n ∷ ds) is = ground arith
credit-add_len handle len (suc i) (tcp_recv_done h n ∷ ds) is =
    ground (arith, credit-add_len handle len i ds is)
credit-add_len handle len (suc i) (d ∷ ds) is = credit-add_len handle len i ds is
credit-add_len _ _ _ _ is = absurd is

IsDoneAt-last :
    (handle len : ℕ) (ds : List BsysDesc)
    → IsDoneAt handle (length ds) (ds ++ (tcp_recv_done handle len ∷ []))
IsDoneAt-last handle len [] = refl
IsDoneAt-last handle len (d ∷ ds) = IsDoneAt-last handle len ds

IsDoneAt-add_len :
    (handle len i : ℕ) (ds : List BsysDesc)
    → IsDoneAt handle i ds
    → IsDoneAt handle i (add_len i len ds)
unfolding add_len
IsDoneAt-add_len handle len zero (tcp_recv_done h n ∷ ds) is = is
IsDoneAt-add_len handle len (suc i) (d ∷ ds) is = IsDoneAt-add_len handle len i ds is
IsDoneAt-add_len _ _ _ _ is = absurd is

length-add_len : (i len : ℕ) (ds : List BsysDesc) → length (add_len i len ds) ≡ length ds
unfolding add_len
length-add_len i len [] = refl
length-add_len zero len (tcp_recv_done h n ∷ ds) = refl
length-add_len zero len (tcp_sendv h n ∷ ds) = refl
length-add_len zero len (tcp_close h ∷ ds) = refl
length-add_len (suc i) len (d ∷ ds) = ap suc (length-add_len i len ds)

recv_done_with-IsDone :
    (len : ℕ) (ctx : IxevCtx) (t : Thread)
    → ctx.generation ≡ t.generation
    → AllSome (λ i. IsDoneAt ctx.handle i t.descs) ctx.recv_done_desc
    → HasRoom (ctx, t)
    → (d : Option ℕ) → ctx.recv_done_desc ≡ d
    → (s : State) × (recv_done_with len ctx t ≡ some s) × IsDone len (ctx, t) s
unfolding recv_done_with next_desc
recv_done_with-IsDone len ctx t same has room none e =
    let free : leb t.max_len (length t.descs + 1) ≡ false = ground arith in
    (
      (
        record ctx { recv_done_desc = some (length t.descs) },
        record t { descs = t.descs ++ (tcp_recv_done ctx.handle len ∷ []) },
      ),
      rw (e, free) refl,
      record {
        same_head = refl;
        same_tail = refl;
        same_recv = refl;
        same_handle = refl;
        alive = refl;
        one_more = omega (arith, length-append t.descs (tcp_recv_done ctx.handle len ∷ []));
        same_max = refl;
        desc = λ g. IsDoneAt-last ctx.handle len t.descs;
        given = credit-last ctx.handle len t.descs;
      },
    )
recv_done_with-IsDone len ctx t same has room (some i) e =
    let has' : AllSome (λ i. IsDoneAt ctx.handle i t.descs) (some i) =
      subst (AllSome (λ i. IsDoneAt ctx.handle i t.descs)) e has in
    (
      (ctx, record t { descs = add_len i len t.descs }),
      rw e refl,
      record {
        same_head = refl;
        same_tail = refl;
        same_recv = refl;
        same_handle = refl;
        alive = refl;
        one_more = omega (arith, length-add_len i len t.descs);
        same_max = refl;
        desc = λ g. rw e (IsDoneAt-add_len ctx.handle len i t.descs has');
        given = credit-add_len ctx.handle len i t.descs has';
      },
    )

pub ixev_recv_done-IsDone :
    (len : ℕ) (s : State)
    → HasDesc s
    → HasRoom s
    → (s' : State) × (ixev_recv_done len s ≡ some s') × IsDone len s s'
unfolding ixev_recv_done ixev_check_generation
ixev_recv_done-IsDone len (ctx, t) has room = elim (Bool-cases (t.generation == ctx.generation)) [
  | inl same ↦
      let e : ctx.generation ≡ t.generation = ground arith in
      rw same (recv_done_with-IsDone len ctx t e (has e) room ctx.recv_done_desc refl)
  | inr other ↦
      let ctx' : IxevCtx = record ctx {
        generation = t.generation;
        recv_done_desc = none;
        sendv_desc = none;
      } in
      let (s', done, is) = recv_done_with-IsDone len ctx' t refl tt room none refl in
      (
        s',
        rw other done,
        record {
          same_head = is.same_head;
          same_tail = is.same_tail;
          same_recv = is.same_recv;
          same_handle = is.same_handle;
          alive = is.alive;
          one_more = is.one_more;
          same_max = is.same_max;
          desc = is.desc;
          given = is.given;
        },
      )
]
