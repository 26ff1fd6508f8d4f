-- ===== src/Ixev/Ring.antt =====
-- libix/ixev.c: the ring of received entries, read as one stream of bytes.
use ix.Base.{
  ℕ, zero, suc, ◌+◌, ◌%◌, ◌^◌, ◌≤◌, ◌<◌, ◌≡◌, ◌≢◌, refl, ap, false, List, [], ◌∷◌, ◌++◌, arith,
  ◌==◌, length, ==-refl,
}
use mathlib.Core.List.{append_assoc, append-nil}
use ix.Ixev.{IxevCtx, SgEntry, ixev_recv_depth, put, bytes}

-- The bytes of `n` entries, from that at `head` on.
abbrev pub unread : (ℕ → ℕ) → (ℕ → SgEntry) → ℕ → ℕ → List ℕ
unread mem recv head zero = []
unread mem recv head (suc n) =
    bytes mem (recv (head % ixev_recv_depth)).base (recv (head % ixev_recv_depth)).len
    ++ unread mem recv (head + 1) n

-- `n` entries are unread, and the ring has room for them.
pub record IsRing (n : ℕ) (ctx : IxevCtx) : Type 0 where
  pub few : n ≤ ixev_recv_depth
  pub small : ctx.recv_head < 2 ^ 16
  pub tail : ctx.recv_tail ≡ (ctx.recv_head + n) % 2 ^ 16

pub length-bytes : (mem : ℕ → ℕ) (base n : ℕ) → length (bytes mem base n) ≡ n
unfolding bytes
length-bytes mem base zero = refl
length-bytes mem base (suc n) = ap suc (length-bytes mem (base + 1) n)

pub bytes_split :
    (mem : ℕ → ℕ) (base k n : ℕ)
    → bytes mem base (k + n) ≡ bytes mem base k ++ bytes mem (base + k) n
unfolding bytes
bytes_split mem base zero n =
    let e : base + 0 ≡ base = omega arith in let e' : 0 + n ≡ n = omega arith in rw (e, e') refl
bytes_split mem base (suc k) n =
    let e : suc k + n ≡ suc (k + n) = omega arith in
    let e' : base + suc k ≡ base + 1 + k = omega arith in
    rw (e, e') (ap (λ l. mem base ∷ l) (bytes_split mem (base + 1) k n))

pub unread_cong :
    (mem : ℕ → ℕ) (recv : ℕ → SgEntry) (h h' n : ℕ)
    → h % 128 ≡ h' % 128
    → unread mem recv h n ≡ unread mem recv h' n
unread_cong mem recv h h' zero e = refl
unread_cong mem recv h h' (suc n) e =
    rw (e, unread_cong mem recv (h + 1) (h' + 1) n (omega arith)) refl

pub unread-put :
    (mem : ℕ → ℕ) (recv : ℕ → SgEntry) (h n pos : ℕ) (ent : SgEntry)
    → ((k : ℕ) → k < n → (h + k) % 128 ≢ pos)
    → unread mem (put recv pos ent) h n ≡ unread mem recv h n
unfolding put
unread-put mem recv h zero pos ent away = refl
unread-put mem recv h (suc n) pos ent away =
    let first : ((h % 128) == pos) ≡ false = ground (arith, away 0) in
    let later =
      unread-put mem recv (h + 1) n pos ent
        (λ k small. λ e. away (suc k) (omega arith) (omega (arith, e))) in
    rw (first, later) refl

pub put_self : (recv : ℕ → SgEntry) (pos : ℕ) (ent : SgEntry) → put recv pos ent pos ≡ ent
unfolding put
put_self recv pos ent = rw (==-refl pos) refl

pub unread-last :
    (mem : ℕ → ℕ) (recv : ℕ → SgEntry) (h n : ℕ)
    → unread mem recv h (suc n)
      ≡ unread mem recv h n ++ bytes mem (recv ((h + n) % 128)).base (recv ((h + n) % 128)).len
unread-last mem recv h zero = let e : h + 0 ≡ h = omega arith in rw e (append-nil _)
unread-last mem recv h (suc n) =
    let e : h + suc n ≡ h + 1 + n = omega arith in
    rw (e, unread-last mem recv (h + 1) n, append_assoc) refl
