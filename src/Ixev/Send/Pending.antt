-- ===== src/Ixev/Send/Pending.antt =====
-- libix/ixev.c: the bytes that the kernel has not taken yet, and what it takes of them.
use ix.Base.{
  ℕ, zero, suc, ◌+◌, ◌-◌, ◌≤◌, ◌≡◌, refl, sym, ◌∙◌, some, List, [], ◌∷◌, ◌++◌, arith, ltb, length,
  Bool-cases, inl, inr, drop,
}
use ix.Ixev.{IxevCtx, SgEntry, bytes}
use ix.Ixev.Send.{shift_sends, ixev_handle_sendv_ret}

-- the bytes of the entries, in their order
abbrev pub pending : (ℕ → ℕ) → List SgEntry → List ℕ
pending mem [] = []
pending mem (e ∷ es) = bytes mem e.base e.len ++ pending mem es

-- how many they are
abbrev pub pending_len : List SgEntry → ℕ
pending_len [] = 0
pending_len (e ∷ es) = e.len + pending_len es

drop-bytes :
    (mem : ℕ → ℕ) (base len k : ℕ) (ys : List ℕ)
    → len ≤ k
    → drop k (bytes mem base len ++ ys) ≡ drop (k - len) ys
unfolding bytes
drop-bytes mem base zero k ys h = let e : k - 0 ≡ k = omega arith in rw e refl
drop-bytes mem base (suc n) zero ys h = absurd (omega arith)
drop-bytes mem base (suc n) (suc k) ys h =
    let e : suc k - suc n ≡ k - n = omega arith in
    rw e (drop-bytes mem (base + 1) n k ys (omega arith))

drop_part :
    (mem : ℕ → ℕ) (base len k : ℕ) (ys : List ℕ)
    → k ≤ len
    → drop k (bytes mem base len ++ ys) ≡ bytes mem (base + k) (len - k) ++ ys
unfolding bytes
drop_part mem base len zero ys h =
    let e : base + 0 ≡ base = omega arith in let e' : len - 0 ≡ len = omega arith in rw (e, e') refl
drop_part mem base zero (suc k) ys h = absurd (omega arith)
drop_part mem base (suc len) (suc k) ys h =
    let e : base + suc k ≡ base + 1 + k = omega arith in
    let e' : suc len - suc k ≡ len - k = omega arith in
    rw (e, e') (drop_part mem (base + 1) len k ys (omega arith))

pub pending-shift_sends :
    (mem : ℕ → ℕ) (ret : ℕ) (es : List SgEntry)
    → pending mem (shift_sends ret es) ≡ drop ret (pending mem es)
unfolding shift_sends
pending-shift_sends mem zero [] = refl
pending-shift_sends mem (suc ret) [] = refl
pending-shift_sends mem ret (e ∷ es) = elim (Bool-cases (ltb ret e.len)) [
  | inl part ↦ rw part (sym (drop_part mem e.base e.len ret (pending mem es) (ground arith)))
  | inr whole ↦ rw whole (
      pending-shift_sends mem (ret - e.len) es
      ∙ sym (drop-bytes mem e.base e.len ret (pending mem es) (ground arith)))
]

pub pending_len-shift_sends :
    (ret : ℕ) (es : List SgEntry) → pending_len (shift_sends ret es) ≡ pending_len es - ret
unfolding shift_sends
pending_len-shift_sends ret [] = omega arith
pending_len-shift_sends ret (e ∷ es) = ground (arith, pending_len-shift_sends (ret - e.len) es)

pub length-shift_sends : (ret : ℕ) (es : List SgEntry) → length (shift_sends ret es) ≤ length es
unfolding shift_sends
length-shift_sends ret [] = omega arith
length-shift_sends ret (e ∷ es) = ground (arith, length-shift_sends (ret - e.len) es)

-- When the kernel has taken `ret` bytes, those that are still to be sent are the same but for the
-- first `ret`, in the same order, in no more entries than before.
pub ixev_handle_sendv_ret_lem :
    (mem : ℕ → ℕ) (ret : ℕ) (ctx : IxevCtx)
    → (pending mem (ixev_handle_sendv_ret (some ret) ctx).send ≡ drop ret (pending mem ctx.send))
      × (length (ixev_handle_sendv_ret (some ret) ctx).send ≤ length ctx.send)
unfolding ixev_handle_sendv_ret
ixev_handle_sendv_ret_lem mem ret ctx =
    (pending-shift_sends mem ret ctx.send, length-shift_sends ret ctx.send)
