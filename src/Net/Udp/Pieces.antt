-- ===== src/Net/Udp/Pieces.antt =====
-- dp/net/udp.c: the scatter-gather array of `bsys_udp_send`.
use ix.Base.{
  ℕ, ◌+◌, ◌-◌, ◌/◌, ◌%◌, ◌^◌, ◌≤◌, ◌<◌, Bool, true, false, List, [], ◌∷◌, ◌≡◌, refl, ◌==◌,
  if◌then◌else◌, eq_of_==, arith,
}
use ix.Net.Udp.{Sender, MbufIov, SgEntry, min, free_iovs, udp_iovs, second_iov, mbuf_iov_create}

-- The pieces of a scatter-gather array are one behind the other from `addr` on, `len` bytes long
-- together; each lies in one page, at the machine address of that page.
unfoldable pub Covers : (ℕ → ℕ) → ℕ → ℕ → List MbufIov → Type 0
Covers tbl addr len [] = len ≡ 0
Covers tbl addr len (iov ∷ iovs) =
    (iov.base ≡ addr)
    × (iov.maddr ≡ tbl (addr / 2097152) + addr % 2097152)
    × (addr % 2097152 + iov.len ≤ 2097152)
    × (iov.len ≤ len)
    × Covers tbl (addr + iov.len) (len - iov.len) iovs

-- the count of the references to every page is a word of 32 bits
abbrev pub IsRefs : (ℕ → ℕ) → Type 0
IsRefs refs = (n : ℕ) → refs n < 2 ^ 32

-- What the array of `bsys_udp_send` is: it covers the data, its first length is what fits into the first
-- page, and when its pieces are given back every page has the references it had.
pub record IsArray (ent : SgEntry) (s : Sender) (r : List MbufIov × ℕ × Sender) : Type 0 where
  pub covers : Covers s.page_tbl ent.base ent.len r.0
  pub first : r.1 ≡ min ent.len (2097152 - ent.base % 2097152)
  pub given_back : (n : ℕ) → free_iovs r.0 r.2.page_refs n ≡ s.page_refs n
  pub same : (r.2.free ≡ s.free) × (r.2.txq ≡ s.txq) × (r.2.flying ≡ s.flying) × (r.2.told ≡ s.told)

get_once :
    (b : Bool) (x : ℕ)
    → x < 2 ^ 32
    → (let y = if b then (x + 1) % 2 ^ 32 else x in if b then (y + (2 ^ 32 - 1)) % 2 ^ 32 else y)
      ≡ x
get_once true x h = omega arith
get_once false x h = refl

get_twice :
    (b c : Bool) (x : ℕ)
    → x < 2 ^ 32
    → (let y = if b then (x + 1) % 2 ^ 32 else x in
        let z = if c then (y + 1) % 2 ^ 32 else y in
        let w = if b then (z + (2 ^ 32 - 1)) % 2 ^ 32 else z in
        if c then (w + (2 ^ 32 - 1)) % 2 ^ 32 else w)
      ≡ x
get_twice true true x h = omega arith
get_twice true false x h = omega arith
get_twice false true x h = omega arith
get_twice false false x h = refl

pub min-≤ : (a b : ℕ) → (min a b ≤ a) × (min a b ≤ b)
min-≤ a b = (ground arith, ground arith)

short_of : (a b : ℕ) → (a == min a b) ≡ false → min a b ≡ b
short_of a b e = ground arith

fits : (a n k : ℕ) → k ≤ 2097152 - a % 2097152 → a % 2097152 + k ≤ 2097152
fits a n k h = omega arith

all_of : (n k : ℕ) → n ≡ k → n - k ≡ 0
all_of n k e = omega arith

-- The second entry starts a page.
next_page :
    (a n k : ℕ) → n ≤ 1472 → k ≡ 2097152 - a % 2097152 → (a + k) % 2097152 + (n - k) ≤ 2097152
next_page a n k h e = omega arith

second_iov-IsArray :
    (b : Bool) (ent : SgEntry) (s : Sender)
    → ent.len ≤ 1472
    → IsRefs s.page_refs
    → (ent.len == min ent.len (2097152 - ent.base % 2097152)) ≡ b
    → let first = mbuf_iov_create ent s in IsArray ent s (second_iov b ent first.0 first.1)
unfolding second_iov mbuf_iov_create free_iovs Covers
second_iov-IsArray true ent s h refs e =
    let room = 2097152 - ent.base % 2097152 in
    let m = min-≤ ent.len room in
    let l = eq_of_== _ _ e in
    record {
      covers = (
        refl,
        refl,
        fits ent.base ent.len (min ent.len room) m.1,
        m.0,
        all_of ent.len (min ent.len room) l,
      );
      first = refl;
      given_back = λ n. get_once (n == ent.base / 2097152) (s.page_refs n) (refs n);
      same = (refl, refl, refl, refl);
    }
second_iov-IsArray false ent s h refs e =
    let room = 2097152 - ent.base % 2097152 in
    let m = min-≤ ent.len room in
    let l = short_of ent.len room e in
    record {
      covers = (
        refl,
        refl,
        fits ent.base ent.len (min ent.len room) m.1,
        m.0,
        (
          refl,
          refl,
          next_page ent.base ent.len (min ent.len room) h l,
          (omega arith),
          (omega arith),
        ),
      );
      first = refl;
      given_back = λ n.
          get_twice (n == ent.base / 2097152) (n == (ent.base + min ent.len room) / 2097152)
            (s.page_refs n) (refs n);
      same = (refl, refl, refl, refl);
    }

pub udp_iovs-IsArray :
    (ent : SgEntry) (s : Sender)
    → ent.len ≤ 1472
    → IsRefs s.page_refs
    → IsArray ent s (udp_iovs ent s)
unfolding udp_iovs mbuf_iov_create
udp_iovs-IsArray ent s h refs = second_iov-IsArray _ ent s h refs refl
