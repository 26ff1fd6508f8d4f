-- ===== src/Blk/Device.antt =====
-- dp/core/dummy_dev.c: the device is a memory of bytes. A copy that leaves it is a fault, `none`.
pub mod Copy
use ix.Base.{
  ℕ, zero, suc, ◌+◌, ◌-◌, ◌*◌, ◌/◌, ◌%◌, ◌^◌, Option, none, some, List, [], ◌∷◌, leb, in_range,
  if◌then◌else◌, ◌>>=◌, length, get_or,
}
use ix.Blk.{lba_size, storage_size}

abbrev pub Device : Type 0
Device = ℕ → ℕ

abbrev pub poke : Device → ℕ → List ℕ → Device
poke dev at bytes a = if in_range at (length bytes) a then get_or bytes (a - at) 0 else dev a

abbrev pub peek : Device → ℕ → ℕ → List ℕ
peek dev at zero = []
peek dev at (suc n) = dev at ∷ peek dev (at + 1) n

-- `memcpy` to and from the mapping of `STORAGE_SIZE` bytes
pub copy_in : Device → ℕ → List ℕ → Option Device
copy_in dev at bytes =
    if leb (at + length bytes) storage_size then some (poke dev at bytes) else none

copy_out : Device → ℕ → ℕ → Option (List ℕ)
copy_out dev at n = if leb (at + n) storage_size then some (peek dev at n) else none

-- `dummy_dev_write`, less the timer that it arms
unfoldable dummy_dev_write : List ℕ → ℕ → Device → Option Device
unfolding copy_in
dummy_dev_write payload lba dev = copy_in dev (lba * lba_size) payload

-- `dummy_dev_read`: it calls back at once, so the result is what the callback finds.
unfoldable pub dummy_dev_read : ℕ → ℕ → Device → Option (List ℕ)
unfolding copy_out
dummy_dev_read lba lba_count dev = copy_out dev (lba * lba_size) (lba_count * lba_size)

-- The loop of `dummy_dev_writev`, over the contents of the entries that are left. The assertion
-- on `bytes_written` stands behind each copy.
unfoldable pub writev_from : ℕ → ℕ → List (List ℕ) → ℕ → Device → Option Device
unfolding copy_in
writev_from lba lba_count [] bytes_written dev = some dev
writev_from lba lba_count (e ∷ ents) bytes_written dev =
    let written = bytes_written + length e in
    copy_in dev (lba * lba_size + bytes_written) e >>= λ dev'.
    let rest = writev_from lba lba_count ents written dev' in
    if leb written (lba_count * lba_size) then rest else none

-- `dummy_dev_writev`, less the timer that it arms and the assertion that the pool has one
unfoldable pub dummy_dev_writev : List (List ℕ) → ℕ → ℕ → Device → Option Device
unfolding writev_from
dummy_dev_writev ents lba lba_count dev = writev_from lba lba_count ents 0 dev
