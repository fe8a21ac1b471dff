-- ===== src/Fs/Cache.antt =====
-- The block cache of oslab6/fs/bc.c, between the file server and the disk.
pub mod Coherent
use operating_systems_lab.Base.{ℕ, ◌+◌, ◌-◌, ◌/◌, leb, ltb, if◌then◌else◌, update}
use operating_systems_lab.Base.{Bool, true, false, not, ◌&&◌, ◌||◌, Option, none, some, []}
use operating_systems_lab.Kern.State.{Result, ok, err}
use operating_systems_lab.Fs.Disk.{Disk, blksize, s_nblocks}
use operating_systems_lab.Fs.Bitmap.{block_is_free}

-- `disk` is what lies on the disk; `page` the contents of the mapped pages of the disk map, by
-- block; `mapped` and `dirty` the bits `PTE_P` and `PTE_D` of these pages.
pub record Cache : Type 0 where
  pub disk : ℕ → ℕ → ℕ
  pub page : ℕ → ℕ → ℕ
  pub mapped : ℕ → Bool
  pub dirty : ℕ → Bool

-- What a program reads at block `b`: the page, after a fault if there is none.
abbrev pub view : Cache → ℕ → ℕ → ℕ
view c b = if c.mapped b then c.page b else c.disk b

-- The disk as a program reads it through the cache.
abbrev pub as_disk : Cache → Disk
as_disk c = record { words = view c; flushed = [] }

-- `DISKMAP` and `DISKSIZE`
abbrev pub diskmap : ℕ
diskmap = 0x1000_0000

abbrev pub disksize : ℕ
disksize = 0xC000_0000

abbrev pub blockno : ℕ → ℕ
blockno addr = (addr - diskmap) / blksize

abbrev pub is_ok : Result (Unit {0}) → Bool
is_ok (ok u) = true
is_ok (err e) = false

-- Block `b` is read into a new page, and the page is mapped again, clean.
abbrev pub read_block : ℕ → Cache → Cache
read_block b c = record c {
  page = update c.page b (c.disk b);
  mapped = update c.mapped b true;
  dirty = update c.dirty b false;
}

-- `bc_pgfault` for the fault at `addr`: `super` and `bitmap` are whether these pointers are set, and
-- `alloc`, `got` and `mapped` the results of `sys_page_alloc`, `ide_read` and `sys_page_map`. `none`
-- is a panic.
unfoldable pub bc_pgfault :
    Bool
    → Bool
    → Result (Unit {0})
    → Result (Unit {0})
    → Result (Unit {0})
    → ℕ
    → Cache
    → Option Cache
bc_pgfault super bitmap alloc got mapped addr c =
    let b = blockno addr in
    let c' = read_block b c in
    if ltb addr diskmap || leb (diskmap + disksize) addr
    then none
    else if super && leb (s_nblocks (as_disk c)) b
    then none
    else if not (is_ok alloc && (is_ok got && is_ok mapped))
    then none
    else if bitmap && block_is_free b (as_disk c')
    then none
    else some c'

-- `flush_block` on an address in block `b`.
unfoldable pub flush_block : ℕ → Cache → Cache
flush_block b c =
    if c.mapped b && c.dirty b
    then record c { disk = update c.disk b (c.page b); dirty = update c.dirty b false }
    else c

-- A store by the program, on a mapped page: the processor sets `PTE_D`.
unfoldable pub store_word : ℕ → ℕ → ℕ → Cache → Cache
store_word b i w c = record c {
  page = update c.page b (update (c.page b) i w);
  dirty = update c.dirty b true;
}
