-- ===== src/User/Descriptors.antt =====
-- The table of file descriptors of oslab6/lib/fd.c, and oslab6/lib/pageref.c. A descriptor is in
-- use when its page is mapped: `mapped` tells this of an address, `PTE_P` in both its entries.
pub mod Least
use operating_systems_lab.Base.{ℕ, zero, suc, ◌+◌, ◌-◌, ◌*◌, ◌/◌, leb}
use operating_systems_lab.Base.{Bool, if◌then◌else◌}
use operating_systems_lab.Kern.State.{Result, ok, err, Error, PageInfo, pgsize}
use operating_systems_lab.Kern.PageTable.{present}

-- `MAXFD`
abbrev pub maxfd : ℕ
maxfd = 32

abbrev pub fdtable : ℕ
fdtable = 0xD000_0000

-- `INDEX2FD` and `INDEX2DATA`
abbrev pub index2fd : ℕ → ℕ
index2fd i = fdtable + i * pgsize

abbrev pub index2data : ℕ → ℕ
index2data i = fdtable + maxfd * pgsize + i * pgsize

abbrev pub fd2num : ℕ → ℕ
fd2num fd = (fd - fdtable) / pgsize

abbrev pub fd2data : ℕ → ℕ
fd2data fd = index2data (fd2num fd)

-- The loop of `fd_alloc`, from descriptor `i` on, with `n` left.
unfoldable pub fd_alloc_from : ℕ → ℕ → (ℕ → Bool) → Result ℕ
fd_alloc_from zero i mapped = err Error.max_open
fd_alloc_from (suc n) i mapped =
    let rest = fd_alloc_from n (i + 1) mapped in
    if mapped (index2fd i) then rest else ok (index2fd i)

unfoldable pub fd_alloc : (ℕ → Bool) → Result ℕ
fd_alloc mapped = fd_alloc_from maxfd 0 mapped

-- A negative number is a bit pattern from 2 ^ 31 on.
unfoldable pub fd_lookup : ℕ → (ℕ → Bool) → Result ℕ
fd_lookup fdnum mapped =
    if leb maxfd fdnum
    then err Error.inval
    else if mapped (index2fd fdnum)
    then ok (index2fd fdnum)
    else err Error.inval

-- `pageref` of an address with the directory entry `pde` and the table entry `pte`.
unfoldable pub pageref : ℕ → ℕ → (ℕ → PageInfo) → ℕ
pageref pde pte pages =
    if present pde then (if present pte then (pages (pte / pgsize)).pp_ref else 0) else 0
