-- ===== src/Slab/Sample.antt =====
-- A slab of two objects of 2048 bytes, in page 8.
use mjos.Base.{ℕ, ◌-◌, ◌^◌, ◌==◌, if◌then◌else◌}
use mjos.Base.Int.{pos}
use mjos.Pages.{Pages, nopage, page_list, pg_pool, pg_reserve}
use mjos.Paging.{Vm}
use mjos.Slab.{Cache, Slabs}

-- page 8, with its first free object and the number of objects in use
abbrev pub pages : ℕ → ℕ → Pages
pages obj inuse f = record {
  next = nopage;
  prev = nopage;
  state = if f == 8 then pg_pool else pg_reserve;
  obj = obj;
  inuse = inuse;
}

abbrev pub vm : ℕ → ℕ → Vm
vm obj inuse = record {
  frames = record {
    pages = pages obj inuse;
    free = page_list nopage nopage;
    map = page_list nopage nopage;
    occupied = page_list nopage nopage;
    free_cnt = pos 0;
    occupied_cnt = pos 0;
    alloc_cnt = pos 1;
  };
  words = λ a. 0;
  heap_end = 0xffffffff82000000;
}

-- The objects are at the offsets 0 and 2048.
abbrev pub links : ℕ → ℕ
links a = if a == 0xffffffff80008000 then 2048 else 2 ^ 16 - 1

abbrev pub sys : ℕ → ℕ → Slabs
sys obj inuse = record { vm = vm obj inuse; links = links }

abbrev pub cache : ℕ → Cache
cache n = record { partial = page_list 8 8; obj_size = 2048; partial_cnt = pos n }
