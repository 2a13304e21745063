-- ===== src/Pool.antt =====
-- multiqueue-shm/core/include/multiqueue/buffer_pool.hpp: fixed-size blocks in shared memory, with
-- a free list. A `Pool` is the segment; a `BufferPool` object is `Option Pool`, `none` while its
-- `header_` is null. Each method holds `pool_mutex`, so it is one step.
pub mod Refine
pub mod Layout
pub mod Ownership
pub mod Misuse
use mergeshare.Prelude.{
  ℕ, suc, ◌+◌, ◌*◌, ◌%◌, ◌^◌, Bool, true, false, ◌||◌, not, List, [], ◌∷◌, Option, none, some, ltb,
  ◌==◌, if◌then◌else◌, get_or, set, ℤ, pos, negsuc, minus_one, is_negative, to_i32, add32, sub32,
  u32_mod, u64_mod,
}
use mergeshare.FreeList.{link_from}

-- SHM_MAGIC_NUMBER
abbrev pub shm_magic_number : ℕ
shm_magic_number = 0x4D515348

-- `BufferPoolHeader`, the links behind it, and the size that the segment was truncated to
pub record Pool : Type 0 where
  pub magic_number : ℕ
  pub pool_id : ℕ
  pub block_size : ℕ
  pub block_count : ℕ
  pub header_size : ℕ
  pub data_offset : ℕ
  pub initialized : Bool
  pub free_count : ℕ
  pub free_head : ℤ
  pub free_list : List ℤ
  pub region_size : ℕ

-- The index that a link which is not negative stands for.
abbrev pub index : ℤ → ℕ
index (pos n) = n
index (negsuc n) = 0

-- `a >= b` on `int32_t`
abbrev pub ge_i32 : ℤ → ℤ → Bool
ge_i32 (pos a) (pos b) = not (ltb a b)
ge_i32 (pos a) (negsuc b) = true
ge_i32 (negsuc a) (pos b) = false
ge_i32 (negsuc a) (negsuc b) = not (ltb b a)

-- `header_size + sizeof(int32_t) * block_count + block_size * block_count`
abbrev pub total_size : ℕ → ℕ → ℕ → ℕ
total_size header_size block_size block_count =
    (header_size + 4 * block_count + block_size * block_count) % u64_mod

-- What `create` writes: the header, and the links in a loop.
unfoldable pub formatted : ℕ → ℕ → ℕ → ℕ → Pool
formatted header_size pool_id block_size block_count = record {
  magic_number = shm_magic_number;
  pool_id = pool_id;
  block_size = block_size;
  block_count = block_count;
  header_size = header_size;
  data_offset = (header_size + 4 * block_count) % u64_mod;
  initialized = true;
  free_count = block_count % u32_mod;
  free_head = pos 0;
  free_list = link_from block_count block_count 0;
  region_size = total_size header_size block_size block_count;
}

-- `shm_open` tells whether Boost's calls create and map a segment of a size; where they throw,
-- `create` returns false (`none`). `header_size` is `sizeof(BufferPoolHeader)`.
unfoldable pub create : (ℕ → Bool) → ℕ → ℕ → ℕ → ℕ → Option Pool
create shm_open header_size pool_id block_size block_count =
    if shm_open (total_size header_size block_size block_count)
    then some (formatted header_size pool_id block_size block_count)
    else none

-- What `open` has done: returned false, not left its spin loop, or returned true.
pub data Opened : Type 0 where
  failed : Opened
  spinning : Opened
  opened : Pool → Opened

-- `while (!initialized.load()) {}` against the values that the loads give
unfoldable pub spin : Pool → List Bool → Opened
spin p [] = spinning
spin p (true ∷ loads) = opened p
spin p (false ∷ loads) = spin p loads

-- `none` for a name that Boost cannot open.
unfoldable pub open_pool : Option Pool → List Bool → Opened
open_pool none loads = failed
open_pool (some p) loads = if p.magic_number == shm_magic_number then spin p loads else failed

-- `allocate_block` under the lock
unfoldable pub unlink_head : Pool → ℤ × Pool
unlink_head p = if is_negative p.free_head then (minus_one, p) else (
  p.free_head,
  record p {
    free_head = get_or p.free_list (index p.free_head) minus_one;
    free_count = sub32 p.free_count 1;
  },
)

unfoldable pub allocate_block : Option Pool → ℤ × Option Pool
allocate_block none = (minus_one, none)
allocate_block (some p) = let (b, q) = unlink_head p in (b, some q)

-- `block_index < 0 || block_index >= static_cast<int32_t>(block_count)`
abbrev pub out_of_range : Pool → ℤ → Bool
out_of_range p b = is_negative b || ge_i32 b (to_i32 p.block_count)

-- `free_block` behind the null test
unfoldable pub link_block : Pool → ℤ → Pool
link_block p b = if out_of_range p b then p else record p {
  free_list = set p.free_list (index b) p.free_head;
  free_head = b;
  free_count = add32 p.free_count 1;
}

unfoldable pub free_block : Option Pool → ℤ → Option Pool
free_block none b = none
free_block (some p) b = some (link_block p b)

-- The pointer as an offset into the segment; `none` is `nullptr`.
unfoldable pub get_block_data : Option Pool → ℤ → Option ℕ
get_block_data none b = none
get_block_data (some p) b =
    if out_of_range p b then none else some ((p.data_offset + index b * p.block_size) % u64_mod)

unfoldable pub get_block_offset : Option Pool → ℤ → ℕ
get_block_offset none b = 0
get_block_offset (some p) b =
    if out_of_range p b then 0 else (p.data_offset + index b * p.block_size) % u64_mod

unfoldable pub get_free_count : Option Pool → ℕ
get_free_count none = 0
get_free_count (some p) = p.free_count
