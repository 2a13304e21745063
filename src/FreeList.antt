-- ===== src/FreeList.antt =====
-- The free list that BufferPool (buffer_pool.hpp) and BufferMetadataTable (buffer_metadata.hpp)
-- keep in an array of `int32_t` links, -1 at its end: its reading as a list of indices.
pub mod Partition
use mergeshare.Prelude.{
  ℕ, zero, suc, ◌+◌, ◌<◌, ◌^◌, ◌≡◌, refl, ap, List, [], ◌∷◌, arith, length, get_or, set, length-set,
  get_or-set_ne, ltb, if◌then◌else◌, ℤ, pos, minus_one, to_i32, to_i32-pos, ◌∙◌, sym, ◌≤◌, leb→le,
}
use Partition.{count, count_from}

-- `is` are the indices met from the link `h` on, each within the array, up to the link -1.
abbrev pub Chain : List ℤ → ℤ → List ℕ → Type 0
Chain next h [] = h ≡ minus_one
Chain next h (i ∷ is) = (h ≡ pos i) × (i < length next) × Chain next (get_or next i minus_one) is

-- A link outside the chain may be overwritten.
pub Chain-set :
    (next : List ℤ) (h : ℤ) (is : List ℕ) (i : ℕ) (v : ℤ)
    → count i is ≡ 0
    → Chain next h is
    → Chain (set next i v) h is
unfolding count
Chain-set next h [] i v fresh c = c
Chain-set next h (j ∷ is) i v fresh c = (
  c.0,
  omega (arith, length-set next i v),
  rw (get_or-set_ne next i j v minus_one (λ e. ground arith))
      (Chain-set next (get_or next j minus_one) is i v (ground arith) c.2),
)

-- Pushing an index in front: its link takes the old head.
pub Chain-push :
    (next : List ℤ) (h : ℤ) (is : List ℕ) (i : ℕ)
    → i < length next
    → count i is ≡ 0
    → Chain next h is
    → Chain (set next i h) (pos i) (i ∷ is)
Chain-push next h is i lt fresh c = (
  refl,
  omega (arith, length-set next i h),
  rw (mergeshare.Prelude.get_or-set_self next i h minus_one lt) (Chain-set next h is i h fresh c),
)

-- for (i = 0; i < n; ++i) next[i] = (i + 1 < n) ? static_cast<int32_t>(i + 1) : -1;
-- the loop from `i` on, with `k` rounds left
unfoldable pub link_from : ℕ → ℕ → ℕ → List ℤ
link_from n zero i = []
link_from n (suc k) i =
    (if ltb (i + 1) n then to_i32 (i + 1) else minus_one) ∷ link_from n k (i + 1)

pub length-link_from : (n k i : ℕ) → length (link_from n k i) ≡ k
unfolding link_from
length-link_from n zero i = refl
length-link_from n (suc k) i = ap suc (length-link_from n k (i + 1))

get_or-link_from :
    (n k i j : ℕ)
    → j < k
    → get_or (link_from n k i) j minus_one
      ≡ (if ltb (i + j + 1) n then to_i32 (i + j + 1) else minus_one)
unfolding link_from
get_or-link_from n zero i j h = absurd (omega arith)
get_or-link_from n (suc k) i zero h =
    ap (λ m. if ltb (m + 1) n then to_i32 (m + 1) else minus_one) (omega arith)
get_or-link_from n (suc k) i (suc j) h =
    get_or-link_from n k (i + 1) j (omega arith)
    ∙ ap (λ m. if ltb (m + 1) n then to_i32 (m + 1) else minus_one) (omega arith)

-- The links that the loop writes run through all indices from `i` on.
Chain-link_from :
    (n k i : ℕ)
    → n < 2 ^ 31
    → i + suc k ≡ n
    → Chain (link_from n n 0) (pos i) (count_from (suc k) i)
unfolding count_from
Chain-link_from n zero i small e = (
  refl,
  omega (arith, length-link_from n n 0),
  ground (arith, get_or-link_from n n 0 i (omega arith)),
)
Chain-link_from n (suc k) i small e = (
  refl,
  omega (arith, length-link_from n n 0),
  rw (next_is) (Chain-link_from n k (i + 1) small (omega arith)),
)
  where
    next_is : get_or (link_from n n 0) i minus_one ≡ pos (i + 1)
    next_is = ground (arith, get_or-link_from n n 0 i (omega arith), to_i32-pos (i + 1))

-- The whole array, for a size that is not zero.
pub Chain-init : (n : ℕ) → 0 < n → n < 2 ^ 31 → Chain (link_from n n 0) (pos 0) (count_from n 0)
Chain-init zero h small = absurd (omega arith)
Chain-init (suc k) h small = Chain-link_from (suc k) k 0 small (omega arith)
