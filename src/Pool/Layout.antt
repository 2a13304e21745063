-- ===== src/Pool/Layout.antt =====
-- Where the blocks of a pool lie in its segment.
use mergeshare.Pool.{Pool}
