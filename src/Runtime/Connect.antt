-- ===== src/Runtime/Connect.antt =====
-- runtime.hpp: what `connect` does for an output port and an input port.
use mergeshare.Prelude.{ℕ, ◌+◌, ◌*◌, ◌%◌, ◌≡◌, ◌≢◌, Bool, true, false, List, some, length, u64_mod}
use mergeshare.PortQueue.{Queue, formatted}
use mergeshare.Block.{Block, Port, get_port_by_name}
use mergeshare.Block.Queues.{set_output_queue}
use mergeshare.Runtime.Attach.{connected}
use mergeshare.Runtime.{Runtime, get_block, attach}

module _ (shm_open : ℕ → Bool) (header_size now : ℕ) (rt : Runtime) (src : ℕ) (src_port : List ℕ)
    (dst : ℕ) (dst_port : List ℕ) (p q : ℕ) (b c : Block) (out inp : Port)
    (on : rt.initialized ≡ true) (src_at : get_block rt src ≡ some p)
    (dst_at : get_block rt dst ≡ some q) (at_p : rt.objects p ≡ some b)
    (at_q : rt.objects q ≡ some c) (apart : p ≢ q)
    (out_found : get_port_by_name b.outputs src_port ≡ some out)
    (inp_found : get_port_by_name c.inputs dst_port ≡ some inp) (unused : inp.connected ≡ false)
    (opens : shm_open ((header_size + 8 * inp.config.queue_capacity) % u64_mod) ≡ true) where
  abbrev queue : Queue
  queue = formatted out.port_id inp.config.queue_capacity

  abbrev after : Runtime
  after = attach shm_open header_size now rt src dst (p, out) (q, inp) queue

  -- What the two blocks are afterwards
  abbrev n : ℕ
  n = length rt.port_queues

  abbrev given : Port
  given = set_output_queue out (some n)
