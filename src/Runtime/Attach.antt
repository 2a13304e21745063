-- ===== src/Runtime/Attach.antt =====
-- runtime.hpp: the parts of `connect`: ports found by name and put back, and the queue that they get.
use mergeshare.Prelude.{
  ℕ, zero, suc, ◌+◌, ◌-◌, ◌<◌, ◌≡◌, ◌≢◌, inl, inr, refl, sym, ap, ◌∙◌, true, false, List, [], ◌∷◌,
  ◌++◌, Option, none, some, arith, length, length-set, length-append, set, if◌then◌else◌, ◌==◌,
  Option-cases, ◌≤◌, ℕ_discrete,
}
use mergeshare.Prelude.Dict.{lookup, text_keys}
use mergeshare.Refs.{allocator_refs}
use mergeshare.PortQueue.{Queue, formatted, register_consumer, first_idle}
use mergeshare.Block.{
  Block, Port, PortTable, PortType, PortConfig, new_port, add_port, port_at, get_port_by_name,
}
use mergeshare.Block.Ports.{IsPorts, add_port-get_port, port_at-append}
use mergeshare.Block.Queues.{Queues, queue_at, set_input_queue, join}
use mergeshare.Runtime.{put_port, put_output, put_input}

-- Names stand for ports, and the port at index `i` has the number `i + 1`.
pub record IsNumbered (t : PortTable) : Type 0 where
  pub ports : IsPorts t
  pub numbered : (i : ℕ) (p : Port) → port_at t.ports i ≡ some p → p.port_id ≡ i + 1

port_at-set : (ps : List Port) (i : ℕ) (p : Port) → i < length ps → port_at (set ps i p) i ≡ some p
port_at-set [] i p lt = absurd (omega arith)
port_at-set (q ∷ ps) zero p lt = refl
port_at-set (q ∷ ps) (suc i) p lt = port_at-set ps i p (omega arith)

by_name :
    (t : PortTable) (name : List ℕ) (id : ℕ)
    → lookup text_keys name t.port_map ≡ some id
    → get_port_by_name t name ≡ port_at t.ports (id - 1)
unfolding get_port_by_name
by_name t name id e = rw (e, get_port_by_name) refl

nameless :
    (t : PortTable) (name : List ℕ)
    → lookup text_keys name t.port_map ≡ none
    → get_port_by_name t name ≡ none
unfolding get_port_by_name
nameless t name e = rw (e, get_port_by_name) refl

-- A port found by name and put back changed is found changed.
pub put_port-get_port_by_name :
    (t : PortTable) (name : List ℕ) (p p' : Port)
    → IsNumbered t
    → get_port_by_name t name ≡ some p
    → p'.port_id ≡ p.port_id
    → get_port_by_name (put_port t p') name ≡ some p'
unfolding put_port
put_port-get_port_by_name t name p p' ok found same =
    elim (Option-cases (lookup text_keys name t.port_map)) [
      | inl e ↦ absurd (cc (found, nameless t name e))
      | inr (id, e) ↦
          let (real, inside) = ok.ports.inside name id e in
          let number = ok.numbered (id - 1) p (sym (by_name t name id e) ∙ found) in
          by_name (put_port t p') name id e
          ∙ ap (λ k. port_at (set t.ports k p') (id - 1)) {x = p'.port_id - 1} {y = id - 1}
              (omega (arith, same, number, real))
          ∙ port_at-set t.ports (id - 1) p' (omega (arith, real, inside))
    ]

queue_at-append : (qs : Queues) (q : Queue) → queue_at (qs ++ some q ∷ []) (length qs) ≡ some q
queue_at-append [] q = refl
queue_at-append (x ∷ qs) q = queue_at-append qs q

register_first : (id capacity : ℕ) → (register_consumer (some (formatted id capacity))).1 ≡ 0
unfolding register_consumer formatted first_idle
register_first id capacity = refl

-- A port that was not connected, after it got the new queue
abbrev pub connected : Port → ℕ → Port
connected p n = record p { queue = some n; connected = true; consumer_id = 0 }

pub join-new :
    (qs : Queues) (id capacity : ℕ) (p : Port)
    → p.connected ≡ false
    → (set_input_queue allocator_refs
        (qs ++ some (formatted id capacity) ∷ [])
        none
        p
        (some (length qs))).2
      ≡ connected p (length qs)
unfolding set_input_queue join
join-new qs id capacity p off =
    let cid : (register_consumer (queue_at (qs ++ some (formatted id capacity) ∷ []) (length qs))).1
        ≡ 0 =
      ap (λ x. (register_consumer x).1) (queue_at-append qs (formatted id capacity))
      ∙ register_first id capacity in
    rw (off, cid) refl

pub length-joined :
    (qs : Queues) (q : Queue) (p : Port)
    → p.connected ≡ false
    → length (set_input_queue allocator_refs (qs ++ some q ∷ []) none p (some (length qs))).0
      ≡ length qs + 1
unfolding set_input_queue join
length-joined qs q p off =
    let all = qs ++ some q ∷ [] in
    rw off (
      length-set all (length qs) (register_consumer (queue_at all (length qs))).0
      ∙ length-append qs (some q ∷ []))

port_at-set_ne :
    (ps : List Port) (i j : ℕ) (p : Port) → i ≢ j → port_at (set ps i p) j ≡ port_at ps j
port_at-set_ne [] i j p ne = refl
port_at-set_ne (q ∷ ps) zero zero p ne = absurd (ne refl)
port_at-set_ne (q ∷ ps) zero (suc j) p ne = refl
port_at-set_ne (q ∷ ps) (suc i) zero p ne = refl
port_at-set_ne (q ∷ ps) (suc i) (suc j) p ne = port_at-set_ne ps i j p (omega (arith, ne))

number_of :
    (t : PortTable) (name : List ℕ) (p : Port)
    → IsNumbered t
    → get_port_by_name t name ≡ some p
    → (0 < p.port_id) × (p.port_id ≤ length t.ports)
number_of t name p ok found = elim (Option-cases (lookup text_keys name t.port_map)) [
  | inl e ↦ absurd (cc (found, nameless t name e))
  | inr (id, e) ↦
      let (real, inside) = ok.ports.inside name id e in
      let number = ok.numbered (id - 1) p (sym (by_name t name id e) ∙ found) in
      (omega (arith, number, real), omega (arith, number, inside, real))
]

pub put_port-IsNumbered :
    (t : PortTable) (name : List ℕ) (p p' : Port)
    → IsNumbered t
    → get_port_by_name t name ≡ some p
    → p'.port_id ≡ p.port_id
    → IsNumbered (put_port t p')
unfolding put_port
put_port-IsNumbered t name p p' ok found same =
    let (real, inside) = number_of t name p ok found in
    let k = p'.port_id - 1 in
    record {
      ports = record {
        inside = λ x id e. ground (arith, length-set t.ports k p', ok.ports.inside x id e);
      };
      numbered = λ i r e. elim (ℕ_discrete k i) [
        | yes eq ↦
            let here = port_at-set t.ports k p' (omega (arith, same, real, inside)) in
            let r_is : r ≡ p' = cc (e, here, eq) in
            ap (λ (x : Port). x.port_id) r_is ∙ omega (arith, eq, same, real)
        | no ne ↦ ok.numbered i r (sym (port_at-set_ne t.ports k i p' ne) ∙ e)
      ];
    }

pub add_port-IsNumbered :
    (kind : PortType) (t : PortTable) (config : PortConfig)
    → IsNumbered t
    → IsNumbered (add_port kind t config).0
unfolding add_port
add_port-IsNumbered kind t config ok = record {
  ports = (add_port-get_port kind t config ok.ports).5;
  numbered = λ i p e. ground (
    arith,
    port_at-append t.ports (new_port kind (length t.ports + 1) config) i,
    ok.numbered i p,
    e,
  );
}

-- The ports of a block object, if there is one
abbrev pub output_of : Option Block → List ℕ → Option Port
output_of none name = none
output_of (some b) name = get_port_by_name b.outputs name

abbrev pub input_of : Option Block → List ℕ → Option Port
input_of none name = none
input_of (some b) name = get_port_by_name b.inputs name

pub put_output-at :
    (objects : ℕ → Option Block) (p : ℕ) (b : Block) (port : Port) (r : ℕ)
    → objects p ≡ some b
    → put_output objects p port r
      ≡ (if r == p then some (record b { outputs = put_port b.outputs port }) else objects r)
unfolding put_output
put_output-at objects p b port r e = rw (e, put_output) refl

pub put_input-at :
    (objects : ℕ → Option Block) (p : ℕ) (b : Block) (port : Port) (r : ℕ)
    → objects p ≡ some b
    → put_input objects p port r
      ≡ (if r == p then some (record b { inputs = put_port b.inputs port }) else objects r)
unfolding put_input
put_input-at objects p b port r e = rw (e, put_input) refl
