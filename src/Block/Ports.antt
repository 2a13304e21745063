-- ===== src/Block/Ports.antt =====
-- block.hpp: adding ports and finding them again.
use mergeshare.Prelude.{
  ℕ, zero, suc, ◌+◌, ◌-◌, ◌≤◌, ◌<◌, ◌≡◌, inl, inr, refl, sym, ◌∙◌, false, List, [], ◌∷◌, ◌++◌, ◌==◌,
  none, some, arith, length, length-append, ltb, if◌then◌else◌, Option-cases,
}
use mergeshare.Prelude.Dict.{lookup, text_keys, text_eq, text_eq_iff, lookup-insert}
use mergeshare.Block.{
  no_ports, PortType, PortConfig, Port, new_port, PortTable, add_port, port_at, get_port,
  get_port_by_name,
}

-- A name stands for the number, plus one, of a port that there is.
pub record IsPorts (t : PortTable) : Type 0 where
  pub inside :
      (name : List ℕ) (id : ℕ)
      → lookup text_keys name t.port_map ≡ some id
      → (0 < id) × (id ≤ length t.ports)

pub no_ports-IsPorts : IsPorts no_ports
no_ports-IsPorts = record { inside = λ name id e. cc e }

pub port_at-append :
    (ps : List Port) (p : Port) (i : ℕ)
    → port_at (ps ++ p ∷ []) i
      ≡ (if ltb i (length ps) then port_at ps i else if ltb (length ps) i then none else some p)
port_at-append [] p zero = refl
port_at-append [] p (suc i) = ground arith
port_at-append (q ∷ ps) p zero = ground arith
port_at-append (q ∷ ps) p (suc i) = ground (arith, port_at-append ps p i)

module _ (kind : PortType) (t : PortTable) (config : PortConfig) where
  abbrev added : PortTable
  added = (add_port kind t config).0

  get_port-added :
      (i : ℕ)
      → get_port added i ≡ (
          if i == length t.ports
          then some (new_port kind (length t.ports + 1) config)
          else get_port t i)
  unfolding get_port add_port
  get_port-added i = ground (
    arith,
    length-append t.ports (new_port kind (length t.ports + 1) config ∷ []),
    port_at-append t.ports (new_port kind (length t.ports + 1) config) i,
  )

  lookup-added :
      (name : List ℕ)
      → lookup text_keys name added.port_map ≡ (
          if text_eq config.name name
          then some (length t.ports + 1)
          else lookup text_keys name t.port_map)
  unfolding add_port
  lookup-added name = lookup-insert text_keys config.name name (length t.ports + 1) t.port_map

  length-added : length added.ports ≡ length t.ports + 1
  unfolding add_port
  length-added =
      length-append t.ports (new_port kind (length t.ports + 1) config ∷ []) ∙ omega arith

  -- By name, on a table where names stand for ports, is by number.
  by_name :
      (u : PortTable) (name : List ℕ) (id : ℕ)
      → lookup text_keys name u.port_map ≡ some id
      → 0 < id
      → id ≤ length u.ports
      → get_port_by_name u name ≡ get_port u (id - 1)
  unfolding get_port_by_name get_port
  by_name u name id e real inside = rw (e, get_port_by_name) (ground (arith, real, inside))

  by_name_missing :
      (u : PortTable) (name : List ℕ)
      → lookup text_keys name u.port_map ≡ none
      → get_port_by_name u name ≡ none
  unfolding get_port_by_name
  by_name_missing u name e = rw (e, get_port_by_name) refl

  own : get_port added (length t.ports + 1 - 1) ≡ some (new_port kind (length t.ports + 1) config)
  own = get_port-added (length t.ports + 1 - 1) ∙ ground arith

  named : get_port_by_name added config.name ≡ some (new_port kind (length t.ports + 1) config)
  named =
      by_name added config.name (length t.ports + 1)
        (lookup-added config.name ∙ ground (arith, (text_eq_iff config.name config.name).1 refl))
        (omega arith) (omega (arith, length-added))
      ∙ own

  added-IsPorts : IsPorts t → IsPorts added
  added-IsPorts ok = record {
    inside = λ name id e. ground (arith, lookup-added name, length-added, ok.inside name id);
  }

  others :
      (name : List ℕ)
      → IsPorts t
      → text_eq config.name name ≡ false
      → get_port_by_name added name ≡ get_port_by_name t name
  others name ok ne = elim (Option-cases (lookup text_keys name t.port_map)) [
    | inl e ↦
        by_name_missing added name (lookup-added name ∙ ground (arith, ne, e))
        ∙ sym (by_name_missing t name e)
    | inr (id, e) ↦
        let (real, inside) = ok.inside name id e in
        by_name added name id (lookup-added name ∙ ground (arith, ne, e)) real
          (omega (arith, length-added))
        ∙ get_port-added (id - 1)
        ∙ ground arith
        ∙ sym (by_name t name id e real inside)
  ]

-- On a well-formed table, `add_port` returns the number of ports plus one, under which index and under
-- whose name the new port is then found; the other indices and names find what they did, and the
-- table stays well-formed. (A port whose name is given again is found by its index only.)
pub add_port-get_port :
    (kind : PortType) (t : PortTable) (config : PortConfig)
    → IsPorts t
    → let (t', id) = add_port kind t config in
      (id ≡ length t.ports + 1)
      × (get_port t' (id - 1) ≡ some (new_port kind id config))
      × (get_port_by_name t' config.name ≡ some (new_port kind id config))
      × ((i : ℕ) → i < length t.ports → get_port t' i ≡ get_port t i)
      × ((name : List ℕ)
          → text_eq config.name name ≡ false
          → get_port_by_name t' name ≡ get_port_by_name t name)
      × IsPorts t'
add_port-get_port kind t config ok = (
  unfold add_port in refl,
  unfold add_port in own kind t config,
  unfold add_port in named kind t config,
  (λ i lt. get_port-added kind t config i ∙ ground arith),
  (λ name ne. others kind t config name ok ne),
  added-IsPorts kind t config ok,
)
