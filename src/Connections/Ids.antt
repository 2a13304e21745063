-- ===== src/Connections/Ids.antt =====
-- Connections.antt: the ids of the connections and `connection_count`, through creation and deletion.
use mergeshare.Prelude.{
  ℕ, ◌+◌, ◌-◌, ◌^◌, ◌<◌, ◌≡◌, ◌≢◌, ◌⊎◌, inl, inr, refl, subst, List, none, some, arith, add32,
  add64, sub32,
}
use mergeshare.Slots.{
  hit, holding, rewrite_first, rewrite_first-Rewritten, HasIds, HasIds-replicate, HasIds-fill,
  HasIds-clear,
}
use mergeshare.Connections.{
  ConnectionInfo, ConnectionRegistry, connection_id_of, blank_connection, initialize_connections,
  fill_connection, create_connection, clear_connection, delete_connection, max_connections,
}

-- The connections with an id.
abbrev pub linked : ℕ → ConnectionRegistry → ℕ
linked j r = holding connection_id_of j r.connections

-- Every slot is free or holds an id that no other slot holds, below the next one;
-- `connection_count` is the number of slots that are not free.
abbrev pub IsLinked : ConnectionRegistry → Type 0
IsLinked r =
    HasIds connection_id_of max_connections r.connection_count r.next_connection_id r.connections

pub initialize_connections-IsLinked : IsLinked initialize_connections
unfolding initialize_connections
initialize_connections-IsLinked =
    HasIds-replicate connection_id_of max_connections blank_connection refl

fill_connection-id :
    (cid sb sp db dp now : ℕ) (c : ConnectionInfo)
    → (fill_connection cid sb sp db dp now c).connection_id ≡ cid
unfolding fill_connection
fill_connection-id cid sb sp db dp now c = refl

clear_connection-id : (c : ConnectionInfo) → (clear_connection c).connection_id ≡ 0
unfolding clear_connection
clear_connection-id c = refl

module _ (r : ConnectionRegistry) (sb sp db dp now : ℕ) where
  create_connection-full :
      rewrite_first connection_id_of 0
          (fill_connection r.next_connection_id sb sp db dp now)
          r.connections
        ≡ none
      → create_connection r sb sp db dp now ≡ (0, r)
  unfolding create_connection
  create_connection-full o = rw (o, create_connection) refl

  create_connection-free :
      (cs : List ConnectionInfo)
      → rewrite_first connection_id_of 0
          (fill_connection r.next_connection_id sb sp db dp now)
          r.connections
        ≡ some cs
      → create_connection r sb sp db dp now ≡ (
        r.next_connection_id,
        record {
          connection_count = add32 r.connection_count 1;
          next_connection_id = add64 r.next_connection_id 1;
          connections = cs;
        },
      )
  unfolding create_connection
  create_connection-free cs o = rw (o, create_connection) refl

  -- On a well-formed registry whose next id is not the last of 64 bits, `create_connection` returns 0
  -- and changes nothing if all slots are taken; otherwise it returns the next id, which one more slot
  -- holds now, keeps every other id, counts one connection more, and leaves the registry well-formed.
  pub create_connection-IsLinked :
      IsLinked r
      → r.next_connection_id + 1 < 2 ^ 64
      → let res = create_connection r sb sp db dp now in
        ((r.connection_count ≡ max_connections) × (res ≡ (0, r)))
        ⊎ ((r.connection_count < max_connections)
            × (res.0 ≡ r.next_connection_id)
            × (res.1.connection_count ≡ r.connection_count + 1)
            × ((j : ℕ) → 0 < j → linked j res.1 ≡ hit r.next_connection_id j + linked j r)
            × IsLinked res.1)
  create_connection-IsLinked ok small =
      elim (rewrite_first-Rewritten connection_id_of 0 r.next_connection_id
        (fill_connection r.next_connection_id sb sp db dp now) r.connections
        (fill_connection-id r.next_connection_id sb sp db dp now)) [
          | inl (o, no_free) ↦
              rw (create_connection-full o) (inl (ground (arith, ok.counted), refl))
          | inr (cs, o, same, some_free, counts) ↦ rw (create_connection-free cs o) (
              inr (
                ground (arith, ok.counted),
                refl,
                ground (arith, ok.counted),
                (λ j h. ground (arith, counts j)),
                subst
                    (λ (n : ℕ).
                      HasIds connection_id_of max_connections (add32 r.connection_count 1) n cs)
                    {x = r.next_connection_id + 1} (omega arith)
                    (subst
                      (λ (c : ℕ).
                        HasIds connection_id_of max_connections c (r.next_connection_id + 1) cs)
                      {x = r.connection_count + 1} (omega (arith, ok.counted))
                      (HasIds-fill connection_id_of r.connections cs ok same some_free counts)),
              ))
        ]

delete_connection-absent :
    (r : ConnectionRegistry) (id : ℕ)
    → rewrite_first connection_id_of id clear_connection r.connections ≡ none
    → delete_connection r id ≡ r
unfolding delete_connection
delete_connection-absent r id o = rw (o, delete_connection) refl

delete_connection-present :
    (r : ConnectionRegistry) (id : ℕ) (cs : List ConnectionInfo)
    → rewrite_first connection_id_of id clear_connection r.connections ≡ some cs
    → delete_connection r id
      ≡ record r { connection_count = sub32 r.connection_count 1; connections = cs }
unfolding delete_connection
delete_connection-present r id cs o = rw (o, delete_connection) refl

-- On a well-formed registry, `delete_connection` of an id other than 0 leaves no slot with the id,
-- keeps every other id, counts the slots that it frees, and leaves the registry well-formed.
pub delete_connection-IsLinked :
    (r : ConnectionRegistry) (id : ℕ)
    → IsLinked r
    → 0 < id
    → (linked id (delete_connection r id) ≡ 0)
      × ((j : ℕ) → 0 < j → j ≢ id → linked j (delete_connection r id) ≡ linked j r)
      × ((delete_connection r id).connection_count + linked id r ≡ r.connection_count)
      × IsLinked (delete_connection r id)
delete_connection-IsLinked r id ok real =
    elim (rewrite_first-Rewritten connection_id_of id 0 clear_connection r.connections
      clear_connection-id) [
        | inl (o, absent) ↦
            rw (delete_connection-absent r id o) (absent, (λ j h ne. refl), ground arith, ok)
        | inr (cs, o, same, present, counts) ↦
            let (some_taken, still) =
              HasIds-clear connection_id_of id r.connections cs ok same real present counts in
            rw (delete_connection-present r id cs o) (
              ground (arith, counts id, ok.unique id),
              (λ j h ne. ground (arith, counts j)),
              ground (arith, ok.unique id, some_taken, ok.counted),
              subst (λ (c : ℕ). HasIds connection_id_of max_connections c r.next_connection_id cs)
                  {x = r.connection_count - 1} (omega (arith, some_taken, ok.counted)) still,
            )
      ]
