-- ===== src/Connections/Invariant.antt =====
-- The two tables of src/connection-manager.c hold the same connections.
use tpm2_abrmd.Prelude.{
  ℕ, ◌≤◌, ◌<◌, ◌≡◌, ◌≢◌, refl, sym, ap, subst, ◌∙◌, Bool, true, false, Option, none, some,
  Bool-cases, inl, inr, if◌then◌else◌, ◌==◌, arith,
}
use native.Mathlib.Decide.{ℕ_discrete}
use mathlib.Core.Option.{some-injective, none-ne-some}
use tpm2_abrmd.Table.{lookup}
use tpm2_abrmd.Table.Laws.{Distinct, lookup-insert, insert-Distinct, size-insert}
use tpm2_abrmd.Connections.{
  Connection, ConnectionManager, connection_manager_new, connection_manager_is_full,
  connection_manager_insert, connection_manager_lookup_istream, connection_manager_lookup_id,
  connection_manager_size,
}

-- What is found under a stream has that stream, and is found under its id; and the other way round.
pub record IsSync (m : ConnectionManager) : Type 0 where
  pub distinct_istreams : Distinct m.connection_from_istream_table
  pub distinct_ids : Distinct m.connection_from_id_table
  pub bounded : connection_manager_size m ≤ m.max_connections
  pub of_istream :
      (i : ℕ) (c : Connection)
      → connection_manager_lookup_istream m i ≡ some c
      → (c.istream ≡ i) × (connection_manager_lookup_id m c.id ≡ some c)
  pub of_id :
      (i : ℕ) (c : Connection)
      → connection_manager_lookup_id m i ≡ some c
      → (c.id ≡ i) × (connection_manager_lookup_istream m c.istream ≡ some c)

-- A new manager has no connections.
pub new-IsSync : (n : ℕ) → IsSync (connection_manager_new n)
unfolding connection_manager_new connection_manager_size connection_manager_lookup_istream
    connection_manager_lookup_id lookup
new-IsSync n = record {
  distinct_istreams = tt;
  distinct_ids = tt;
  bounded = omega arith;
  of_istream = λ i c e. absurd (none-ne-some _ e);
  of_id = λ i c e. absurd (none-ne-some _ e);
}

module _ (m : ConnectionManager) (c : Connection) where
  -- What a lookup finds after an insertion into a manager that has room.
  pub lookup_istream-insert :
      connection_manager_is_full m ≡ false
      → (i : ℕ)
      → connection_manager_lookup_istream (connection_manager_insert m c).0 i
        ≡ (if c.istream == i then some c else connection_manager_lookup_istream m i)
  unfolding connection_manager_insert connection_manager_lookup_istream
  lookup_istream-insert e i = rw e (lookup-insert c.istream i c m.connection_from_istream_table)

  pub lookup_id-insert :
      connection_manager_is_full m ≡ false
      → (i : ℕ)
      → connection_manager_lookup_id (connection_manager_insert m c).0 i
        ≡ (if c.id == i then some c else connection_manager_lookup_id m i)
  unfolding connection_manager_insert connection_manager_lookup_id
  lookup_id-insert e i = rw e (lookup-insert c.id i c m.connection_from_id_table)

pub full_size :
    (m : ConnectionManager)
    → connection_manager_is_full m ≡ true
    → m.max_connections ≤ connection_manager_size m
unfolding connection_manager_is_full connection_manager_size
full_size m e = ground (arith, e)

pub is_full_size :
    (m : ConnectionManager)
    → connection_manager_is_full m ≡ false
    → connection_manager_size m < m.max_connections
unfolding connection_manager_is_full connection_manager_size
is_full_size m e = ground (arith, e)

-- Where the first of two choices is left out.
if_other : (k j : ℕ) (a b : Option Connection) → k ≢ j → (if k == j then a else b) ≡ b
if_other k j a b h = ground arith

if_same : (k j : ℕ) (a b : Option Connection) → k ≡ j → (if k == j then a else b) ≡ a
if_same k j a b h = ground arith

module _ (m : ConnectionManager) (c : Connection) (v : IsSync m)
    (new_id : connection_manager_lookup_id m c.id ≡ none)
    (new_istream : connection_manager_lookup_istream m c.istream ≡ none)
    (room : connection_manager_is_full m ≡ false) where
  inserted_by_istream :
      (i : ℕ) (x : Connection)
      → connection_manager_lookup_istream (connection_manager_insert m c).0 i ≡ some x
      → (x.istream ≡ i)
        × (connection_manager_lookup_id (connection_manager_insert m c).0 x.id ≡ some x)
  inserted_by_istream i x e = elim (ℕ_discrete c.istream i) [
    | yes same ↦
        let d : c ≡ x = some-injective _ _ (
          sym (
            lookup_istream-insert m c room i
            ∙ if_same c.istream i (some c) (connection_manager_lookup_istream m i) same)
          ∙ e) in
        subst
          (λ y.
            (y.istream ≡ i)
            × (connection_manager_lookup_id (connection_manager_insert m c).0 y.id ≡ some y))
          d
          (
            same,
            lookup_id-insert m c room c.id
                ∙ if_same c.id c.id (some c) (connection_manager_lookup_id m c.id) refl,
          )
    | no other ↦
        let old = v.of_istream i x (
          sym (
            lookup_istream-insert m c room i
            ∙ if_other c.istream i (some c) (connection_manager_lookup_istream m i) other)
          ∙ e) in
        (
          old.0,
          lookup_id-insert m c room x.id
              ∙ (if_other c.id x.id (some c) (connection_manager_lookup_id m x.id) (λ d.
                    absurd (
                      none-ne-some _
                        (sym new_id ∙ (ap (connection_manager_lookup_id m) d ∙ old.1))))
                  ∙ old.1),
        )
  ]

  inserted_by_id :
      (i : ℕ) (x : Connection)
      → connection_manager_lookup_id (connection_manager_insert m c).0 i ≡ some x
      → (x.id ≡ i)
        × (connection_manager_lookup_istream (connection_manager_insert m c).0 x.istream ≡ some x)
  inserted_by_id i x e = elim (ℕ_discrete c.id i) [
    | yes same ↦
        let d : c ≡ x = some-injective _ _ (
          sym (
            lookup_id-insert m c room i
            ∙ if_same c.id i (some c) (connection_manager_lookup_id m i) same)
          ∙ e) in
        subst
          (λ y.
            (y.id ≡ i)
            × (connection_manager_lookup_istream (connection_manager_insert m c).0 y.istream
                ≡ some y))
          d
          (
            same,
            lookup_istream-insert m c room c.istream
                ∙ if_same c.istream c.istream (some c)
                    (connection_manager_lookup_istream m c.istream) refl,
          )
    | no other ↦
        let old = v.of_id i x (
          sym (
            lookup_id-insert m c room i
            ∙ if_other c.id i (some c) (connection_manager_lookup_id m i) other)
          ∙ e) in
        (
          old.0,
          lookup_istream-insert m c room x.istream
              ∙ (if_other c.istream x.istream (some c)
                    (connection_manager_lookup_istream m x.istream)
                    (λ d. absurd (
                      none-ne-some _
                        (sym new_istream ∙ (ap (connection_manager_lookup_istream m) d ∙ old.1))))
                  ∙ old.1),
        )
  ]

  inserted_rest :
      Distinct (connection_manager_insert m c).0.connection_from_istream_table
      × Distinct (connection_manager_insert m c).0.connection_from_id_table
      × (connection_manager_size (connection_manager_insert m c).0
          ≤ (connection_manager_insert m c).0.max_connections)
  unfolding connection_manager_insert connection_manager_size connection_manager_is_full
  inserted_rest = (
    ground (
      arith,
      room,
      insert-Distinct c.istream c m.connection_from_istream_table v.distinct_istreams,
    ),
    ground (arith, room, insert-Distinct c.id c m.connection_from_id_table v.distinct_ids),
    ground (arith, room, size-insert c.istream c m.connection_from_istream_table),
  )

  with_room : IsSync (connection_manager_insert m c).0
  with_room = record {
    distinct_istreams = inserted_rest.0;
    distinct_ids = inserted_rest.1;
    bounded = inserted_rest.2;
    of_istream = inserted_by_istream;
    of_id = inserted_by_id;
  }

without_room :
    (m : ConnectionManager) (c : Connection)
    → connection_manager_is_full m ≡ true
    → connection_manager_insert m c ≡ (m, false)
unfolding connection_manager_insert
without_room m c e = rw e refl

pub room_taken :
    (m : ConnectionManager) (c : Connection)
    → connection_manager_is_full m ≡ false
    → ((connection_manager_insert m c).1 ≡ true)
      × ((connection_manager_insert m c).0.max_connections ≡ m.max_connections)
unfolding connection_manager_insert
room_taken m c e = rw e (refl, refl)

-- What comes of an insertion: the manager has as many connections as it may have, and refuses; or it
-- has room, and the connection is found under its stream and under its id, and all else as before.
pub data Insertion (m : ConnectionManager) (c : Connection)
    : ConnectionManager × Bool → Type 0 where
  no_room : m.max_connections ≤ connection_manager_size m → Insertion m c (m, false)
  inserted :
      {r : ConnectionManager × Bool}
      → connection_manager_size m < m.max_connections
      → r.1 ≡ true
      → r.0.max_connections ≡ m.max_connections
      → ((i : ℕ)
          → connection_manager_lookup_istream r.0 i
            ≡ (if c.istream == i then some c else connection_manager_lookup_istream m i))
      → ((i : ℕ)
          → connection_manager_lookup_id r.0 i
            ≡ (if c.id == i then some c else connection_manager_lookup_id m i))
      → Insertion m c r

-- An insertion keeps the tables in step and the number of connections within the limit, where
-- neither the id nor the stream of the connection is in use. A full manager is left alone, with the
-- answer FALSE; else the answer is TRUE, the connection is found under its stream and under its id,
-- and under every other stream and id what was found there before.
pub connection_manager_insert-IsSync :
    (m : ConnectionManager) (c : Connection)
    → IsSync m
    → connection_manager_lookup_id m c.id ≡ none
    → connection_manager_lookup_istream m c.istream ≡ none
    → IsSync (connection_manager_insert m c).0 × Insertion m c (connection_manager_insert m c)
connection_manager_insert-IsSync m c v h k = elim (Bool-cases (connection_manager_is_full m)) [
  | inl full ↦ rw (without_room m c full) (v, no_room (full_size m full))
  | inr room ↦ (
    with_room m c v h k room,
    inserted (is_full_size m room) (room_taken m c room).0 (room_taken m c room).1
        (lookup_istream-insert m c room) (lookup_id-insert m c room),
  )
]
