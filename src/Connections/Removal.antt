-- ===== src/Connections/Removal.antt =====
-- The removal of a connection from the tables of src/connection-manager.c.
use tpm2_abrmd.Prelude.{ℕ, ◌≤◌, ◌≡◌, ◌≢◌, refl, sym, ap, ◌∙◌, true, none, some, arith}
use native.Mathlib.Decide.{ℕ_discrete}
use mathlib.Core.Option.{some-injective, none-ne-some}
use tpm2_abrmd.Table.{Table, lookup, remove, remove_key, contains, is_some}
use tpm2_abrmd.Table.Laws.{lookup-remove_ne, lookup-remove_self, remove-Distinct, size-remove}
use tpm2_abrmd.Connections.{
  Connection, ConnectionManager, connection_manager_remove, connection_manager_lookup_istream,
  connection_manager_lookup_id, connection_manager_size,
}
use tpm2_abrmd.Connections.Invariant.{IsSync}

-- The manager without a connection.
abbrev pub without : ConnectionManager → Connection → ConnectionManager
without m c = record m {
  connection_from_istream_table = remove_key c.istream m.connection_from_istream_table;
  connection_from_id_table = remove_key c.id m.connection_from_id_table;
}

contains_of_lookup :
    (k : ℕ) (t : Table Connection) {c : Connection} → lookup k t ≡ some c → contains k t ≡ true
unfolding contains is_some
contains_of_lookup k t e = rw e refl

module _ (m : ConnectionManager) (c : Connection) (v : IsSync m)
    (there : connection_manager_lookup_istream m c.istream ≡ some c) where
  remove_lem : connection_manager_remove m c ≡ some (without m c, true)
  unfolding connection_manager_remove remove connection_manager_lookup_istream
      connection_manager_lookup_id
  remove_lem = ground (
    arith,
    contains_of_lookup c.istream m.connection_from_istream_table there,
    contains_of_lookup c.id m.connection_from_id_table (v.of_istream c.istream c there).1,
  )

  gone_istream : connection_manager_lookup_istream (without m c) c.istream ≡ none
  unfolding connection_manager_lookup_istream
  gone_istream = lookup-remove_self c.istream m.connection_from_istream_table v.distinct_istreams

  gone_id : connection_manager_lookup_id (without m c) c.id ≡ none
  unfolding connection_manager_lookup_id
  gone_id = lookup-remove_self c.id m.connection_from_id_table v.distinct_ids

  kept_istream :
      (i : ℕ)
      → c.istream ≢ i
      → connection_manager_lookup_istream (without m c) i ≡ connection_manager_lookup_istream m i
  unfolding connection_manager_lookup_istream
  kept_istream i h = lookup-remove_ne c.istream i m.connection_from_istream_table h

  kept_id :
      (i : ℕ)
      → c.id ≢ i
      → connection_manager_lookup_id (without m c) i ≡ connection_manager_lookup_id m i
  unfolding connection_manager_lookup_id
  kept_id i h = lookup-remove_ne c.id i m.connection_from_id_table h

  removed_by_istream :
      (i : ℕ) (x : Connection)
      → connection_manager_lookup_istream (without m c) i ≡ some x
      → (x.istream ≡ i) × (connection_manager_lookup_id (without m c) x.id ≡ some x)
  removed_by_istream i x e = elim (ℕ_discrete c.istream i) [
    | yes same ↦ absurd (
        none-ne-some _
          (sym gone_istream ∙ (ap (connection_manager_lookup_istream (without m c)) same ∙ e)))
    | no other ↦
        let old = v.of_istream i x (sym (kept_istream i other) ∙ e) in
        (
          old.0,
          kept_id x.id (λ d. other (
                sym (
                  ap (λ (y : Connection). y.istream)
                    (some-injective _ _ (
                      sym old.1
                      ∙ (ap (connection_manager_lookup_id m) (sym d)
                          ∙ (v.of_istream c.istream c there).1))))
                ∙ old.0))
              ∙ old.1,
        )
  ]

  removed_by_id :
      (i : ℕ) (x : Connection)
      → connection_manager_lookup_id (without m c) i ≡ some x
      → (x.id ≡ i) × (connection_manager_lookup_istream (without m c) x.istream ≡ some x)
  removed_by_id i x e = elim (ℕ_discrete c.id i) [
    | yes same ↦
        absurd (
          none-ne-some _ (sym gone_id ∙ (ap (connection_manager_lookup_id (without m c)) same ∙ e)))
    | no other ↦
        let old = v.of_id i x (sym (kept_id i other) ∙ e) in
        (
          old.0,
          kept_istream x.istream (λ d. other (
                sym (
                  ap (λ (y : Connection). y.id)
                    (some-injective _ _
                      (sym old.1 ∙ (ap (connection_manager_lookup_istream m) (sym d) ∙ there))))
                ∙ old.0))
              ∙ old.1,
        )
  ]

  removed_size : connection_manager_size (without m c) ≤ m.max_connections
  unfolding connection_manager_size
  removed_size = ground (arith, v.bounded, size-remove c.istream m.connection_from_istream_table)

  -- The removal of a connection that is found under its stream does not end the daemon, and answers
  -- TRUE: the connection is found neither under its stream nor under its id any more, every other
  -- stream and id finds what it found before, and the tables stay in step.
  pub connection_manager_remove_lem :
      (m' : ConnectionManager) × (connection_manager_remove m c ≡ some (m', true))
      × IsSync m'
      × (connection_manager_lookup_istream m' c.istream ≡ none)
      × (connection_manager_lookup_id m' c.id ≡ none)
      × ((i : ℕ)
          → c.istream ≢ i
          → connection_manager_lookup_istream m' i ≡ connection_manager_lookup_istream m i)
      × ((i : ℕ) → c.id ≢ i → connection_manager_lookup_id m' i ≡ connection_manager_lookup_id m i)
  connection_manager_remove_lem = (
    without m c,
    remove_lem,
    record {
      distinct_istreams =
          remove-Distinct c.istream m.connection_from_istream_table v.distinct_istreams;
      distinct_ids = remove-Distinct c.id m.connection_from_id_table v.distinct_ids;
      bounded = removed_size;
      of_istream = removed_by_istream;
      of_id = removed_by_id;
    },
    gone_istream,
    gone_id,
    kept_istream,
    kept_id,
  )
